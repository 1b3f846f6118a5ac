-- ===== src/Storage/Private.antt =====
-- The rows that belong to a user: those of the tables with a `user_id` column.
use stock_monitoring.Common.{ℕ, ◌==◌, Bool, true, false, Option, none, some, List, filter}
use stock_monitoring.Domain.Enums.{parse_channel_type}
use stock_monitoring.Storage.Rows.{
  ProductModel, WatchModel, NotificationChannelModel, NotificationLogModel, RetailerModel,
  SettingsModel,
}
use stock_monitoring.Storage.UserSettings.{is_of}
use stock_monitoring.Storage.World.{World}

pub record Private : Type 0 where
  pub products : List ProductModel
  pub watches : List WatchModel
  pub notification_channels : List NotificationChannelModel
  pub notification_logs : List NotificationLogModel
  pub settings : List SettingsModel

abbrev pub private : ℕ → World → Private
private user w = record {
  products = filter (λ (m : ProductModel). m.user_id == user) w.products;
  watches = filter (λ (m : WatchModel). m.user_id == user) w.watches;
  notification_channels =
      filter (λ (m : NotificationChannelModel). m.user_id == user) w.notification_channels;
  notification_logs = filter (λ (m : NotificationLogModel). m.user_id == user) w.notification_logs;
  settings = filter (is_of user) w.settings;
}

abbrev is_none : {A : Type 0} → Option A → Bool
is_none none = true
is_none (some a) = false

-- The text of the row is no channel type, so that reading it raises.
abbrev pub is_unreadable : NotificationChannelModel → Bool
is_unreadable m = is_none (parse_channel_type m.type)

abbrev pub unreadable : World → List NotificationChannelModel
unreadable w = filter is_unreadable w.notification_channels

-- What is seen of the state: a user's rows, the settings of all users, whose keys tell the rows
-- apart, the retailers and the channels that cannot be read.
abbrev pub seen :
    ℕ → World → Private × List SettingsModel × List RetailerModel × List NotificationChannelModel
seen user w = (private user w, w.settings, w.retailers, unreadable w)
