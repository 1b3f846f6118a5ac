-- ===== src/Api/Isolation/Routes.antt =====
-- Every route for a signed-in user, by its router: the rows of the other users stay.
use stock_monitoring.Common.{ℕ, [], filter, ◌==◌, false, ◌≡◌, refl, sym, ap, subst}
use stock_monitoring.Analytics.Summary.{Floats}
use stock_monitoring.Api.App.{UserRoute, handle}
use stock_monitoring.Api.Isolation.Creates.{
  create_product-Keeps, list_products-Keeps, create_watch-Keeps, list_watches-Keeps,
  create_channel-Keeps, list_channels-Keeps, list_notification_log-Keeps,
}
use stock_monitoring.Api.Isolation.Owned.{
  delete_product-Keeps, delete_watch-Keeps, verify_channel-Keeps, delete_channel-Keeps,
}
use stock_monitoring.Api.Isolation.Reads.{handle_read-Keeps}
use stock_monitoring.Api.Isolation.Settings.{HasKeys, set_for_user-private}
use stock_monitoring.Api.Routers.{
  ProductsRoute, WatchesRoute, NotificationsRoute, SettingsRoute, handle_products, handle_watches,
  handle_notifications, handle_settings,
}
use stock_monitoring.Api.Settings.{get_settings_for_user, update_setting}
use stock_monitoring.Domain.Action.{Action}
use stock_monitoring.Domain.Keeps.{Keeps, continue-gets}
use stock_monitoring.Storage.Engine.{Engine}
use stock_monitoring.Storage.Private.{unreadable, private, seen}
use stock_monitoring.Storage.UserSettings
use stock_monitoring.Storage.UserSettings.{collect, is_of}
use stock_monitoring.Storage.World.{World}

-- A user's rows, the retailers and the unreadable channels are those from before, and the settings have a primary key.
abbrev pub AreKept : ℕ → World → World → Type 0
AreKept other before w =
    (private other w ≡ private other before)
    × HasKeys w.settings
    × (w.retailers ≡ before.retailers)
    × (unreadable w ≡ unreadable before)

pub Keeps-AreKept :
    {A : Type 0} {other : ℕ} {m : Action World A}
    → Keeps (seen other) m
    → (w : World) → HasKeys w.settings
    → AreKept other w (m w).1
Keeps-AreKept km w keys = (
  ap (λ s. s.0) (km.at w),
  subst HasKeys (sym (ap (λ s. s.1) (km.at w))) keys,
  ap (λ s. s.2) (km.at w),
  ap (λ s. s.3) (km.at w),
)

module _ (E : Engine) (user other : ℕ) (apart : (user == other) ≡ false) where
  handle_products-Keeps :
      (route : ProductsRoute) → Keeps (seen other) (handle_products E route user)
  unfolding handle_products
  handle_products-Keeps (ProductsRoute.create_product_route body) =
      create_product-Keeps E user other apart body
  handle_products-Keeps ProductsRoute.list_products_route = list_products-Keeps E user other apart
  handle_products-Keeps (ProductsRoute.delete_product_route id) =
      delete_product-Keeps E id user other apart

  handle_watches-Keeps : (route : WatchesRoute) → Keeps (seen other) (handle_watches E route user)
  unfolding handle_watches
  handle_watches-Keeps (WatchesRoute.create_watch_route body) =
      create_watch-Keeps E user other apart body
  handle_watches-Keeps WatchesRoute.list_watches_route = list_watches-Keeps E user other apart
  handle_watches-Keeps (WatchesRoute.delete_watch_route id) =
      delete_watch-Keeps E id user other apart

  handle_notifications-Keeps :
      (route : NotificationsRoute) → Keeps (seen other) (handle_notifications E route user)
  unfolding handle_notifications
  handle_notifications-Keeps (NotificationsRoute.create_channel_route body) =
      create_channel-Keeps E user other apart body
  handle_notifications-Keeps NotificationsRoute.list_channels_route =
      list_channels-Keeps E user other apart
  handle_notifications-Keeps NotificationsRoute.list_notification_log_route =
      list_notification_log-Keeps E user other apart
  handle_notifications-Keeps (NotificationsRoute.verify_channel_route id) =
      verify_channel-Keeps E id user other apart
  handle_notifications-Keeps (NotificationsRoute.delete_channel_route id) =
      delete_channel-Keeps E id user other apart

  handle_settings-AreKept :
      (route : SettingsRoute) (w : World)
      → HasKeys w.settings
      → AreKept other w (handle_settings E route user w).1
  unfolding handle_settings get_settings_for_user update_setting UserSettings.get_for_user
  handle_settings-AreKept SettingsRoute.get_settings_route w keys = (refl, keys, refl, refl)
  handle_settings-AreKept (SettingsRoute.update_setting_route key value) w keys =
      subst (AreKept other w)
        (sym (
          continue-gets (UserSettings.set_for_user E user key value w).0
            (λ v. collect (filter (is_of user) v.settings) [])
            (UserSettings.set_for_user E user key value w).1))
        (set_for_user-private E user key value w other apart keys)

  pub handle-AreKept :
      (floats : Floats) (route : UserRoute) (w : World)
      → HasKeys w.settings
      → AreKept other w (handle E floats route user w).1
  unfolding handle
  handle-AreKept floats (UserRoute.read route) =
      Keeps-AreKept (handle_read-Keeps {view = seen other} E floats route user)
  handle-AreKept floats (UserRoute.products route) = Keeps-AreKept (handle_products-Keeps route)
  handle-AreKept floats (UserRoute.watches route) = Keeps-AreKept (handle_watches-Keeps route)
  handle-AreKept floats (UserRoute.notifications route) =
      Keeps-AreKept (handle_notifications-Keeps route)
  handle-AreKept floats (UserRoute.settings route) = handle_settings-AreKept route
