-- ===== src/Api/Routers.antt =====
-- The routers of backend/app/api/routers whose routes are for a signed-in user: the endpoints of each
-- with their parsed parameters, what they answer with, and the repositories of the request's session
-- that each is given.
use stock_monitoring.Common.{ℕ, String, List}
use stock_monitoring.Common.Json.{Dict, Json}
use stock_monitoring.Analytics.Summary.{Floats}
use stock_monitoring.Api.Availability.{AvailabilitySummarySchema, availability_summary}
use stock_monitoring.Api.Channels.{
  create_channel, list_channels, verify_channel, delete_channel, list_notification_log,
}
use stock_monitoring.Api.History.{get_history, price_history}
use stock_monitoring.Api.Products.{create_product, list_products, delete_product}
use stock_monitoring.Api.Reference.{RetailerSchema, SystemLogSchema, list_retailers, list_logs}
use stock_monitoring.Api.Schemas.{
  ProductCreateSchema, ProductSchema, WatchCreateSchema, WatchSchema, ChannelCreateSchema,
  ChannelSchema, NotificationLogEntrySchema, HistoryEntrySchema, PricePointSchema,
}
use stock_monitoring.Api.Settings.{get_settings_for_user, update_setting}
use stock_monitoring.Api.Watches.{create_watch, list_watches, delete_watch}
use stock_monitoring.Domain.Action.{Action}
use stock_monitoring.Storage.Channels.{notification_channel_repository}
use stock_monitoring.Storage.DetectionEvents.{detection_event_repository}
use stock_monitoring.Storage.Engine.{Engine}
use stock_monitoring.Storage.NotificationLogs.{notification_log_repository}
use stock_monitoring.Storage.Products.{product_repository}
use stock_monitoring.Storage.Retailers.{retailer_repository}
use stock_monitoring.Storage.Snapshots.{snapshot_repository}
use stock_monitoring.Storage.SystemLogs.{system_log_repository}
use stock_monitoring.Storage.UserSettings.{settings_repository}
use stock_monitoring.Storage.Watches.{watch_repository}
use stock_monitoring.Storage.WatchTargets.{watch_target_repository}
use stock_monitoring.Storage.World.{World, utcnow}

-- The routes that only read: retailers.py, history.py, analytics.py and logs.py.
pub data ReadRoute : Type 0 where
  list_retailers_route list_logs_route : ReadRoute
  get_history_route : ℕ → ReadRoute
  price_history_route availability_summary_route : ℕ → ℕ → ReadRoute

pub data ProductsRoute : Type 0 where
  create_product_route : ProductCreateSchema → ProductsRoute
  list_products_route : ProductsRoute
  delete_product_route : ℕ → ProductsRoute

pub data WatchesRoute : Type 0 where
  create_watch_route : WatchCreateSchema → WatchesRoute
  list_watches_route : WatchesRoute
  delete_watch_route : ℕ → WatchesRoute

pub data NotificationsRoute : Type 0 where
  create_channel_route : ChannelCreateSchema → NotificationsRoute
  list_channels_route list_notification_log_route : NotificationsRoute
  verify_channel_route delete_channel_route : ℕ → NotificationsRoute

pub data SettingsRoute : Type 0 where
  get_settings_route : SettingsRoute
  update_setting_route : String → Json → SettingsRoute

-- What an endpoint answers with: its response model.
abbrev pub ReadAnswer : ReadRoute → Type 0
ReadAnswer ReadRoute.list_retailers_route = List RetailerSchema
ReadAnswer ReadRoute.list_logs_route = List SystemLogSchema
ReadAnswer (ReadRoute.get_history_route _) = List HistoryEntrySchema
ReadAnswer (ReadRoute.price_history_route _ _) = List PricePointSchema
ReadAnswer (ReadRoute.availability_summary_route _ _) = AvailabilitySummarySchema

abbrev pub ProductsAnswer : ProductsRoute → Type 0
ProductsAnswer (ProductsRoute.create_product_route _) = ProductSchema
ProductsAnswer ProductsRoute.list_products_route = List ProductSchema
ProductsAnswer (ProductsRoute.delete_product_route _) = Unit

abbrev pub WatchesAnswer : WatchesRoute → Type 0
WatchesAnswer (WatchesRoute.create_watch_route _) = WatchSchema
WatchesAnswer WatchesRoute.list_watches_route = List WatchSchema
WatchesAnswer (WatchesRoute.delete_watch_route _) = Unit

abbrev pub NotificationsAnswer : NotificationsRoute → Type 0
NotificationsAnswer (NotificationsRoute.create_channel_route _) = ChannelSchema
NotificationsAnswer NotificationsRoute.list_channels_route = List ChannelSchema
NotificationsAnswer NotificationsRoute.list_notification_log_route = List NotificationLogEntrySchema
NotificationsAnswer (NotificationsRoute.verify_channel_route _) = Unit
NotificationsAnswer (NotificationsRoute.delete_channel_route _) = Unit

module _ (E : Engine) where
  unfoldable pub handle_read : Floats → (route : ReadRoute) → ℕ → Action World (ReadAnswer route)
  handle_read floats ReadRoute.list_retailers_route user_id =
      list_retailers retailer_repository user_id
  handle_read floats ReadRoute.list_logs_route user_id = list_logs (system_log_repository E) user_id
  handle_read floats (ReadRoute.get_history_route watch_id) user_id =
      get_history (watch_repository E) (snapshot_repository E) (detection_event_repository E)
        watch_id user_id
  handle_read floats (ReadRoute.price_history_route watch_id days) user_id =
      price_history (watch_repository E) (snapshot_repository E) utcnow watch_id days user_id
  handle_read floats (ReadRoute.availability_summary_route watch_id days) user_id =
      availability_summary floats (watch_repository E) (detection_event_repository E) utcnow
        watch_id days user_id

  unfoldable pub handle_products : (route : ProductsRoute) → ℕ → Action World (ProductsAnswer route)
  handle_products (ProductsRoute.create_product_route body) user_id =
      create_product (product_repository E) body user_id
  handle_products ProductsRoute.list_products_route user_id =
      list_products (product_repository E) user_id
  handle_products (ProductsRoute.delete_product_route product_id) user_id =
      delete_product (product_repository E) (watch_repository E) product_id user_id

  unfoldable pub handle_watches : (route : WatchesRoute) → ℕ → Action World (WatchesAnswer route)
  handle_watches (WatchesRoute.create_watch_route body) user_id =
      create_watch (watch_repository E) (product_repository E) (watch_target_repository E) body
        user_id
  handle_watches WatchesRoute.list_watches_route user_id = list_watches (watch_repository E) user_id
  handle_watches (WatchesRoute.delete_watch_route watch_id) user_id =
      delete_watch (watch_repository E) watch_id user_id

  unfoldable pub handle_notifications :
      (route : NotificationsRoute) → ℕ → Action World (NotificationsAnswer route)
  handle_notifications (NotificationsRoute.create_channel_route body) user_id =
      create_channel (notification_channel_repository E) body user_id
  handle_notifications NotificationsRoute.list_channels_route user_id =
      list_channels (notification_channel_repository E) user_id
  handle_notifications NotificationsRoute.list_notification_log_route user_id =
      list_notification_log (notification_log_repository E) user_id
  handle_notifications (NotificationsRoute.verify_channel_route channel_id) user_id =
      verify_channel (notification_channel_repository E) channel_id user_id
  handle_notifications (NotificationsRoute.delete_channel_route channel_id) user_id =
      delete_channel (notification_channel_repository E) channel_id user_id

  unfoldable pub handle_settings : SettingsRoute → ℕ → Action World (Dict Json)
  handle_settings SettingsRoute.get_settings_route user_id =
      get_settings_for_user (settings_repository E) user_id
  handle_settings (SettingsRoute.update_setting_route key value) user_id =
      update_setting (settings_repository E) key value user_id
