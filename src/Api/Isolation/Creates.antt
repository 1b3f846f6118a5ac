-- ===== src/Api/Isolation/Creates.antt =====
-- The routes that list a user's rows and that add one: no other user's rows change.
use stock_monitoring.Common.{
  map, ℕ, String, ◌==◌, false, Bool, Option, none, some, List, [], ◌∷◌, ◌++◌, filter, filter-append,
  append-nil, ◌≡◌, refl,
}
use stock_monitoring.Common.Int.{ℤ}
use stock_monitoring.Common.Json.{Dict, Json}
use stock_monitoring.Api.Channels.{create_channel, list_channels, list_notification_log}
use stock_monitoring.Api.Products.{create_product, list_products, require_product}
use stock_monitoring.Api.Schemas.{
  ProductCreateSchema, WatchCreateSchema, ChannelCreateSchema, watch_schema, channel_schema,
}
use stock_monitoring.Api.Watches.{create_watch, list_watches}
use stock_monitoring.Domain.Action.{require}
use stock_monitoring.Domain.Entities.{Product}
use stock_monitoring.Domain.Enums.{NotificationChannelType, channel_type_value, parse_channel_type}
use stock_monitoring.Domain.Enums.Laws.{parse_channel_type-value}
use stock_monitoring.Domain.Errors.{assertion_error, value_error}
use stock_monitoring.Domain.Keeps.{
  Keeps, Keeps-pure, Keeps-lift, Keeps-raise, Keeps-require, Keeps-bind, Keeps-find, Keeps-if,
}
use stock_monitoring.Storage.Channels
use stock_monitoring.Storage.Channels.{notification_channel_repository}
use stock_monitoring.Storage.Engine.{Engine}
use stock_monitoring.Storage.NotificationLogs
use stock_monitoring.Storage.NotificationLogs.{notification_log_repository}
use stock_monitoring.Storage.Private.{seen, is_unreadable}
use stock_monitoring.Storage.Products
use stock_monitoring.Storage.Products.{product_repository}
use stock_monitoring.Storage.Rows.{NotificationChannelModel, ProductModel, WatchTargetModel}
use stock_monitoring.Storage.Watches
use stock_monitoring.Storage.Watches.{watch_repository}
use stock_monitoring.Storage.WatchTargets
use stock_monitoring.Storage.WatchTargets.{watch_target_repository, is_target}
use stock_monitoring.Storage.World.{World}

-- A row of another user is not among a user's rows.
filter-add :
    {Row : Type 0} (p : Row → Bool) (rows : List Row) (m : Row)
    → p m ≡ false
    → filter p (rows ++ m ∷ []) ≡ filter p rows
filter-add p rows m e = rw (filter-append p rows (m ∷ []), e) (append-nil (filter p rows))

module _ (E : Engine) (user other : ℕ) (apart : (user == other) ≡ false) where
  pub create_product-Keeps :
      (body : ProductCreateSchema)
      → Keeps (seen other) (create_product (product_repository E) body user)
  unfolding create_product Products.create
  create_product-Keeps body = record { at = λ w. rw (filter-add, apart) refl }

  pub list_products-Keeps : Keeps (seen other) (list_products (product_repository E) user)
  unfolding list_products Products.list_for_user
  list_products-Keeps = record { at = λ w. refl }

  pub list_watches-Keeps : Keeps (seen other) (list_watches (watch_repository E) user)
  unfolding list_watches Watches.list_for_user
  list_watches-Keeps = record { at = λ w. refl }

  pub list_channels-Keeps :
      Keeps (seen other) (list_channels (notification_channel_repository E) user)
  unfolding list_channels Channels.list_for_user
  list_channels-Keeps =
      Keeps-bind (Channels.list_for_user user) _ (record { at = λ w. refl })
        (λ channels. Keeps-lift _)

  pub list_notification_log-Keeps :
      Keeps (seen other) (list_notification_log (notification_log_repository E) user)
  unfolding list_notification_log NotificationLogs.list_for_user
  list_notification_log-Keeps = record { at = λ w. refl }

  channel-Keeps :
      (type : NotificationChannelType) (config : Dict Json) (verified : Bool)
      → Keeps (seen other) (Channels.create E user type config verified)
  unfolding Channels.create
  channel-Keeps type config verified = record { at = at }
    where
      at : (w : World) → seen other (Channels.create E user type config verified w).1 ≡ seen other w
      at w =
          let row : NotificationChannelModel = record {
            id = E.fresh (map (λ (m : NotificationChannelModel). m.id) w.notification_channels);
            user_id = user;
            type = channel_type_value type;
            config_json = config;
            is_verified = verified;
          } in
          rw
            (
              filter-add (λ (m : NotificationChannelModel). m.user_id == other)
                  w.notification_channels row apart,
              filter-add is_unreadable w.notification_channels row
                  (rw (parse_channel_type-value type) refl),
            )
            refl

  pub create_channel-Keeps :
      (body : ChannelCreateSchema)
      → Keeps (seen other) (create_channel (notification_channel_repository E) body user)
  unfolding create_channel
  create_channel-Keeps body =
      Keeps-bind (require value_error (parse_channel_type body.type)) _ (Keeps-require _ _) (λ type.
        Keeps-bind (Channels.create E user type body.config false) _
          (channel-Keeps type body.config false) (λ channel. Keeps-lift (channel_schema channel)))

  product-Keeps : (id : ℕ) → Keeps (seen other) (Products.get_by_id E id)
  unfolding Products.get_by_id
  product-Keeps id =
      Keeps-find (λ w. filter (λ (m : ProductModel). m.id == id) w.products)
        (E.scalar_one_or_none ProductModel) _ (Keeps-pure _) (λ m. Keeps-pure _)

  require_product-Keeps :
      (found : Option Product) → Keeps (seen other) (require_product {W = World} user found)
  unfolding require_product
  require_product-Keeps none = Keeps-raise _
  require_product-Keeps (some product) =
      Keeps-if (product.user_id == user) (Keeps-pure product) (Keeps-raise _)

  get_or_create-Keeps :
      (r c p k : String) (i : ℤ) → Keeps (seen other) (WatchTargets.get_or_create E r c p k i)
  unfolding WatchTargets.get_or_create
  get_or_create-Keeps r c p k i =
      Keeps-find (λ w. filter (is_target r c p k) w.watch_targets)
        (E.scalar_one_or_none WatchTargetModel) _ (record { at = λ w. refl })
        (λ m. record { at = λ w. refl })

  watch-Keeps :
      (product target : ℕ) (i : ℤ) → Keeps (seen other) (Watches.create E user product target i)
  unfolding Watches.create
  watch-Keeps product target i = record { at = λ w. rw (filter-add, apart) refl }

  pub create_watch-Keeps :
      (body : WatchCreateSchema)
      → Keeps (seen other) (
          create_watch
            (watch_repository E)
            (product_repository E)
            (watch_target_repository E)
            body
            user)
  unfolding create_watch
  create_watch-Keeps body =
      Keeps-bind (Products.get_by_id E body.product_id) _ (product-Keeps body.product_id) (λ found.
        Keeps-bind (require_product user found) _ (require_product-Keeps found) (λ product.
          Keeps-bind
            (WatchTargets.get_or_create E body.retailer_slug body.city body.pincode product.keyword
              body.interval_seconds)
            _
            (get_or_create-Keeps body.retailer_slug body.city body.pincode product.keyword
              body.interval_seconds)
            (λ target.
              Keeps-bind (require assertion_error product.id) _ (Keeps-require _ _) (λ product_id.
                Keeps-bind (require assertion_error target.id) _ (Keeps-require _ _) (λ target_id.
                  Keeps-bind (Watches.create E user product_id target_id body.interval_seconds) _
                    (watch-Keeps product_id target_id body.interval_seconds)
                    (λ watch. Keeps-lift (watch_schema watch)))))))
