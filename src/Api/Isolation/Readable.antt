-- ===== src/Api/Isolation/Readable.antt =====
-- The types of the stored channels stay readable, and so a user's channels can be listed.
use stock_monitoring.Common.{
  Option, ℕ, String, ◌==◌, Bool, true, false, Option-cases, inl, inr, some, List, [], ◌∷◌, map,
  filter, filter-filter_comm, ◌≡◌, refl, ap, ◌∙◌, arith,
}
use stock_monitoring.Analytics.Summary.{Floats}
use stock_monitoring.Api.App.{UserRoute, Route, Request, handle, respond, respond_all}
use stock_monitoring.Api.Channels.{list_channels}
use stock_monitoring.Api.Isolation.Callers.{caller}
use stock_monitoring.Api.Isolation.Requests.{respond-caller}
use stock_monitoring.Api.Isolation.Settings.{HasKeys}
use stock_monitoring.Api.Isolation.Startup.{respond_all-stored}
use stock_monitoring.Api.Main.{success}
use stock_monitoring.Api.Routers.{NotificationsRoute, handle_notifications}
use stock_monitoring.Api.Schemas.{ChannelSchema, channel_schema}
use stock_monitoring.Auth.Service.{AuthService, Jwt, Hash}
use stock_monitoring.Auth.Wiring.{auth_service}
use stock_monitoring.Domain.Action.{Action}
use stock_monitoring.Domain.Entities.{Datetime, NotificationChannel}
use stock_monitoring.Domain.Enums.{channel_type_value, parse_channel_type}
use stock_monitoring.Domain.Errors.{Error, ok, traverse}
use stock_monitoring.Storage.Channels.{
  to_notification_channel, to_notification_channels, list_for_user,
}
use stock_monitoring.Storage.Engine.{Engine}
use stock_monitoring.Storage.Private.{is_unreadable, unreadable}
use stock_monitoring.Storage.Rows.{NotificationChannelModel}
use stock_monitoring.Storage.World.{World}

-- Every row becomes a channel of the answer, with its key.
record Listed (rows : List NotificationChannelModel) : Type 0 where
  channels : List NotificationChannel
  schemas : List ChannelSchema
  read : to_notification_channels rows ≡ ok channels
  shown : traverse channel_schema channels ≡ ok schemas
  ids :
      map (λ (c : ChannelSchema). c.id) schemas ≡ map (λ (m : NotificationChannelModel). m.id) rows

Listed-readable :
    (rows : List NotificationChannelModel) → filter is_unreadable rows ≡ [] → Listed rows
unfolding to_notification_channels to_notification_channel
Listed-readable [] readable = record {
  channels = [];
  schemas = [];
  read = refl;
  shown = refl;
  ids = refl;
}
Listed-readable (m ∷ rows) readable = elim (Option-cases (parse_channel_type m.type)) [
  | inl unknown ↦
      let bad : is_unreadable m ≡ true = rw unknown refl in absurd (ground (arith, bad, readable))
  | inr (t, known) ↦
      let good : is_unreadable m ≡ false = rw known refl in
      let rest = Listed-readable rows (ground (arith, good, readable)) in
      record {
        channels =
            record {
              id = some m.id;
              user_id = m.user_id;
              type = t;
              config = m.config_json;
              is_verified = m.is_verified;
            }
            ∷ rest.channels;
        schemas =
            record {
              id = m.id;
              type = channel_type_value t;
              config = m.config_json;
              is_verified = m.is_verified;
            }
            ∷ rest.schemas;
        read = rw (known, rest.read) refl;
        shown = rw rest.shown refl;
        ids = ap (λ l. m.id ∷ l) rest.ids;
      }
]

module _ (E : Engine) (floats : Floats) (message : Error → String) (jwt : Jwt) (hash : Hash)
    (randbelow : Action World ℕ) (access_minutes refresh_days : ℕ)
    (draws : (w : World) → (randbelow w).1 ≡ w) where
  abbrev service : AuthService World
  service = auth_service E jwt hash randbelow access_minutes refresh_days

  -- Where every stored channel is of a known type, the settings have a primary key and drawing a
  -- number for a code changes nothing else: whatever requests come from whomever, every stored channel
  -- is still of a known type, and a request for the channels with a good access token is answered with
  -- success and with one channel for each of the user's rows, under its key and in their order.
  pub list_channels-respond_all :
      (at : Datetime) (path : String) (authorization : Option String) {user : ℕ}
      (requests : List Request) (w : World)
      → HasKeys w.settings
      → unreadable w ≡ []
      → caller jwt at authorization ≡ ok user
      → let now = respond_all E floats message service requests w in
        (unreadable now ≡ [])
        × (channels : List ChannelSchema) × ((respond E floats message service
              (record {
                at = at;
                path = path;
                authorization = authorization;
                route =
                    Route.for_user (UserRoute.notifications NotificationsRoute.list_channels_route);
              })
              now).0
            ≡ ok (success channels))
        × (map (λ (c : ChannelSchema). c.id) channels
            ≡ map
                (λ (m : NotificationChannelModel). m.id)
                (filter
                  (λ (m : NotificationChannelModel). m.user_id == user)
                  now.notification_channels))
  unfolding handle handle_notifications list_channels list_for_user
  list_channels-respond_all at path authorization {user} requests w keys readable by =
      let now = respond_all E floats message service requests w in
      let still : unreadable now ≡ [] =
        (respond_all-stored E floats message jwt hash randbelow access_minutes refresh_days draws
          requests w keys).1
        ∙ readable in
      let of_user : NotificationChannelModel → Bool = λ m. m.user_id == user in
      let listed =
        Listed-readable (filter of_user now.notification_channels)
          (rw (filter-filter_comm is_unreadable of_user now.notification_channels, still) refl) in
      (
        still,
        listed.schemas,
        rw
            (
              respond-caller E floats message jwt hash randbelow access_minutes refresh_days at path
                  authorization (UserRoute.notifications NotificationsRoute.list_channels_route) now
                  by,
              listed.read,
              listed.shown,
            )
            refl,
        listed.ids,
      )
