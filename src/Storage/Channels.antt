-- ===== src/Storage/Channels.antt =====
-- `SqlAlchemyNotificationChannelRepository` of backend/app/infrastructure/db/repositories.py.
use stock_monitoring.Common.{
  any, ℕ, Bool, true, not, ◌==◌, Option, none, some, List, [], ◌∷◌, ◌++◌, map, filter, update_if,
}
use stock_monitoring.Common.Json.{Dict, Json}
use stock_monitoring.Domain.Action.{raise_if, Action, pure, gets, lift, modify, ◌>>=◌, ◌>>◌}
use stock_monitoring.Domain.Errors.{
  integrity_error, or_raise, map_result, traverse, value_error, Result,
}
use stock_monitoring.Domain.Entities.{NotificationChannel}
use stock_monitoring.Domain.Enums.{NotificationChannelType, channel_type_value, parse_channel_type}
use stock_monitoring.Domain.Ports.{NotificationChannelRepository}
use stock_monitoring.Storage.Rows.{NotificationLogModel, NotificationChannelModel}
use stock_monitoring.Storage.World.{World}
use stock_monitoring.Storage.Engine.{Engine}

-- The entity of a row; `NotificationChannelType(...)` raises on a text that is no member's value.
unfoldable pub to_notification_channel : NotificationChannelModel → Result NotificationChannel
to_notification_channel model =
    map_result
      (λ type. record {
        id = some model.id;
        user_id = model.user_id;
        type = type;
        config = model.config_json;
        is_verified = model.is_verified;
      })
      (or_raise value_error (parse_channel_type model.type))

-- The list comprehension of `list_for_user`.
unfoldable pub to_notification_channels :
    List NotificationChannelModel → Result (List NotificationChannel)
unfolding to_notification_channel
to_notification_channels = traverse to_notification_channel

unfoldable pub create :
    Engine → ℕ → NotificationChannelType → Dict Json → Bool → Action World NotificationChannel
unfolding to_notification_channel
create E user_id type config is_verified w =
    let model : NotificationChannelModel = record {
      id = E.fresh (map (λ (m : NotificationChannelModel). m.id) w.notification_channels);
      user_id = user_id;
      type = channel_type_value type;
      config_json = config;
      is_verified = is_verified;
    } in
    (
      to_notification_channel model,
      record w {
        db = record w.db { notification_channels = w.notification_channels ++ model ∷ [] };
      },
    )

unfoldable pub list_for_user : ℕ → Action World (List NotificationChannel)
unfolding to_notification_channels
list_for_user user_id = do
  rows ←
      gets (λ w.
        filter (λ (m : NotificationChannelModel). m.user_id == user_id) w.notification_channels)
  lift (to_notification_channels rows)

unfoldable pub get_by_id : Engine → ℕ → Action World (Option NotificationChannel)
unfolding to_notification_channel
get_by_id E channel_id = do
  rows ←
      gets
        (λ w. filter (λ (m : NotificationChannelModel). m.id == channel_id) w.notification_channels)
  model ← lift (E.scalar_one_or_none NotificationChannelModel rows)
  elim model [ some m ↦ do c ← lift (to_notification_channel m); pure (some c) | none ↦ pure none ]

-- The database refuses to delete a row that a notification log refers to: the flush raises, and
-- with it the commit of the session, in which nothing comes after the delete.
unfoldable pub delete : Engine → ℕ → Action World (Unit {0})
delete E channel_id = do
  rows ←
      gets
        (λ w. filter (λ (m : NotificationChannelModel). m.id == channel_id) w.notification_channels)
  model ← lift (E.scalar_one_or_none NotificationChannelModel rows)
  elim model [
    | some found ↦ do
      referenced ←
          gets
            (λ w. any (λ (m : NotificationLogModel). m.channel_id == found.id) w.notification_logs)
      raise_if referenced integrity_error
      modify (λ w. record w {
        db = record w.db {
          notification_channels =
              filter (λ (m : NotificationChannelModel). not (m.id == found.id))
                w.notification_channels;
        };
      })
    | none ↦ pure tt
  ]

unfoldable pub mark_verified : Engine → ℕ → Action World (Unit {0})
mark_verified E channel_id = do
  rows ←
      gets
        (λ w. filter (λ (m : NotificationChannelModel). m.id == channel_id) w.notification_channels)
  model ← lift (E.scalar_one NotificationChannelModel rows)
  modify (λ w. record w {
    db = record w.db {
      notification_channels =
          update_if (λ (m : NotificationChannelModel). m.id == model.id)
            (λ m. record m { is_verified = true }) w.notification_channels;
    };
  })

abbrev pub notification_channel_repository : Engine → NotificationChannelRepository World
notification_channel_repository E = record {
  create = create E;
  list_for_user = list_for_user;
  get_by_id = get_by_id E;
  delete = delete E;
  mark_verified = mark_verified E;
}
