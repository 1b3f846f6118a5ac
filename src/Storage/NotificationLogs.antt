-- ===== src/Storage/NotificationLogs.antt =====
-- `SqlAlchemyNotificationLogRepository` of backend/app/infrastructure/db/repositories.py.
use stock_monitoring.Common.{
  ℕ, ◌-◌, ◌*◌, String, Bool, true, false, ◌&&◌, ◌==◌, leb, str_eq, none, some, List, [], ◌∷◌, ◌++◌,
  map, filter, take,
}
use stock_monitoring.Domain.Action.{Action, pure, gets, lift, ◌>>=◌}
use stock_monitoring.Domain.Errors.{ok}
use stock_monitoring.Domain.Entities.{Datetime, NotificationLog}
use stock_monitoring.Domain.Ports.{NotificationLogRepository}
use stock_monitoring.Storage.Rows.{NotificationLogModel}
use stock_monitoring.Storage.World.{World, utcnow}
use stock_monitoring.Storage.Engine.{Engine}

abbrev pub to_notification_log : NotificationLogModel → NotificationLog
to_notification_log model = record {
  id = some model.id;
  user_id = model.user_id;
  detection_event_id = model.detection_event_id;
  channel_id = model.channel_id;
  status = model.status;
  sent_at = model.sent_at;
  dedup_key = model.dedup_key;
}

-- A row of the key that is no older than the cooldown.
abbrev pub is_recent : String → ℕ → Datetime → NotificationLogModel → Bool
is_recent dedup_key cooldown_seconds now m =
    str_eq m.dedup_key dedup_key && leb (now - cooldown_seconds * 1_000_000) m.sent_at

-- `scalar_one_or_none`: two rows of the key make it raise.
unfoldable pub exists_recent : Engine → String → ℕ → Action World Bool
exists_recent E dedup_key cooldown_seconds = do
  now ← utcnow
  rows ← gets (λ w. filter (is_recent dedup_key cooldown_seconds now) w.notification_logs)
  row ← lift (E.scalar_one_or_none NotificationLogModel rows)
  elim row [ some _ ↦ pure true | none ↦ pure false ]

unfoldable pub create : Engine → ℕ → ℕ → ℕ → String → String → Action World NotificationLog
create E user_id detection_event_id channel_id status dedup_key w =
    let model : NotificationLogModel = record {
      id = E.fresh (map (λ (m : NotificationLogModel). m.id) w.notification_logs);
      user_id = user_id;
      detection_event_id = detection_event_id;
      channel_id = channel_id;
      status = status;
      sent_at = w.now;
      dedup_key = dedup_key;
    } in
    (
      ok (to_notification_log model),
      record w { db = record w.db { notification_logs = w.notification_logs ++ model ∷ [] } },
    )

unfoldable pub list_for_user : Engine → ℕ → ℕ → Action World (List NotificationLog)
list_for_user E user_id limit = gets (λ w. map to_notification_log (
    take limit (
      E.order_by_desc NotificationLogModel (λ m. m.sent_at)
        (filter (λ (m : NotificationLogModel). m.user_id == user_id) w.notification_logs))))

abbrev pub notification_log_repository : Engine → NotificationLogRepository World
notification_log_repository E = record {
  exists_recent = exists_recent E;
  create = create E;
  list_for_user = list_for_user E;
}
