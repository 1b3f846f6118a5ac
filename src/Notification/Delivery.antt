-- ===== src/Notification/Delivery.antt =====
-- What the channel loop of the notification service leaves behind: one row of the log for each
-- channel that has a sender.
use stock_monitoring.Common.{
  ℕ, Bool, Option, none, some, Option-cases, inl, inr, List, [], ◌∷◌, ◌++◌, map, All, append-nil,
  append_assoc, map-append, ◌≡◌,
}
use stock_monitoring.Domain.Entities.{DetectionEvent, NotificationChannel, NotificationContext}
use stock_monitoring.Domain.Errors.{ok}
use stock_monitoring.Domain.Ports.{NotificationSender}
use stock_monitoring.Notification.Service.{send_all, dedup_key, status_of}
use stock_monitoring.Notification.Wiring.{Senders, notification_service}
use stock_monitoring.Storage.Engine.{Engine}
use stock_monitoring.Storage.NotificationLogs
use stock_monitoring.Storage.Rows.{NotificationLogModel}
use stock_monitoring.Storage.World.{World}

-- A sender answers, and leaves the tables alone; `accepts` is its answer.
abbrev pub AreQuiet : Senders → (NotificationChannel → Bool) → Type 0
AreQuiet senders accepts =
    (channel : NotificationChannel) (event : DetectionEvent) (context : NotificationContext)
    (w : World) (sender : NotificationSender World)
    → senders channel.type ≡ some sender
    → sender.send channel event context w ≡ (ok (accepts channel), w)

abbrev pub log_ids : World → List ℕ
log_ids w = map (λ (m : NotificationLogModel). m.id) w.notification_logs

abbrev pub with_logs : List NotificationLogModel → World → World
with_logs rows w = record w { db = record w.db { notification_logs = w.notification_logs ++ rows } }

-- The channel of a stored row, with its key.
abbrev pub IsStored : NotificationChannel × ℕ → Type 0
IsStored (channel, id) = channel.id ≡ some id

module _ (E : Engine) (senders : Senders) (accepts : NotificationChannel → Bool)
    (event : DetectionEvent) (user_id event_id : ℕ) where
  abbrev pub new_log : World → ℕ → NotificationChannel × ℕ → NotificationLogModel
  new_log w id (channel, channel_id) = record {
    id = id;
    user_id = user_id;
    detection_event_id = event_id;
    channel_id = channel_id;
    status = status_of (accepts channel);
    sent_at = w.now;
    dedup_key = dedup_key user_id event;
  }

  -- A channel without a sender has no row.
  abbrev logs_by :
      World
      → List ℕ
      → NotificationChannel × ℕ
      → List NotificationLogModel
      → List NotificationLogModel
      → Option (NotificationSender World)
      → List NotificationLogModel
  logs_by w ids c without rest none = without
  logs_by w ids c without rest (some _) = new_log w (E.fresh ids) c ∷ rest

  -- The rows for a list of channels, in order.
  abbrev pub new_logs : World → List ℕ → List (NotificationChannel × ℕ) → List NotificationLogModel
  new_logs w ids [] = []
  new_logs w ids (c ∷ cs) =
      logs_by w ids c (new_logs w ids cs) (new_logs w (ids ++ E.fresh ids ∷ []) cs)
        (senders c.0.type)

  -- The loop over a user's stored channels sends to each channel that has a sender
  pub send_all-eq :
      (context : NotificationContext) (cs : List (NotificationChannel × ℕ)) (w : World)
      → AreQuiet senders accepts
      → event.id ≡ some event_id
      → All IsStored cs
      → send_all
          (notification_service E senders)
          event
          context
          user_id
          (map (λ (c : NotificationChannel × ℕ). c.0) cs)
          w
        ≡ (ok tt, with_logs (new_logs w (log_ids w) cs) w)
  unfolding send_all NotificationLogs.create
  send_all-eq context [] w quiet has_event stored = rw append-nil
  send_all-eq context (c ∷ cs) w quiet has_event stored = elim (Option-cases (senders c.0.type)) [
    | inl e ↦ rw e (send_all-eq context cs w quiet has_event (stored.1))
    | inr (sender, e) ↦
        rw
          (
            e,
            quiet c.0 event context w sender e,
            has_event,
            stored.0,
            send_all-eq context cs _ quiet has_event stored.1,
          )
          (simp (map-append, append_assoc))
  ]
