-- ===== src/Notification/Tasks.antt =====
-- The Celery task as a whole, on the stored rows that it reads.
use stock_monitoring.Common.{ℕ, Bool, true, some, List, map, ◌≡◌, refl, ◌∙◌, sym}
use stock_monitoring.Domain.Entities.{
  DetectionEvent, NotificationChannel, Watch, WatchTarget, Snapshot,
}
use stock_monitoring.Domain.Errors.{ok}
use stock_monitoring.Notification.Cooldown.{AllStale}
use stock_monitoring.Notification.Delivery.{AreQuiet, with_logs}
use stock_monitoring.Notification.Everyone.{
  AllAlerted, IsListed, all_logs, all_logs-AllAlerted, notify_each-eq,
}
use stock_monitoring.Notification.Service.{dedup_key, process_event, process_found, context_of}
use stock_monitoring.Notification.Watchers.{is_in, notify_watchers-once}
use stock_monitoring.Notification.Wiring.{Senders, notification_service, process_detection_event}
use stock_monitoring.Storage.DetectionEvents
use stock_monitoring.Storage.Engine.{Engine}
use stock_monitoring.Storage.Rows.{NotificationLogModel}
use stock_monitoring.Storage.Session.{in_session}
use stock_monitoring.Storage.Snapshots
use stock_monitoring.Storage.WatchTargets
use stock_monitoring.Storage.Watches
use stock_monitoring.Storage.World.{World}

abbrev watchers : List Watch → List ℕ
watchers watches = map (λ (x : Watch). x.user_id) watches

module _ (E : Engine) (senders : Senders) (accepts : NotificationChannel → Bool) where
  -- If the senders answer and leave the world alone, the event, its target, its snapshot and the
  -- active watches of the target can be read, and for every user with such a watch the channels can be
  -- read and there is no recent alert of the kind:
  -- the task for the event succeeds, and does nothing to the world but to add rows to the log, among
  -- which each of these users has one of the event for each of the user's channels with a sender.
  pub process_detection_event-AllAlerted :
      (event : DetectionEvent) (event_id : ℕ) (target : WatchTarget) (snapshot : Snapshot)
      (watches : List Watch) (channels : ℕ → List (NotificationChannel × ℕ)) (w : World)
      → AreQuiet senders accepts
      → event.id ≡ some event_id
      → DetectionEvents.get_by_id E event_id w ≡ (ok (some event), w)
      → WatchTargets.get_by_id E event.watch_target_id w ≡ (ok (some target), w)
      → Snapshots.get_by_id E event.snapshot_id w ≡ (ok (some snapshot), w)
      → Watches.list_by_watch_target event.watch_target_id w ≡ (ok watches, w)
      → ((u : ℕ)
          → is_in (watchers watches) u ≡ true
          → IsListed E senders accepts event event_id
              (context_of target event snapshot)
              channels
              w
              u
            × AllStale (dedup_key u event) w)
      → (logs : List NotificationLogModel) × (process_detection_event E senders event_id w
          ≡ (ok tt, with_logs logs w))
        × ((u : ℕ)
            → is_in (watchers watches) u ≡ true
            → AllAlerted senders event_id u (channels u) logs)
  unfolding process_detection_event in_session process_event process_found
  process_detection_event-AllAlerted event event_id target snapshot watches channels w quiet
        has_event found target_found snapshot_found watched h =
      let context = context_of target event snapshot in
      let (users, loop, no_repeats, same) =
        notify_watchers-once (notification_service E senders) event context watches in
      (
        all_logs E senders accepts event event_id context channels w users,
        rw
            (
              found,
              target_found,
              snapshot_found,
              watched,
              loop,
              notify_each-eq E senders accepts event event_id context channels users w quiet
                  has_event no_repeats (λ u i. h u (sym (same u) ∙ i)),
            )
            refl,
        λ u i.
            all_logs-AllAlerted E senders accepts event event_id context channels users w u
              (same u ∙ i),
      )
