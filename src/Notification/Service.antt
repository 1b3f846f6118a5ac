-- ===== src/Notification/Service.antt =====
-- `NotificationService` of backend/app/application/notification_service.py, over its ports.
use Prim.Native.String.{◌++◌}
use stock_monitoring.Common.{
  ℕ, String, Bool, any, ◌==◌, Option, none, some, List, [], ◌∷◌, if◌then◌else◌,
}
use stock_monitoring.Common.Decimal.{str}
use stock_monitoring.Domain.Action.{Action, pure, require, ◌>>=◌, ◌>>◌}
use stock_monitoring.Domain.Entities.{
  DetectionEvent, NotificationChannel, NotificationContext, Snapshot, Watch, WatchTarget,
}
use stock_monitoring.Domain.Enums.{NotificationChannelType, event_type_value}
use stock_monitoring.Domain.Errors.{assertion_error}
use stock_monitoring.Domain.Ports.{
  WatchTargetRepository, SnapshotRepository, DetectionEventRepository, WatchRepository,
  NotificationChannelRepository, NotificationLogRepository, NotificationSender,
}

pub record NotificationService (W : Type 0) : Type 0 where
  pub watch_target_repo : WatchTargetRepository W
  pub snapshot_repo : SnapshotRepository W
  pub event_repo : DetectionEventRepository W
  pub watch_repo : WatchRepository W
  pub channel_repo : NotificationChannelRepository W
  pub notification_log_repo : NotificationLogRepository W
  -- `senders.get`
  pub senders : NotificationChannelType → Option (NotificationSender W)
  pub cooldown_seconds : ℕ

-- `f"{watch.user_id}:{event.watch_target_id}:{event.event_type.value}"`
unfoldable pub dedup_key : ℕ → DetectionEvent → String
dedup_key user_id event =
    str user_id
    ++ (":" ++ (str event.watch_target_id ++ (":" ++ event_type_value event.event_type)))

abbrev pub status_of : Bool → String
status_of success = if success then "sent" else "failed"

abbrev pub context_of : WatchTarget → DetectionEvent → Snapshot → NotificationContext
context_of watch_target event snapshot = record {
  keyword = watch_target.keyword;
  retailer_slug = watch_target.retailer_slug;
  event_type = event.event_type;
  snapshot = snapshot;
}

module _ {W : Type 0} (service : NotificationService W) where
  open service use {
    watch_target_repo, snapshot_repo, event_repo, watch_repo, channel_repo, notification_log_repo,
    senders, cooldown_seconds,
  }

  module _ (event : DetectionEvent) (context : NotificationContext) where
    -- The loop over a user's channels.
    unfoldable pub send_all : ℕ → List NotificationChannel → Action W (Unit {0})
    send_all user_id [] = pure tt
    send_all user_id (channel ∷ channels) = elim (senders channel.type) [
      | none ↦ send_all user_id channels
      | some sender ↦ do
        success ← sender.send channel event context
        event_id ← require assertion_error event.id
        channel_id ← require assertion_error channel.id
        notification_log_repo.create user_id event_id channel_id (status_of success)
            (dedup_key user_id event)
        send_all user_id channels
    ]

    -- What a user who is met for the first time gets.
    unfoldable pub notify_user : ℕ → Action W (Unit {0})
    notify_user user_id = do
      recent ← notification_log_repo.exists_recent (dedup_key user_id event) cooldown_seconds
      if recent
          then pure tt
          else do channels ← channel_repo.list_for_user user_id; send_all user_id channels

    -- The loop over the watches, with the users that were seen.
    unfoldable pub notify_watchers : List ℕ → List Watch → Action W (Unit {0})
    notify_watchers seen_users [] = pure tt
    notify_watchers seen_users (watch ∷ watches) =
        if any (λ u. u == watch.user_id) seen_users
        then notify_watchers seen_users watches
        else do notify_user watch.user_id; notify_watchers (watch.user_id ∷ seen_users) watches

  -- `process_event` from the rows that the event refers to.
  unfoldable pub process_found :
      DetectionEvent → Option WatchTarget → Option Snapshot → Action W (Unit {0})
  process_found event none snapshot = pure tt
  process_found event (some watch_target) none = pure tt
  process_found event (some watch_target) (some snapshot) = do
    watches ← watch_repo.list_by_watch_target event.watch_target_id
    notify_watchers event (context_of watch_target event snapshot) [] watches

  unfoldable pub process_event : ℕ → Action W (Unit {0})
  process_event event_id = do
    found ← event_repo.get_by_id event_id
    elim found [
      | none ↦ pure tt
      | some event ↦ do
        watch_target ← watch_target_repo.get_by_id event.watch_target_id
        snapshot ← snapshot_repo.get_by_id event.snapshot_id
        process_found event watch_target snapshot
    ]
