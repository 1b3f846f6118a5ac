-- ===== src/Notification/Wiring.antt =====
-- The service as the Celery task of backend/app/tasks/notifications.py builds it, and the task. The
-- senders make HTTP and SMTP calls, and stay a parameter.
use stock_monitoring.Common.{ℕ, Option}
use stock_monitoring.Domain.Action.{Action}
use stock_monitoring.Domain.Enums.{NotificationChannelType}
use stock_monitoring.Domain.Ports.{NotificationSender}
use stock_monitoring.Notification.Service.{NotificationService, process_event}
use stock_monitoring.Storage.Channels.{notification_channel_repository}
use stock_monitoring.Storage.DetectionEvents.{detection_event_repository}
use stock_monitoring.Storage.Engine.{Engine}
use stock_monitoring.Storage.NotificationLogs.{notification_log_repository}
use stock_monitoring.Storage.Session.{in_session}
use stock_monitoring.Storage.Snapshots.{snapshot_repository}
use stock_monitoring.Storage.WatchTargets.{watch_target_repository}
use stock_monitoring.Storage.Watches.{watch_repository}
use stock_monitoring.Storage.World.{World}

abbrev pub Senders : Type 0
Senders = NotificationChannelType → Option (NotificationSender World)

-- The cooldown is the constructor's default.
abbrev pub notification_service : Engine → Senders → NotificationService World
notification_service E senders = record {
  watch_target_repo = watch_target_repository E;
  snapshot_repo = snapshot_repository E;
  event_repo = detection_event_repository E;
  watch_repo = watch_repository E;
  channel_repo = notification_channel_repository E;
  notification_log_repo = notification_log_repository E;
  senders = senders;
  cooldown_seconds = 900;
}

-- `_process_detection_event_async`
unfoldable pub process_detection_event : Engine → Senders → ℕ → Action World (Unit {0})
process_detection_event E senders event_id =
    in_session (process_event (notification_service E senders) event_id)
