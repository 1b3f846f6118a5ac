-- ===== src/Monitoring/Wiring.antt =====
-- `MonitoringService` as backend/app/monitor/main.py builds it: the SQL repositories over one
-- session, Redis and Celery, with the provider registry left open.
use stock_monitoring.Messaging.{redis_event_publisher, celery_task_dispatcher}
use stock_monitoring.Domain.Ports.{ProviderRegistry}
use stock_monitoring.Monitoring.Service.{MonitoringService}
use stock_monitoring.Storage.DetectionEvents.{detection_event_repository}
use stock_monitoring.Storage.Engine.{Engine}
use stock_monitoring.Storage.Snapshots.{snapshot_repository}
use stock_monitoring.Storage.WatchTargets.{watch_target_repository}
use stock_monitoring.Storage.World.{World, utcnow}

abbrev pub monitoring_service : Engine → ProviderRegistry World → MonitoringService World
monitoring_service E registry = record {
  provider_registry = registry;
  watch_target_repo = watch_target_repository E;
  snapshot_repo = snapshot_repository E;
  event_repo = detection_event_repository E;
  event_publisher = redis_event_publisher;
  task_dispatcher = celery_task_dispatcher;
  utcnow = utcnow;
}
