-- ===== src/Monitoring/Service.antt =====
-- `MonitoringService` of backend/app/application/monitoring_service.py, over the ports it is given.
use stock_monitoring.Common.{ℕ, Option, none, some, List, [], ◌∷◌}
use stock_monitoring.Domain.Action.{Action, pure, require, ◌>>=◌, ◌>>◌}
use stock_monitoring.Domain.Entities.{
  Datetime, ProviderProductResult, WatchTarget, Snapshot, DetectionEvent,
}
use stock_monitoring.Domain.Enums.{EventType}
use stock_monitoring.Domain.Errors.{value_error}
use stock_monitoring.Domain.Ports.{
  ProviderRegistry, WatchTargetRepository, SnapshotRepository, DetectionEventRepository,
  EventPublisher, TaskDispatcher,
}
use stock_monitoring.Monitoring.Diffing.{diff_snapshots}

-- The collaborators of the service, and `datetime.now`.
pub record MonitoringService (W : Type 0) : Type 0 where
  pub provider_registry : ProviderRegistry W
  pub watch_target_repo : WatchTargetRepository W
  pub snapshot_repo : SnapshotRepository W
  pub event_repo : DetectionEventRepository W
  pub event_publisher : EventPublisher W
  pub task_dispatcher : TaskDispatcher W
  pub utcnow : Action W Datetime

-- `previous.id if previous else None`
abbrev pub previous_id : Option Snapshot → Option ℕ
previous_id none = none
previous_id (some previous) = previous.id

module _ {W : Type 0} (service : MonitoringService W) where
  open service use {
    provider_registry, watch_target_repo, snapshot_repo, event_repo, event_publisher,
    task_dispatcher, utcnow,
  }

  -- The loop over the event types: store, publish and dispatch each event.
  unfoldable pub record_events :
      ℕ → ℕ → Option ℕ → Datetime → List EventType → Action W (List DetectionEvent)
  record_events watch_target_id snapshot_id previous when [] = pure []
  record_events watch_target_id snapshot_id previous when (event_type ∷ event_types) = do
    event ← event_repo.create watch_target_id snapshot_id previous event_type when
    event_id ← require value_error event.id
    event_publisher.publish watch_target_id event
    task_dispatcher.dispatch_detection_event event_id
    rest ← record_events watch_target_id snapshot_id previous when event_types
    pure (event ∷ rest)

  -- What is done with the event types of a comparison.
  unfoldable pub record_changes :
      ℕ → ProviderProductResult → Option Snapshot → List EventType → Action W (List DetectionEvent)
  record_changes watch_target_id result previous [] = do
    watch_target_repo.mark_checked watch_target_id result.scraped_at
    pure []
  record_changes watch_target_id result previous (event_type ∷ event_types) = do
    snapshot ← snapshot_repo.create watch_target_id result
    snapshot_id ← require value_error snapshot.id
    events ←
        record_events watch_target_id snapshot_id (previous_id previous) result.scraped_at
          (event_type ∷ event_types)
    watch_target_repo.mark_checked watch_target_id result.scraped_at
    pure events

  -- What is done with the results of the search: only the first counts.
  unfoldable pub check_results : ℕ → List ProviderProductResult → Action W (List DetectionEvent)
  check_results watch_target_id [] = do
    now ← utcnow
    watch_target_repo.mark_checked watch_target_id now
    pure []
  check_results watch_target_id (result ∷ results) = do
    previous ← snapshot_repo.get_latest watch_target_id
    record_changes watch_target_id result previous (diff_snapshots previous result)

  unfoldable pub check_watch_target : WatchTarget → Action W (List DetectionEvent)
  check_watch_target watch_target = do
    watch_target_id ← require value_error watch_target.id
    provider ← provider_registry.get watch_target.retailer_slug
    provider.initialize (record { city = watch_target.city; pincode = watch_target.pincode })
    results ← provider.search_product watch_target.keyword
    check_results watch_target_id results
