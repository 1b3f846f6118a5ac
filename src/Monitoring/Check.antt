-- ===== src/Monitoring/Check.antt =====
-- One check of a watch target through the SQL repositories, Redis and Celery.
pub mod Effects
pub mod Series
use stock_monitoring.Common.{ℕ, Option, List, [], ◌∷◌, map, filter, ◌≡◌}
use stock_monitoring.Domain.Entities.{ProviderProductResult, Snapshot, DetectionEvent}
use stock_monitoring.Domain.Enums.{EventType}
use stock_monitoring.Domain.Errors.{ok}
use stock_monitoring.Domain.Ports.{ProviderRegistry}
use stock_monitoring.Monitoring.Diffing.{diff_snapshots}
use stock_monitoring.Monitoring.Recording.{
  numbered, new_event, with_events, event_ids, record_events-eq,
}
use stock_monitoring.Monitoring.Service.{check_results, record_changes, previous_id}
use stock_monitoring.Monitoring.Wiring.{monitoring_service}
use stock_monitoring.Storage.Engine.{Engine}
use stock_monitoring.Storage.Rows.{WatchTargetModel}
use stock_monitoring.Storage.Snapshots
use stock_monitoring.Storage.Snapshots.Latest.{next_snapshot, with_snapshot, create-eq}
use stock_monitoring.Storage.WatchTargets.Schedule.{has_id, checked, mark_checked-eq}
use stock_monitoring.Storage.World.{World}

-- The events of a check, before they are stored.
abbrev pub new_events :
    Engine
    → ℕ
    → ProviderProductResult
    → Option Snapshot
    → List EventType
    → World
    → List DetectionEvent
new_events E id result previous types w =
    map (new_event id (next_snapshot E w) (previous_id previous) result.scraped_at)
      (numbered E (event_ids w) types)

-- The world after a check whose comparison fired these event types.
abbrev pub after_check :
    Engine → ℕ → ProviderProductResult → Option Snapshot → List EventType → World → World
after_check E id result previous [] w = checked id result.scraped_at w
after_check E id result previous (x ∷ xs) w = checked id result.scraped_at (
    with_events id (next_snapshot E w) (previous_id previous) result.scraped_at
      (numbered E (event_ids w) (x ∷ xs)) (with_snapshot E id result w))

module _ (E : Engine) (registry : ProviderRegistry World) (id : ℕ) (w : World)
    {m : WatchTargetModel} (found : filter (has_id id) w.watch_targets ≡ m ∷ []) where
  record_changes-eq :
      (result : ProviderProductResult) (previous : Option Snapshot) (types : List EventType)
      → record_changes (monitoring_service E registry) id result previous types w
        ≡ (ok (new_events E id result previous types w), after_check E id result previous types w)
  unfolding record_changes
  record_changes-eq result previous [] = rw (mark_checked-eq E id result.scraped_at w found)
  record_changes-eq result previous (x ∷ xs) = rw (create-eq E id result w) (
      rw
        (record_events-eq E registry id (next_snapshot E w) (previous_id previous) result.scraped_at
          (x ∷ xs) (with_snapshot E id result w))
        (rw (
          mark_checked-eq E id result.scraped_at
            (with_events id (next_snapshot E w) (previous_id previous) result.scraped_at
              (numbered E (event_ids w) (x ∷ xs)) (with_snapshot E id result w))
            found)))

  pub check_results-eq :
      (result : ProviderProductResult) (rest : List ProviderProductResult)
      (previous : Option Snapshot)
      → Snapshots.get_latest E id w ≡ (ok previous, w)
      → let types = diff_snapshots previous result in
        check_results (monitoring_service E registry) id (result ∷ rest) w
        ≡ (ok (new_events E id result previous types w), after_check E id result previous types w)
  unfolding check_results
  check_results-eq result rest previous latest =
      rw latest (record_changes-eq result previous (diff_snapshots previous result))
