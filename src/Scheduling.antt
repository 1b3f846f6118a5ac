-- ===== src/Scheduling.antt =====
-- `Scheduler` of backend/app/monitor/scheduler.py, over its ports. The checks of a pass run one after
-- the other, group by group: what the semaphore lets overlap, at most its bound, does not here.
pub mod Passes
pub mod Outage
use stock_monitoring.Common.{ℕ, zero, suc, String, str_eq, List, [], ◌∷◌, ◌++◌, if◌then◌else◌}
use stock_monitoring.Common.Json.{Dict}
use stock_monitoring.Domain.Action.{Action, pure, ◌>>=◌, ◌>>◌}
use stock_monitoring.Domain.Entities.{Datetime, DetectionEvent, WatchTarget}
use stock_monitoring.Domain.Errors.{Result, ok, err}
use stock_monitoring.Domain.Ports.{WatchTargetRepository}
use stock_monitoring.Monitoring.Service.{MonitoringService, check_watch_target}

-- `by_retailer[slug].append(target)` on a `defaultdict(list)`
unfoldable pub append_at : String → WatchTarget → Dict (List WatchTarget) → Dict (List WatchTarget)
append_at slug target [] = (slug, target ∷ []) ∷ []
append_at slug target ((key, group) ∷ groups) =
    if str_eq key slug
    then (key, group ++ target ∷ []) ∷ groups
    else (key, group) ∷ append_at slug target groups

-- The loop that groups the due targets, from the groups so far.
unfoldable pub group_by_retailer :
    Dict (List WatchTarget) → List WatchTarget → Dict (List WatchTarget)
unfolding append_at
group_by_retailer by_retailer [] = by_retailer
group_by_retailer by_retailer (target ∷ targets) =
    group_by_retailer (append_at target.retailer_slug target by_retailer) targets

-- `except Exception`: nothing fired. What the check had written stays.
abbrev pub no_events : Result (List DetectionEvent) → List DetectionEvent
no_events (ok events) = events
no_events (err e) = []

module _ {W : Type 0} (service : MonitoringService W) where
  -- `_check`
  unfoldable pub check : WatchTarget → Action W (List DetectionEvent)
  check target w = let (r, w') = check_watch_target service target w in (ok (no_events r), w')

  -- `_run_retailer_group`
  unfoldable pub run_retailer_group : List WatchTarget → Action W (List DetectionEvent)
  run_retailer_group [] = pure []
  run_retailer_group (target ∷ targets) = do
    target_events ← check target
    events ← run_retailer_group targets
    pure (target_events ++ events)

  -- The groups of a pass, one after the other.
  unfoldable pub run_groups : Dict (List WatchTarget) → Action W (List DetectionEvent)
  run_groups [] = pure []
  run_groups ((slug, group) ∷ groups) = do
    group_events ← run_retailer_group group
    events ← run_groups groups
    pure (group_events ++ events)

  unfoldable pub tick : WatchTargetRepository W → Action W Datetime → Action W (List DetectionEvent)
  tick watch_target_repo now_fn = do
    now ← now_fn
    due_targets ← watch_target_repo.list_due now
    run_groups (group_by_retailer [] due_targets)

  -- `run_forever`, for a number of turns of its loop, which has no end of its own.
  unfoldable pub run_forever :
      WatchTargetRepository W → Action W Datetime → Action W (Unit {0}) → ℕ → Action W (Unit {0})
  unfolding tick
  run_forever watch_target_repo now_fn sleep zero = pure tt
  run_forever watch_target_repo now_fn sleep (suc turns) = do
    tick watch_target_repo now_fn
    sleep
    run_forever watch_target_repo now_fn sleep turns
