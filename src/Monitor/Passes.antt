-- ===== src/Monitor/Passes.antt =====
-- A run of the scheduler dispatches tasks for new events only, whatever its checks return or raise.
use stock_monitoring.Common.{
  update_if, ℕ, zero, suc, String, ◌==◌, Option, some, List, [], ◌∷◌, filter, take, ◌≡◌, refl,
}
use stock_monitoring.Common.Json.{Dict}
use stock_monitoring.Domain.Action.{Action, lift, require}
use stock_monitoring.Domain.Entities.{
  Datetime, LocationContext, ProviderProductResult, Snapshot, WatchTarget,
}
use stock_monitoring.Domain.Enums.{EventType}
use stock_monitoring.Domain.Errors.{ok, value_error}
use stock_monitoring.Domain.Keeps.{
  Keeps, Keeps-gets, Keeps-lift, Keeps-query, Keeps-bind, Keeps-modify, Preserves, Preserves-pure,
  Preserves-require, Preserves-bind,
}
use stock_monitoring.Domain.Ports.{BaseRetailProvider, ProviderRegistry}
use stock_monitoring.Monitor.Ledger.{Added, ledger, Keeps-Added, record_events-Preserves}
use stock_monitoring.Monitoring.Diffing.{diff_snapshots}
use stock_monitoring.Monitoring.Service.{
  check_watch_target, check_results, record_changes, record_events, previous_id,
}
use stock_monitoring.Monitoring.Wiring.{monitoring_service}
use stock_monitoring.Scheduling.{
  check, run_retailer_group, run_groups, group_by_retailer, tick, run_forever,
}
use stock_monitoring.Storage.Engine.{Engine}
use stock_monitoring.Storage.Rows.{SnapshotModel, WatchTargetModel}
use stock_monitoring.Storage.Snapshots
use stock_monitoring.Storage.WatchTargets
use stock_monitoring.Storage.WatchTargets.{watch_target_repository}
use stock_monitoring.Storage.World.{World, utcnow}

-- A provider drives a browser: it stores no event and dispatches no task.
pub record IsQuietProvider (provider : BaseRetailProvider World) : Type 0 where
  pub initialize-quiet : (context : LocationContext) → Keeps ledger (provider.initialize context)
  pub search-quiet : (keyword : String) → Keeps ledger (provider.search_product keyword)
  pub close-quiet : Keeps ledger provider.close

pub record IsQuiet (registry : ProviderRegistry World) : Type 0 where
  pub get-quiet : (slug : String) → Keeps ledger (registry.get slug)
  pub slugs-quiet : Keeps ledger registry.list_active_slugs
  pub provider-quiet :
      (slug : String) (provider : BaseRetailProvider World) (w : World)
      → (registry.get slug w).0 ≡ ok provider
      → IsQuietProvider provider

module _ (E : Engine) where
  mark_checked-Keeps :
      (id : ℕ) (when : Datetime) → Keeps ledger (WatchTargets.mark_checked E id when)
  unfolding WatchTargets.mark_checked
  mark_checked-Keeps id when =
      Keeps-query (λ w. filter (λ (m : WatchTargetModel). m.id == id) w.watch_targets) _
        (λ rows.
          Keeps-modify (E.scalar_one WatchTargetModel rows)
            (λ model w. record w {
              db = record w.db {
                watch_targets =
                    update_if (λ (m : WatchTargetModel). m.id == model.id)
                      (λ m. record m { last_checked_at = some when }) w.watch_targets;
              };
            })
            (λ model w. refl))

  latest-Keeps : (id : ℕ) → Keeps ledger (Snapshots.get_latest E id)
  unfolding Snapshots.get_latest
  latest-Keeps id =
      Keeps-query (λ w. filter (λ (m : SnapshotModel). m.watch_target_id == id) w.snapshots) _
        (λ rows.
          Keeps-bind
            (lift (
              E.scalar_one_or_none SnapshotModel
                (take 1 (E.order_by_desc SnapshotModel (λ m. m.timestamp) rows))))
            _ (Keeps-lift _) (λ model. Keeps-lift (Snapshots.to_snapshot_option model)))

  snapshot-Keeps :
      (id : ℕ) (result : ProviderProductResult) → Keeps ledger (Snapshots.create E id result)
  unfolding Snapshots.create
  snapshot-Keeps id result = record { at = λ w. refl }

module _ (before : World) (E : Engine) (registry : ProviderRegistry World)
    (quiet : IsQuiet registry) where
  record_changes-Preserves :
      (id : ℕ) (result : ProviderProductResult) (previous : Option Snapshot)
      (types : List EventType)
      → Preserves
          (Added before)
          (record_changes (monitoring_service E registry) id result previous types)
  unfolding record_changes
  record_changes-Preserves id result previous [] =
      Preserves-bind (WatchTargets.mark_checked E id result.scraped_at) _
        (Keeps-Added before (mark_checked-Keeps E id result.scraped_at))
        (λ _ _ _. Preserves-pure [])
  record_changes-Preserves id result previous (x ∷ xs) =
      Preserves-bind (Snapshots.create E id result) _
        (Keeps-Added before (snapshot-Keeps E id result))
        (λ snapshot _ _.
          Preserves-bind (require value_error snapshot.id) _ (Preserves-require _ _)
            (λ snapshot_id _ _.
              Preserves-bind
                (record_events (monitoring_service E registry) id snapshot_id (previous_id previous)
                  result.scraped_at (x ∷ xs))
                _
                (record_events-Preserves before E registry id snapshot_id (previous_id previous)
                  result.scraped_at (x ∷ xs))
                (λ events _ _.
                  Preserves-bind (WatchTargets.mark_checked E id result.scraped_at) _
                    (Keeps-Added before (mark_checked-Keeps E id result.scraped_at))
                    (λ _ _ _. Preserves-pure events))))

  check_results-Preserves :
      (id : ℕ) (results : List ProviderProductResult)
      → Preserves (Added before) (check_results (monitoring_service E registry) id results)
  unfolding check_results
  check_results-Preserves id [] =
      Preserves-bind utcnow _ (Keeps-Added before (Keeps-gets _)) (λ now _ _.
        Preserves-bind (WatchTargets.mark_checked E id now) _
          (Keeps-Added before (mark_checked-Keeps E id now)) (λ _ _ _. Preserves-pure []))
  check_results-Preserves id (result ∷ results) =
      Preserves-bind (Snapshots.get_latest E id) _ (Keeps-Added before (latest-Keeps E id))
        (λ previous _ _.
          record_changes-Preserves id result previous (diff_snapshots previous result))

  check_watch_target-Preserves :
      (target : WatchTarget)
      → Preserves (Added before) (check_watch_target (monitoring_service E registry) target)
  unfolding check_watch_target
  check_watch_target-Preserves target =
      Preserves-bind (require value_error target.id) _ (Preserves-require _ _) (λ id _ _.
        Preserves-bind (registry.get target.retailer_slug) _
          (Keeps-Added before (quiet.get-quiet target.retailer_slug))
          (λ provider w got.
            let still = quiet.provider-quiet target.retailer_slug provider w got in
            Preserves-bind
              (provider.initialize (record { city = target.city; pincode = target.pincode })) _
              (Keeps-Added before
                (still.initialize-quiet (record { city = target.city; pincode = target.pincode })))
              (λ _ _ _.
                Preserves-bind (provider.search_product target.keyword) _
                  (Keeps-Added before (still.search-quiet target.keyword))
                  (λ results _ _. check_results-Preserves id results))))

  check-Preserves :
      (target : WatchTarget)
      → Preserves (Added before) (check (monitoring_service E registry) target)
  unfolding check
  check-Preserves target = record { at = (check_watch_target-Preserves target).at }

  group-Preserves :
      (targets : List WatchTarget)
      → Preserves (Added before) (run_retailer_group (monitoring_service E registry) targets)
  unfolding run_retailer_group
  group-Preserves [] = Preserves-pure []
  group-Preserves (target ∷ targets) =
      Preserves-bind (check (monitoring_service E registry) target) _ (check-Preserves target)
        (λ events _ _.
          Preserves-bind (run_retailer_group (monitoring_service E registry) targets) _
            (group-Preserves targets) (λ rest _ _. Preserves-pure _))

  groups-Preserves :
      (groups : Dict (List WatchTarget))
      → Preserves (Added before) (run_groups (monitoring_service E registry) groups)
  unfolding run_groups
  groups-Preserves [] = Preserves-pure []
  groups-Preserves ((slug, group) ∷ groups) =
      Preserves-bind (run_retailer_group (monitoring_service E registry) group) _
        (group-Preserves group)
        (λ events _ _.
          Preserves-bind (run_groups (monitoring_service E registry) groups) _
            (groups-Preserves groups) (λ rest _ _. Preserves-pure _))

  tick-Preserves :
      Preserves
        (Added before)
        (tick (monitoring_service E registry) (watch_target_repository E) utcnow)
  unfolding tick WatchTargets.list_due
  tick-Preserves = Preserves-bind utcnow _ (Keeps-Added before (Keeps-gets _)) (λ now _ _.
      Preserves-bind (WatchTargets.list_due now) _ (Keeps-Added before (Keeps-gets _))
        (λ due _ _. groups-Preserves (group_by_retailer [] due)))

  pub run_forever-Preserves :
      (sleep : Action World (Unit {0})) (turns : ℕ)
      → Keeps ledger sleep
      → Preserves (Added before) (
          run_forever
            (monitoring_service E registry)
            (watch_target_repository E)
            utcnow
            sleep
            turns)
  unfolding run_forever
  run_forever-Preserves sleep zero still = Preserves-pure tt
  run_forever-Preserves sleep (suc turns) still =
      Preserves-bind (tick (monitoring_service E registry) (watch_target_repository E) utcnow) _
        tick-Preserves
        (λ _ _ _.
          Preserves-bind sleep _ (Keeps-Added before still)
            (λ _ _ _. run_forever-Preserves sleep turns still))
