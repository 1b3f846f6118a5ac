-- ===== src/Tests/Scheduling.antt =====
-- The theorem on the scheduler, on a pass in which every check fails.
use stock_monitoring.Common.{ℕ, List, [], ◌∷◌, Permᴰ, ◌≡◌, refl}
use stock_monitoring.Domain.Entities.{WatchTarget}
use stock_monitoring.Domain.Errors.{ok}
use stock_monitoring.Monitoring.Wiring.{monitoring_service}
use stock_monitoring.Scheduling.{tick}
use stock_monitoring.Scheduling.Outage.{IsDown, tick-IsOut}
use stock_monitoring.Scheduling.Passes.{check_each, tick-check_each}
use stock_monitoring.Storage.WatchTargets.{watch_target_repository, list_due}
use stock_monitoring.Storage.World.{utcnow}
use stock_monitoring.Tests.Samples.{world, target, only, broken}
use stock_monitoring.Tests.Sqlite.{sqlite}

tick-check_each_example :
    (order : List WatchTarget) × Permᴰ order (target ∷ [])
    × (tick (monitoring_service sqlite (only broken)) (watch_target_repository sqlite) utcnow world
        ≡ (
          ok (check_each (monitoring_service sqlite (only broken)) order world).0,
          (check_each (monitoring_service sqlite (only broken)) order world).1,
        ))
unfolding list_due
tick-check_each_example =
    tick-check_each (monitoring_service sqlite (only broken)) (watch_target_repository sqlite)
      utcnow {now = 1_000_000} {due = target ∷ []} refl refl

broken-IsDown : IsDown broken
broken-IsDown = record {
  initialize-db = λ place w. refl;
  search_product-IsError = λ k w. tt;
  search_product-db = λ k w. refl;
}

tick-IsOut_example :
    let passed =
      tick
        (monitoring_service sqlite (only broken))
        (watch_target_repository sqlite)
        utcnow
        world in
    (passed.0 ≡ ok [])
    × (passed.1.db ≡ world.db)
    × ((now : ℕ) → (list_due now passed.1).0 ≡ (list_due now world).0)
tick-IsOut_example =
    tick-IsOut sqlite (only broken)
      (record { get-db = λ slug w. refl; get-IsDown = λ slug w. broken-IsDown }) world
