-- ===== src/Tests/Monitoring.antt =====
-- The theorems on monitoring, on concrete worlds.
use stock_monitoring.Common.{
  false, ℕ, Option, none, some, List, [], ◌∷◌, map, ◌≡◌, refl, arith, filter,
}
use stock_monitoring.Domain.Entities.{DetectionEvent, ProviderProductResult}
use stock_monitoring.Domain.Enums.{
  parse_availability, availability_value, parse_event_type, event_type_value, Availability,
  EventType,
}
use stock_monitoring.Domain.Errors.{ok}
use stock_monitoring.Monitoring.Check.Effects.{Recorded, check_watch_target-Recorded}
use stock_monitoring.Monitoring.Check.Series.{
  run_checks, IsReady, run_checks-track, run_checks-observe_all,
}
use stock_monitoring.Monitoring.Diffing.{diff_snapshots}
use stock_monitoring.Monitoring.Diffing.Laws.{fires, all_event_types, diff_snapshots-eq-filter}
use stock_monitoring.Monitoring.Diffing.Histories.{
  last_status, track, observe_all, low_again-silent,
}
use stock_monitoring.Monitoring.Service.{
  check_watch_target, check_results, record_changes, record_events,
}
use stock_monitoring.Monitoring.Wiring.{monitoring_service}
use stock_monitoring.Storage.Snapshots
use stock_monitoring.Storage.Snapshots.{to_snapshot_option}
use stock_monitoring.Storage.DetectionEvents
use stock_monitoring.Messaging.{publish, dispatch_detection_event}
use stock_monitoring.Storage.WatchTargets.{mark_checked}
use stock_monitoring.Tests.Samples.{world, target, target_row, milk, low_milk, only, finds}
use stock_monitoring.Tests.Sqlite.{sqlite, sort_desc, insert_desc}

abbrev scrapes : List ProviderProductResult
scrapes =
    milk Availability.available 2_000_000
    ∷ milk Availability.out_of_stock 3_000_000
    ∷ milk Availability.low_stock 4_000_000
    ∷ []

ready : IsReady sqlite 1 none 1_000_000 world
unfolding sort_desc to_snapshot_option
ready = record { target = target_row; found = refl; latest = refl; older = tt }

-- The events that a reader of the stream of these scrapes meets.
fired :
    (run_checks sqlite (only (finds [])) 1 scrapes world).0
    ≡ ok (EventType.stock_available ∷ EventType.out_of_stock ∷ EventType.stock_available ∷ [])
unfolding run_checks check_results record_changes record_events diff_snapshots sort_desc
    to_snapshot_option Snapshots.get_latest Snapshots.create DetectionEvents.create publish
    dispatch_detection_event mark_checked parse_availability availability_value parse_event_type
    event_type_value insert_desc
fired = refl

no_snapshot : Snapshots.get_latest sqlite 1 world ≡ (ok none, world)
unfolding Snapshots.get_latest sort_desc to_snapshot_option
no_snapshot = refl

diff_snapshots-eq-filter_example :
    diff_snapshots (some low_milk) (milk Availability.out_of_stock 5)
    ≡ filter (fires (some low_milk) (milk Availability.out_of_stock 5)) all_event_types
diff_snapshots-eq-filter_example =
    diff_snapshots-eq-filter (some low_milk) (milk Availability.out_of_stock 5)

same_low : diff_snapshots (some low_milk) (milk Availability.low_stock 5) ≡ []
unfolding diff_snapshots
same_low = refl

low_again-silent_example :
    observe_all 1
      (some low_milk)
      ((some 2, milk Availability.available 5) ∷ (some 3, milk Availability.low_stock 5) ∷ [])
    ≡ []
low_again-silent_example =
    low_again-silent 1 low_milk (some 2) (some 3) (milk Availability.out_of_stock 5) refl same_low

check_watch_target-Recorded_example :
    (events : List DetectionEvent) × ((check_watch_target
        (monitoring_service sqlite (only (finds scrapes)))
        target
        world).0
      ≡ ok events)
    × Recorded 1
        (diff_snapshots none (milk Availability.available 2_000_000))
        (milk Availability.available 2_000_000)
        world
        events
        (check_watch_target (monitoring_service sqlite (only (finds scrapes))) target world).1
check_watch_target-Recorded_example =
    check_watch_target-Recorded sqlite (only (finds scrapes)) target {w = world} {m = target_row}
      {result = milk Availability.available 2_000_000} {previous = none} refl refl refl refl
      no_snapshot refl

run_checks-observe_all_example :
    (keyed : List (Option ℕ × ProviderProductResult)) × (map
        (λ (p : Option ℕ × ProviderProductResult). p.1)
        keyed
      ≡ scrapes)
    × ((run_checks sqlite (only (finds [])) 1 scrapes world).0 ≡ ok (observe_all 1 none keyed))
run_checks-observe_all_example =
    run_checks-observe_all sqlite (only (finds [])) 1 scrapes world ready
      (omega arith, (omega arith, (omega arith, tt)))

run_checks-track_example :
    (types : List EventType) × ((run_checks sqlite (only (finds [])) 1 scrapes world).0 ≡ ok types)
    × (track false types ≡ some (last_status false scrapes))
run_checks-track_example =
    run_checks-track sqlite (only (finds [])) 1 scrapes world ready
      (omega arith, (omega arith, (omega arith, tt)))
