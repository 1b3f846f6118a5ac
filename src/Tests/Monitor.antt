-- ===== src/Tests/Monitor.antt =====
-- The theorem on the monitor's process, on a run that finds a product on sale.
use stock_monitoring.Common.{List, [], ◌∷◌, ◌++◌, All, ◌≡◌, refl, subst}
use stock_monitoring.Domain.Action.{pure}
use stock_monitoring.Domain.Entities.{ProviderProductResult}
use stock_monitoring.Domain.Enums.{
  Availability, parse_availability, availability_value, parse_event_type, event_type_value,
}
use stock_monitoring.Domain.Errors.{Result, ok, err}
use stock_monitoring.Domain.Ports.{BaseRetailProvider}
use stock_monitoring.Messaging.{event_task, publish, dispatch_detection_event}
use stock_monitoring.Monitor.{Runtime, main, without_commit, run_task, shut_down, close_providers}
use stock_monitoring.Monitor.Passes.{IsQuiet, IsQuietProvider}
use stock_monitoring.Monitor.Uncommitted.{IsIdle, main-IsIdle}
use stock_monitoring.Storage.World.{World, Task}
use stock_monitoring.Monitoring.Diffing.{diff_snapshots}
use stock_monitoring.Monitoring.Service.{
  check_watch_target, check_results, record_changes, record_events,
}
use stock_monitoring.Scheduling.{
  append_at, group_by_retailer, check, run_retailer_group, run_groups, tick, run_forever,
}
use stock_monitoring.Storage.DetectionEvents
use stock_monitoring.Storage.Snapshots
use stock_monitoring.Storage.WatchTargets.{list_due, mark_checked}
use stock_monitoring.Tests.Samples.{world, milk, finds, only, senders}
use stock_monitoring.Tests.Sqlite.{sqlite, sort_desc}

abbrev on_sale : List ProviderProductResult
on_sale = milk Availability.available 2_000_000 ∷ []

abbrev runtime : Runtime
runtime = record { aclose = pure tt; dispose = pure tt; sleep = pure tt }

finds-IsQuietProvider : IsQuietProvider (finds on_sale)
finds-IsQuietProvider = record {
  initialize-quiet = λ context. record { at = λ w. refl };
  search-quiet = λ keyword. record { at = λ w. refl };
  close-quiet = record { at = λ w. refl };
}

abbrev ReturnsQuiet : Result (BaseRetailProvider World) → Type 0
ReturnsQuiet (ok provider) = IsQuietProvider provider
ReturnsQuiet (err e) = Unit

only-IsQuiet : IsQuiet (only (finds on_sale))
only-IsQuiet = record {
  get-quiet = λ slug. record { at = λ w. refl };
  slugs-quiet = record { at = λ w. refl };
  provider-quiet = λ slug provider w got. subst ReturnsQuiet got finds-IsQuietProvider;
}

main-IsIdle_example :
    ((main sqlite (only (finds on_sale)) runtime 2 world).1.db ≡ world.db)
    × (tasks : List Task) × ((main sqlite (only (finds on_sale)) runtime 2 world).1.dispatched
        ≡ world.dispatched ++ tasks)
    × All (IsIdle sqlite senders world) tasks
main-IsIdle_example =
    main-IsIdle world sqlite (only (finds on_sale)) runtime senders 2 only-IsQuiet
      (record { at = λ w. refl }) (record { at = λ w. refl }) (record { at = λ w. refl })

-- The run dispatches a task for the event that it stored.
one_task : (main sqlite (only (finds on_sale)) runtime 2 world).1.dispatched ≡ event_task 1 ∷ []
unfolding main run_forever tick list_due group_by_retailer append_at run_groups run_retailer_group
    check check_watch_target check_results diff_snapshots record_changes record_events
    Snapshots.get_latest Snapshots.create DetectionEvents.create publish dispatch_detection_event
    mark_checked without_commit run_task shut_down close_providers sort_desc parse_availability
    availability_value parse_event_type event_type_value
one_task = refl
