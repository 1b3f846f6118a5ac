-- ===== src/Tests/Storage.antt =====
-- The theorems on the repositories, on concrete worlds.
use stock_monitoring.Common.{true, String, All, some, [], ◌∷◌, ◌≡◌, refl, arith, filter}
use stock_monitoring.Common.Int.{◌≤ℤ◌}
use stock_monitoring.Storage.Rows.{WatchTargetModel}
use stock_monitoring.Common.Int.{ℤ}
use stock_monitoring.Domain.Entities.{snapshot_of}
use stock_monitoring.Domain.Enums.{Availability}
use stock_monitoring.Domain.Errors.{ok}
use stock_monitoring.Storage.Retailers.{ensure_retailers_seeded, supported_retailers, knows}
use stock_monitoring.Storage.Retailers.Seeding.{IsKnown, slugs, ensure_retailers_seeded-twice}
use stock_monitoring.Storage.Snapshots
use stock_monitoring.Storage.Snapshots.Latest.{get_latest-create}
use stock_monitoring.Storage.WatchTargets.{get_or_create, mark_checked, list_due, to_watch_target}
use stock_monitoring.Storage.WatchTargets.Schedule.{entries, list_due-mark_checked}
use stock_monitoring.Storage.WatchTargets.Sharing.{IsShared, has_columns, get_or_create-IsShared}
use stock_monitoring.Tests.Samples.{world, target_row, target, milk}
use stock_monitoring.Tests.Sqlite.{sqlite}

shared : IsShared world.watch_targets
shared r c p k = ground arith

get_or_create-IsShared_example :
    let asked = get_or_create sqlite "zepto" "Pune" "411001" "milk" (ℤ.pos 30) world in
    IsShared asked.1.watch_targets
    × ((m : WatchTargetModel) × (asked.0 ≡ ok (to_watch_target m))
        × (filter (has_columns "zepto" "Pune" "411001" "milk") asked.1.watch_targets ≡ m ∷ [])
        × (m.interval_seconds ≤ℤ ℤ.pos 30))
get_or_create-IsShared_example =
    get_or_create-IsShared sqlite "zepto" "Pune" "411001" "milk" (ℤ.pos 30) world shared

list_due-mark_checked_example :
    (entries 1 (list_due 61_000_000 (mark_checked sqlite 1 1_000_000 world).1).0 ≡ target ∷ [])
    × (entries 2 (list_due 61_000_000 (mark_checked sqlite 1 1_000_000 world).1).0
        ≡ entries 2 (list_due 61_000_000 world).0)
list_due-mark_checked_example =
    list_due-mark_checked sqlite 1 2 1_000_000 61_000_000 world {m = target_row} refl refl

get_latest-create_example :
    (Snapshots.get_latest sqlite 1
      (Snapshots.create sqlite 1 (milk Availability.low_stock 5) world).1).0
    ≡ ok (some (snapshot_of (some 1) 1 (milk Availability.low_stock 5)))
get_latest-create_example = get_latest-create sqlite 1 (milk Availability.low_stock 5) world tt

ensure_retailers_seeded-twice_example :
    let seeded = (ensure_retailers_seeded sqlite world).1 in
    All (IsKnown seeded.retailers) supported_retailers
    × ((slug : String) → knows [] slug ≡ true → knows (slugs seeded.retailers) slug ≡ true)
    × (ensure_retailers_seeded sqlite seeded ≡ (ok tt, seeded))
ensure_retailers_seeded-twice_example = ensure_retailers_seeded-twice sqlite world
