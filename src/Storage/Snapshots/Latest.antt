-- ===== src/Storage/Snapshots/Latest.antt =====
-- A scrape that is stored is read back whole, and as the latest one if it is the newest.
use stock_monitoring.Domain.Action.{continue-lift}
use stock_monitoring.Domain.Errors.{and_then}
use stock_monitoring.Common.{
  take, Option, List, ℕ, ◌<◌, ◌==◌, ==_refl, Bool, some, [], ◌∷◌, ◌++◌, map, filter, filter-append,
  All, ◌≡◌,
}
use stock_monitoring.Domain.Entities.{Snapshot, ProviderProductResult, snapshot_of}
use stock_monitoring.Domain.Enums.Laws.{parse_availability-value}
use stock_monitoring.Domain.Errors.{Result, ok}
use stock_monitoring.Storage.Engine.{Engine}
use stock_monitoring.Storage.Engine.Orders.{take-order_by_desc_newest}
use stock_monitoring.Storage.Rows.{SnapshotModel}
use stock_monitoring.Storage.Snapshots.{to_snapshot_option, create, get_latest, snapshot_row}
use stock_monitoring.Storage.World.{World}

abbrev pub is_snapshot_of : ℕ → SnapshotModel → Bool
is_snapshot_of target m = m.watch_target_id == target

-- The key of the next snapshot.
abbrev pub next_snapshot : Engine → World → ℕ
next_snapshot E w = E.fresh (map (λ (m : SnapshotModel). m.id) w.snapshots)

abbrev pub with_snapshot : Engine → ℕ → ProviderProductResult → World → World
with_snapshot E target result w = record w {
  db = record w.db {
    snapshots = w.snapshots ++ snapshot_row (next_snapshot E w) target result ∷ [];
  };
}

-- What `get_latest` reads in the rows.
abbrev pub latest_of : Engine → ℕ → List SnapshotModel → Result (Option Snapshot)
latest_of E target rows =
    and_then
      (E.scalar_one_or_none SnapshotModel (
        take 1
          (E.order_by_desc SnapshotModel (λ m. m.timestamp) (filter (is_snapshot_of target) rows))))
      to_snapshot_option

pub get_latest-eq :
    (E : Engine) (target : ℕ) (w : World)
    → get_latest E target w ≡ (latest_of E target w.snapshots, w)
unfolding get_latest
get_latest-eq E target w =
    continue-lift
      (E.scalar_one_or_none SnapshotModel (
        take 1 (
          E.order_by_desc SnapshotModel (λ m. m.timestamp)
            (filter (is_snapshot_of target) w.snapshots))))
      to_snapshot_option w

module _ (E : Engine) (target : ℕ) (result : ProviderProductResult) (w : World) where
  pub create-eq :
      create E target result w
      ≡ (ok (snapshot_of (some (next_snapshot E w)) target result), with_snapshot E target result w)
  unfolding create
  create-eq = rw (parse_availability-value result.availability)

  pub latest_of-newest :
      All
        (λ (m : SnapshotModel). m.timestamp < result.scraped_at)
        (filter (is_snapshot_of target) w.snapshots)
      → latest_of E target (with_snapshot E target result w).snapshots
        ≡ ok (some (snapshot_of (some (next_snapshot E w)) target result))
  unfolding to_snapshot_option
  latest_of-newest older = rw (
    filter-append (is_snapshot_of target) w.snapshots,
    ==_refl target,
    take-order_by_desc_newest E SnapshotModel (λ m. m.timestamp)
        (snapshot_row (next_snapshot E w) target result)
        (filter (is_snapshot_of target) w.snapshots) [] older tt,
    E.scalar_one_or_none-eq SnapshotModel,
    parse_availability-value result.availability,
  )

  -- A scrape that is stored and newer than the other snapshots of its target is the latest one, and
  -- it is read back with every field.
  pub get_latest-create :
      All
        (λ (m : SnapshotModel). m.timestamp < result.scraped_at)
        (filter (is_snapshot_of target) w.snapshots)
      → (get_latest E target (create E target result w).1).0
        ≡ ok (some (snapshot_of (some (next_snapshot E w)) target result))
  get_latest-create older = rw (create-eq, get_latest-eq) (latest_of-newest older)
