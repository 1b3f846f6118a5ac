-- ===== src/Storage/Snapshots.antt =====
-- `SqlAlchemySnapshotRepository` of backend/app/infrastructure/db/repositories.py.
pub mod Latest
use stock_monitoring.Common.{
  ℕ, ◌&&◌, ◌==◌, leb, Option, none, some, List, [], ◌∷◌, ◌++◌, map, filter, take,
}
use stock_monitoring.Domain.Action.{Action, gets, lift, ◌>>=◌}
use stock_monitoring.Domain.Errors.{or_raise, map_result, traverse, value_error, Result, ok}
use stock_monitoring.Domain.Entities.{Datetime, ProviderProductResult, Snapshot}
use stock_monitoring.Domain.Enums.{availability_value, parse_availability}
use stock_monitoring.Domain.Ports.{SnapshotRepository}
use stock_monitoring.Storage.Rows.{SnapshotModel}
use stock_monitoring.Storage.World.{World}
use stock_monitoring.Storage.Engine.{Engine}

-- The entity of a row; `Availability(...)` raises on a text that is no member's value.
unfoldable pub to_snapshot : SnapshotModel → Result Snapshot
to_snapshot model =
    map_result
      (λ availability. record {
        id = some model.id;
        watch_target_id = model.watch_target_id;
        timestamp = model.timestamp;
        availability = availability;
        price = model.price;
        mrp = model.mrp;
        discount_pct = model.discount_pct;
        eta_minutes = model.eta_minutes;
        store_name = model.store_name;
        image_url = model.image_url;
        quantity_label = model.quantity_label;
        variants = model.variants;
        product_url = model.product_url;
      })
      (or_raise value_error (parse_availability model.availability))

unfoldable pub to_snapshot_option : Option SnapshotModel → Result (Option Snapshot)
unfolding to_snapshot
to_snapshot_option none = ok none
to_snapshot_option (some model) = map_result some (to_snapshot model)

-- The list comprehension of `list_since`.
to_snapshots : List SnapshotModel → Result (List Snapshot)
unfolding to_snapshot
to_snapshots = traverse to_snapshot

unfoldable pub get_latest : Engine → ℕ → Action World (Option Snapshot)
unfolding to_snapshot_option
get_latest E watch_target_id = do
  rows ←
      gets (λ w. filter (λ (m : SnapshotModel). m.watch_target_id == watch_target_id) w.snapshots)
  model ← lift (
      E.scalar_one_or_none SnapshotModel
        (take 1 (E.order_by_desc SnapshotModel (λ m. m.timestamp) rows)))
  lift (to_snapshot_option model)

unfoldable pub get_by_id : Engine → ℕ → Action World (Option Snapshot)
unfolding to_snapshot_option
get_by_id E snapshot_id = do
  rows ← gets (λ w. filter (λ (m : SnapshotModel). m.id == snapshot_id) w.snapshots)
  model ← lift (E.scalar_one_or_none SnapshotModel rows)
  lift (to_snapshot_option model)

-- The row that a scrape becomes.
abbrev pub snapshot_row : ℕ → ℕ → ProviderProductResult → SnapshotModel
snapshot_row id watch_target_id result = record {
  id = id;
  watch_target_id = watch_target_id;
  timestamp = result.scraped_at;
  availability = availability_value result.availability;
  price = result.price;
  mrp = result.mrp;
  discount_pct = result.discount_pct;
  eta_minutes = result.eta_minutes;
  store_name = result.store_name;
  image_url = result.image_url;
  quantity_label = result.quantity_label;
  variants = result.variants;
  product_url = result.product_url;
}

unfoldable pub create : Engine → ℕ → ProviderProductResult → Action World Snapshot
unfolding to_snapshot
create E watch_target_id result w =
    let id = E.fresh (map (λ (m : SnapshotModel). m.id) w.snapshots) in
    let model = snapshot_row id watch_target_id result in
    (to_snapshot model, record w { db = record w.db { snapshots = w.snapshots ++ model ∷ [] } })

unfoldable pub list_since : Engine → ℕ → Datetime → Action World (List Snapshot)
unfolding to_snapshots
list_since E watch_target_id since = do
  rows ← gets (λ w.
      filter (λ (m : SnapshotModel). m.watch_target_id == watch_target_id && leb since m.timestamp)
        w.snapshots)
  lift (to_snapshots (E.order_by SnapshotModel (λ m. m.timestamp) rows))

abbrev pub snapshot_repository : Engine → SnapshotRepository World
snapshot_repository E = record {
  get_latest = get_latest E;
  get_by_id = get_by_id E;
  create = create E;
  list_since = list_since E;
}
