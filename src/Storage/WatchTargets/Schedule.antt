-- ===== src/Storage/WatchTargets/Schedule.antt =====
-- When a watch target is due, before and after a check.
use stock_monitoring.Common.{
  ◌+◌, ◌*◌, leb, update_if-none, filter-filter_none, leb, false, ℕ, ◌==◌, ==_iff, ==_refl, Bool,
  true, some, option_eq, List, [], ◌∷◌, map, filter, filter-map, filter-filter_comm,
  filter-update_if, update_if, All, filter-holds, if◌then◌else◌, ◌≡◌, refl, subst, arith,
}
use stock_monitoring.Domain.Entities.{Datetime, WatchTarget}
use stock_monitoring.Domain.Errors.{Result, ok}
use stock_monitoring.Storage.Engine.{Engine}
use stock_monitoring.Storage.Rows.{WatchTargetModel}
use stock_monitoring.Storage.WatchTargets.{
  ℤ, mark_checked, list_due, is_due, elapsed, to_watch_target,
}
use stock_monitoring.Storage.World.{World}

abbrev pub has_id : ℕ → WatchTargetModel → Bool
has_id t m = m.id == t

-- The world after a check of a target.
abbrev pub checked : ℕ → Datetime → World → World
checked t when w = record w {
  db = record w.db {
    watch_targets =
        update_if (has_id t) (λ m. record m { last_checked_at = some when }) w.watch_targets;
  };
}

-- The row that was found by its key has that key.
pub id_of_found :
    (t : ℕ) (rows : List WatchTargetModel) (m : WatchTargetModel)
    → filter (has_id t) rows ≡ m ∷ []
    → m.id ≡ t
id_of_found t rows m found =
    (==_iff m.id t).0 (subst (All (λ x. has_id t x ≡ true)) found (filter-holds (has_id t) rows)).0

pub mark_checked-eq :
    (E : Engine) (t : ℕ) (when : Datetime) (w : World) {m : WatchTargetModel}
    → filter (has_id t) w.watch_targets ≡ m ∷ []
    → mark_checked E t when w ≡ (ok tt, checked t when w)
unfolding mark_checked
mark_checked-eq E t when w {m} found =
    rw (found, E.scalar_one-eq WatchTargetModel, id_of_found t w.watch_targets m found)

-- The entries of a target in the answer of `list_due`.
abbrev pub entries : ℕ → Result (List WatchTarget) → List WatchTarget
entries t (ok targets) = filter (λ target. option_eq ◌==◌ target.id (some t)) targets
entries t _ = []

pub entries-list_due :
    (t : ℕ) (now : Datetime) (w : World)
    → entries t (list_due now w).0
      ≡ map to_watch_target (filter (is_due now) (filter (has_id t) w.watch_targets))
unfolding list_due
entries-list_due t now w =
    rw (filter-map (λ target. option_eq ◌==◌ target.id (some t)) to_watch_target)
      (rw (filter-filter_comm (has_id t) (is_due now)))

-- Whether so many seconds, or the seconds of a negative number, have passed from a time to a later
-- one, both in microseconds.
abbrev pub has_passed : ℤ → ℕ → ℕ → Bool
has_passed (ℤ.pos seconds) when now = leb (when + seconds * 1_000_000) now
has_passed (ℤ.negsuc n) when now = leb when (now + (n + 1) * 1_000_000)

elapsed-has_passed :
    (interval : ℤ) (when now : Datetime) → elapsed now when interval ≡ has_passed interval when now
elapsed-has_passed (ℤ.pos seconds) when now = ground arith
elapsed-has_passed (ℤ.negsuc n) when now = ground arith

-- The row of one target does not have the key of another.
others_stay :
    (t other : ℕ) (when : Datetime) (rows : List WatchTargetModel) {m : WatchTargetModel}
    → filter (has_id t) rows ≡ m ∷ []
    → (t == other) ≡ false
    → update_if
        (has_id t)
        (λ m. record m { last_checked_at = some when })
        (filter (has_id other) rows)
      ≡ filter (has_id other) rows
others_stay t other when rows {m} found apart =
    update_if-none (has_id t) (λ m. record m { last_checked_at = some when })
      (filter (has_id other) rows)
      (filter-filter_none (has_id other) (has_id t) rows found
        (rw (id_of_found t rows m found) apart))

entries-checked_other :
    (t other : ℕ) (when now : Datetime) (w : World) {m : WatchTargetModel}
    → filter (has_id t) w.watch_targets ≡ m ∷ []
    → (t == other) ≡ false
    → entries other (list_due now (checked t when w)).0 ≡ entries other (list_due now w).0
entries-checked_other t other when now w found apart =
    rw
      (
        entries-list_due other now (checked t when w),
        entries-list_due other now w,
        filter-update_if (has_id other) (has_id t) (λ m. record m { last_checked_at = some when })
            w.watch_targets (λ x. refl),
      )
      (rw (others_stay t other when w.watch_targets found apart) refl)

list_due-checked :
    (E : Engine) (t : ℕ) (when now : Datetime) (w : World) {m : WatchTargetModel}
    → filter (has_id t) w.watch_targets ≡ m ∷ []
    → entries t (list_due now (mark_checked E t when w).1).0
      ≡ (if has_passed m.interval_seconds when now then to_watch_target m ∷ [] else [])
list_due-checked E t when now w {m} found =
    rw
      (
        mark_checked-eq E t when w found,
        entries-list_due t now (checked t when w),
        filter-update_if (has_id t) (has_id t) (λ m. record m { last_checked_at = some when })
            w.watch_targets (λ x. refl),
        found,
        id_of_found t w.watch_targets m found,
        ==_refl t,
      )
      (rw (← elapsed-has_passed m.interval_seconds when now) (ground arith))

-- Once a target that is stored once has been marked as checked at a time, it is in the list of due
-- targets at those times at which at least the seconds of its interval have passed, once, and at
-- the others not at all. Any other target is in the list as it was without the mark.
pub list_due-mark_checked :
    (E : Engine) (t other : ℕ) (when now : Datetime) (w : World) {m : WatchTargetModel}
    → filter (has_id t) w.watch_targets ≡ m ∷ []
    → (t == other) ≡ false
    → (entries t (list_due now (mark_checked E t when w).1).0
        ≡ (if has_passed m.interval_seconds when now then to_watch_target m ∷ [] else []))
      × (entries other (list_due now (mark_checked E t when w).1).0
          ≡ entries other (list_due now w).0)
list_due-mark_checked E t other when now w {m} found apart = (
  list_due-checked E t when now w found,
  rw (mark_checked-eq E t when w found) (entries-checked_other t other when now w found apart),
)
