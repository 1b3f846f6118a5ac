-- ===== src/Storage/WatchTargets.antt =====
-- `SqlAlchemyWatchTargetRepository` of backend/app/infrastructure/db/repositories.py.
pub mod Schedule
pub mod Sharing
use stock_monitoring.Common.{
  ℕ, ◌+◌, ◌*◌, String, Bool, true, ◌&&◌, ◌==◌, leb, str_eq, Option, none, some, List, [], ◌∷◌, ◌++◌,
  map, filter, update_if, if◌then◌else◌,
}
use stock_monitoring.Common.Int.{ℤ, ltb_ℤ, pos_part, neg_part}
use stock_monitoring.Domain.Action.{Action, pure, gets, lift, modify, when, ◌>>=◌, ◌>>◌}
use stock_monitoring.Domain.Errors.{ok}
use stock_monitoring.Domain.Entities.{Datetime, WatchTarget}
use stock_monitoring.Domain.Ports.{WatchTargetRepository}
use stock_monitoring.Storage.Rows.{WatchTargetModel}
use stock_monitoring.Storage.World.{World}
use stock_monitoring.Storage.Engine.{Engine}

abbrev pub to_watch_target : WatchTargetModel → WatchTarget
to_watch_target model = record {
  id = some model.id;
  retailer_slug = model.retailer_slug;
  city = model.city;
  pincode = model.pincode;
  keyword = model.keyword;
  interval_seconds = model.interval_seconds;
}

-- The columns of the unique constraint.
abbrev pub is_target : String → String → String → String → WatchTargetModel → Bool
is_target retailer_slug city pincode keyword m =
    str_eq m.retailer_slug retailer_slug
    && str_eq m.city city
    && str_eq m.pincode pincode
    && str_eq m.keyword keyword

add_watch_target : Engine → String → String → String → String → ℤ → Action World WatchTarget
add_watch_target E retailer_slug city pincode keyword interval_seconds w =
    let model : WatchTargetModel = record {
      id = E.fresh (map (λ (m : WatchTargetModel). m.id) w.watch_targets);
      retailer_slug = retailer_slug;
      city = city;
      pincode = pincode;
      keyword = keyword;
      interval_seconds = interval_seconds;
      last_checked_at = none;
    } in
    (
      ok (to_watch_target model),
      record w { db = record w.db { watch_targets = w.watch_targets ++ model ∷ [] } },
    )

-- The row that was found, with a shorter interval if the new one is shorter.
shorten : WatchTargetModel → ℤ → Action World WatchTarget
shorten existing interval_seconds =
    let changed =
      if ltb_ℤ interval_seconds existing.interval_seconds
      then record existing { interval_seconds = interval_seconds }
      else existing in
    do
      modify (λ w. record w {
        db = record w.db {
          watch_targets =
              update_if (λ (m : WatchTargetModel). m.id == existing.id)
                (λ m. record m { interval_seconds = changed.interval_seconds }) w.watch_targets;
        };
      })
      pure (to_watch_target changed)

unfoldable pub get_or_create :
    Engine → String → String → String → String → ℤ → Action World WatchTarget
unfolding add_watch_target shorten
get_or_create E retailer_slug city pincode keyword interval_seconds = do
  rows ← gets (λ w. filter (is_target retailer_slug city pincode keyword) w.watch_targets)
  existing ← lift (E.scalar_one_or_none WatchTargetModel rows)
  elim existing [
    | some model ↦ shorten model interval_seconds
    | none ↦ add_watch_target E retailer_slug city pincode keyword interval_seconds
  ]

unfoldable pub get_by_id : Engine → ℕ → Action World (Option WatchTarget)
get_by_id E watch_target_id = do
  rows ← gets (λ w. filter (λ (m : WatchTargetModel). m.id == watch_target_id) w.watch_targets)
  model ← lift (E.scalar_one_or_none WatchTargetModel rows)
  elim model [ some m ↦ pure (some (to_watch_target m)) | none ↦ pure none ]

-- `(now - last).total_seconds() >= interval`, with both sides in microseconds and without a
-- subtraction.
abbrev pub elapsed : Datetime → Datetime → ℤ → Bool
elapsed now last interval =
    leb (last + pos_part interval * 1_000_000) (now + neg_part interval * 1_000_000)

abbrev pub is_due : Datetime → WatchTargetModel → Bool
is_due now m = elim m.last_checked_at [
  | none ↦ true
  | some last ↦ elapsed now last m.interval_seconds
]

unfoldable pub list_due : Datetime → Action World (List WatchTarget)
list_due now = gets (λ w. map to_watch_target (filter (is_due now) w.watch_targets))

unfoldable pub mark_checked : Engine → ℕ → Datetime → Action World (Unit {0})
mark_checked E watch_target_id when = do
  rows ← gets (λ w. filter (λ (m : WatchTargetModel). m.id == watch_target_id) w.watch_targets)
  model ← lift (E.scalar_one WatchTargetModel rows)
  modify (λ w. record w {
    db = record w.db {
      watch_targets =
          update_if (λ (m : WatchTargetModel). m.id == model.id)
            (λ m. record m { last_checked_at = some when }) w.watch_targets;
    };
  })

abbrev pub watch_target_repository : Engine → WatchTargetRepository World
watch_target_repository E = record {
  get_or_create = get_or_create E;
  get_by_id = get_by_id E;
  list_due = list_due;
  mark_checked = mark_checked E;
}
