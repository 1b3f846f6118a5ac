-- ===== src/Storage/Watches.antt =====
-- `SqlAlchemyWatchRepository` of backend/app/infrastructure/db/repositories.py.
use stock_monitoring.Common.{
  ℕ, true, false, ◌&&◌, ◌==◌, Option, none, some, List, [], ◌∷◌, ◌++◌, map, filter, update_if,
}
use stock_monitoring.Common.Int.{ℤ}
use stock_monitoring.Domain.Action.{Action, pure, gets, lift, modify, ◌>>=◌}
use stock_monitoring.Domain.Errors.{ok}
use stock_monitoring.Domain.Entities.{Watch}
use stock_monitoring.Domain.Ports.{WatchRepository}
use stock_monitoring.Storage.Rows.{WatchModel}
use stock_monitoring.Storage.World.{World}
use stock_monitoring.Storage.Engine.{Engine}

abbrev pub to_watch : WatchModel → Watch
to_watch model = record {
  id = some model.id;
  user_id = model.user_id;
  product_id = model.product_id;
  watch_target_id = model.watch_target_id;
  interval_seconds = model.interval_seconds;
  is_active = model.is_active;
}

unfoldable pub create : Engine → ℕ → ℕ → ℕ → ℤ → Action World Watch
create E user_id product_id watch_target_id interval_seconds w =
    let model : WatchModel = record {
      id = E.fresh (map (λ (m : WatchModel). m.id) w.watches);
      user_id = user_id;
      product_id = product_id;
      watch_target_id = watch_target_id;
      interval_seconds = interval_seconds;
      is_active = true;
    } in
    (ok (to_watch model), record w { db = record w.db { watches = w.watches ++ model ∷ [] } })

unfoldable pub list_by_watch_target : ℕ → Action World (List Watch)
list_by_watch_target watch_target_id = gets (λ w.
    map to_watch
      (filter (λ (m : WatchModel). m.watch_target_id == watch_target_id && m.is_active) w.watches))

unfoldable pub list_by_product : ℕ → Action World (List Watch)
list_by_product product_id = gets (λ w.
    map to_watch (filter (λ (m : WatchModel). m.product_id == product_id && m.is_active) w.watches))

unfoldable pub list_for_user : ℕ → Action World (List Watch)
list_for_user user_id =
    gets (λ w. map to_watch (filter (λ (m : WatchModel). m.user_id == user_id) w.watches))

unfoldable pub get_by_id : Engine → ℕ → Action World (Option Watch)
get_by_id E watch_id = do
  rows ← gets (λ w. filter (λ (m : WatchModel). m.id == watch_id) w.watches)
  model ← lift (E.scalar_one_or_none WatchModel rows)
  elim model [ some m ↦ pure (some (to_watch m)) | none ↦ pure none ]

unfoldable pub deactivate : Engine → ℕ → Action World (Unit {0})
deactivate E watch_id = do
  rows ← gets (λ w. filter (λ (m : WatchModel). m.id == watch_id) w.watches)
  model ← lift (E.scalar_one_or_none WatchModel rows)
  elim model [
    | some found ↦ modify (λ w. record w {
      db = record w.db {
        watches =
            update_if (λ (m : WatchModel). m.id == found.id) (λ m. record m { is_active = false })
              w.watches;
      };
    })
    | none ↦ pure tt
  ]

abbrev pub watch_repository : Engine → WatchRepository World
watch_repository E = record {
  create = create E;
  list_by_watch_target = list_by_watch_target;
  list_by_product = list_by_product;
  list_for_user = list_for_user;
  get_by_id = get_by_id E;
  deactivate = deactivate E;
}
