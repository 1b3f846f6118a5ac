-- ===== src/Api/Ownership/Sharing.antt =====
-- Creating a watch: it is put on the shared target of its product's keyword.
use stock_monitoring.Common.{
  ℕ, String, ◌==◌, true, false, [], ◌∷◌, ◌++◌, map, filter, ◌≡◌, refl, arith,
}
use stock_monitoring.Common.Int.{ℤ, ◌≤ℤ◌}
use stock_monitoring.Api.Products.{require_product}
use stock_monitoring.Api.Schemas.{WatchCreateSchema, WatchSchema}
use stock_monitoring.Api.Watches.{create_watch}
use stock_monitoring.Api.Ownership.Products.{has_id}
use stock_monitoring.Domain.Errors.{Result, ok, err, http_exception}
use stock_monitoring.Storage.Engine.{Engine}
use stock_monitoring.Storage.Products
use stock_monitoring.Storage.Products.{product_repository}
use stock_monitoring.Storage.Rows.{ProductModel, WatchModel, WatchTargetModel}
use stock_monitoring.Storage.Watches
use stock_monitoring.Storage.Watches.{watch_repository}
use stock_monitoring.Storage.WatchTargets.{watch_target_repository, get_or_create}
use stock_monitoring.Storage.WatchTargets.Sharing.{IsShared, has_columns, get_or_create-answer}
use stock_monitoring.Storage.World.{World}

get_or_create-watches :
    (E : Engine) (r c p k : String) (i : ℤ) (w : World)
    → (get_or_create E r c p k i w).1.watches ≡ w.watches
unfolding get_or_create
get_or_create-watches E r c p k i w = ground arith

-- The row of a new watch.
abbrev pub watch_row : ℕ → WatchCreateSchema → ℕ → ℕ → ℕ → WatchModel
watch_row id body user_id product_id watch_target_id = record {
  id = id;
  user_id = user_id;
  product_id = product_id;
  watch_target_id = watch_target_id;
  interval_seconds = body.interval_seconds;
  is_active = true;
}

module _ (E : Engine) (body : WatchCreateSchema) (user : ℕ) (w : World) (m : ProductModel)
    (found : filter (has_id body.product_id) w.products ≡ m ∷ []) where
  abbrev create : Result WatchSchema × World
  create =
      create_watch (watch_repository E) (product_repository E) (watch_target_repository E) body user
        w

  -- A request to watch another user's product is answered with 404 and changes nothing.
  pub create_watch-foreign : (m.user_id == user) ≡ false → create ≡ (err (http_exception 404), w)
  unfolding create_watch require_product Products.get_by_id
  create_watch-foreign e = rw (found, E.scalar_one_or_none-eq ProductModel, e)

  -- A request to watch one's own product succeeds where targets are shared. It adds one active
  -- watch, on the one target of the retailer, the place and the product's keyword, and the interval
  -- of that target is no longer than the watch's.
  pub create_watch-own :
      (m.user_id == user) ≡ true
      → IsShared w.watch_targets
      → (t : WatchTargetModel) × (id : ℕ) × (create.0
          ≡ ok (record {
            id = id;
            product_id = m.id;
            watch_target_id = t.id;
            interval_seconds = body.interval_seconds;
            is_active = true;
          }))
        × (create.1.watches ≡ w.watches ++ watch_row id body user m.id t.id ∷ [])
        × (filter
              (has_columns body.retailer_slug body.city body.pincode m.keyword)
              create.1.watch_targets
            ≡ t ∷ [])
        × (t.interval_seconds ≤ℤ body.interval_seconds)
  unfolding create_watch require_product Products.get_by_id Watches.create
  create_watch-own e shared =
      let (t, answered, one, short) =
        get_or_create-answer E body.retailer_slug body.city body.pincode m.keyword
          body.interval_seconds w shared in
      rw (found, E.scalar_one_or_none-eq ProductModel, e, answered, get_or_create-watches)
        (t, E.fresh (map (λ (x : WatchModel). x.id) w.watches), refl, refl, one, short)
