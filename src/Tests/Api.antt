-- ===== src/Tests/Api.antt =====
-- The theorems on the routes, on concrete worlds.
use stock_monitoring.Common.{map, ℕ, true, none, [], ◌∷◌, ◌++◌, filter, ◌≡◌, refl, arith}
use stock_monitoring.Common.Int.{ℤ, ◌≤ℤ◌}
use stock_monitoring.Api.Ownership.Products as Ownership_Products
use stock_monitoring.Api.Ownership.Sharing.{watch_row, create_watch-own}
use stock_monitoring.Api.Ownership.Watches.{list_by_watch_target-delete_watch}
use stock_monitoring.Api.Main.{Response}
use stock_monitoring.Api.Failing.{Failing, entry, serve_each, serve_each-logged}
use stock_monitoring.Common.Json.{Json}
use stock_monitoring.Api.Products.{delete_product}
use stock_monitoring.Api.Schemas.{WatchCreateSchema, WatchSchema}
use stock_monitoring.Api.Watches.{create_watch, delete_watch, require_watch}
use stock_monitoring.Domain.Errors.{
  Error, Result, ok, err, invalid_otp, integrity_error, not_implemented,
}
use stock_monitoring.Storage.Watches
use stock_monitoring.Storage.Products.{product_repository}
use stock_monitoring.Storage.Rows.{ProductModel, WatchModel, WatchTargetModel}
use stock_monitoring.Storage.Watches.{watch_repository, list_by_watch_target, to_watch}
use stock_monitoring.Storage.WatchTargets.{watch_target_repository}
use stock_monitoring.Storage.WatchTargets.Sharing.{IsShared, has_columns}
use stock_monitoring.Storage.World.{World}
use stock_monitoring.Tests.Samples.{world}
use stock_monitoring.Tests.Sqlite.{sqlite}

abbrev milk_product : ProductModel
milk_product = record {
  id = 3;
  user_id = 7;
  name = "Milk";
  keyword = "milk";
  canonical_image_url = none;
}

abbrev body : WatchCreateSchema
body = record {
  product_id = 3;
  retailer_slug = "blinkit";
  city = "Pune";
  pincode = "411001";
  interval_seconds = ℤ.pos 30;
}

abbrev first_watch : WatchModel
first_watch = watch_row 1 body 7 3 1

abbrev other_watch : WatchModel
other_watch = watch_row 2 body 8 4 1

abbrev pub shop : World
shop = record world {
  db = record world.db { products = milk_product ∷ []; watches = first_watch ∷ other_watch ∷ [] };
}

shared : IsShared shop.watch_targets
shared r c p k = ground arith

list_by_watch_target-delete_watch_example :
    (list_by_watch_target 1 (delete_watch (watch_repository sqlite) 1 7 shop).1).0
    ≡ ok (to_watch other_watch ∷ [])
list_by_watch_target-delete_watch_example =
    list_by_watch_target-delete_watch sqlite 1 1 shop {m = first_watch} refl

-- The shop after the watch on the product was deleted.
abbrev unwatched : World
unwatched = (delete_watch (watch_repository sqlite) 1 7 shop).1

delete_product-found_example :
    delete_product (product_repository sqlite) (watch_repository sqlite) 3 7 unwatched
    ≡ (err integrity_error, unwatched)
unfolding delete_watch require_watch Watches.get_by_id Watches.deactivate
delete_product-found_example =
    Ownership_Products.delete_product-found sqlite 3 7 unwatched milk_product refl

abbrev created : Result WatchSchema × World
created =
    create_watch (watch_repository sqlite) (product_repository sqlite)
      (watch_target_repository sqlite) body 7 shop

create_watch-own_example :
    (t : WatchTargetModel) × (id : ℕ) × (created.0
      ≡ ok (record {
        id = id;
        product_id = 3;
        watch_target_id = t.id;
        interval_seconds = ℤ.pos 30;
        is_active = true;
      }))
    × (created.1.watches ≡ shop.watches ++ watch_row id body 7 3 t.id ∷ [])
    × (filter (has_columns "blinkit" "Pune" "411001" "milk") created.1.watch_targets ≡ t ∷ [])
    × (t.interval_seconds ≤ℤ ℤ.pos 30)
create_watch-own_example = create_watch-own sqlite body 7 shop milk_product refl refl shared

-- A route that writes and then fails.
-- Two requests that empty a table and raise.
abbrev emptying : Error → Failing
emptying e = record {
  path = "/api/v1/products";
  error = e;
  touch = λ w. record w { db = record w.db { products = [] } };
}

serve_each-logged_example :
    let (answers, after) =
      serve_each ℕ sqlite
        (λ e. "failed")
        (emptying not_implemented ∷ emptying invalid_otp ∷ [])
        shop in
    (answers ≡ err not_implemented ∷ ok (Response.failure 400) ∷ [])
    × (after.db ≡ record shop.db { system_logs = after.system_logs })
    × (map entry after.system_logs
        ≡ map entry shop.system_logs
          ++ ("error", ("failed", ("path", Json.str "/api/v1/products") ∷ [])) ∷ [])
serve_each-logged_example =
    serve_each-logged ℕ sqlite (λ e. "failed")
      (emptying not_implemented ∷ emptying invalid_otp ∷ []) shop
