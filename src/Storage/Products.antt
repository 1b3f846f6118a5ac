-- ===== src/Storage/Products.antt =====
-- `SqlAlchemyProductRepository` of backend/app/infrastructure/db/repositories.py.
use stock_monitoring.Common.{
  ℕ, String, not, ◌==◌, Option, none, some, List, [], ◌∷◌, ◌++◌, map, filter, any,
}
use stock_monitoring.Domain.Action.{Action, pure, gets, lift, modify, raise_if, ◌>>=◌, ◌>>◌}
use stock_monitoring.Domain.Errors.{ok, integrity_error}
use stock_monitoring.Domain.Entities.{Product}
use stock_monitoring.Domain.Ports.{ProductRepository}
use stock_monitoring.Storage.Rows.{ProductModel, WatchModel}
use stock_monitoring.Storage.World.{World}
use stock_monitoring.Storage.Engine.{Engine}

abbrev pub to_product : ProductModel → Product
to_product model = record {
  id = some model.id;
  user_id = model.user_id;
  name = model.name;
  keyword = model.keyword;
  canonical_image_url = model.canonical_image_url;
}

unfoldable pub create : Engine → ℕ → String → String → Option String → Action World Product
create E user_id name keyword canonical_image_url w =
    let model : ProductModel = record {
      id = E.fresh (map (λ (m : ProductModel). m.id) w.products);
      user_id = user_id;
      name = name;
      keyword = keyword;
      canonical_image_url = canonical_image_url;
    } in
    (ok (to_product model), record w { db = record w.db { products = w.products ++ model ∷ [] } })

unfoldable pub list_for_user : ℕ → Action World (List Product)
list_for_user user_id =
    gets (λ w. map to_product (filter (λ (m : ProductModel). m.user_id == user_id) w.products))

unfoldable pub get_by_id : Engine → ℕ → Action World (Option Product)
get_by_id E product_id = do
  rows ← gets (λ w. filter (λ (m : ProductModel). m.id == product_id) w.products)
  model ← lift (E.scalar_one_or_none ProductModel rows)
  elim model [ some m ↦ pure (some (to_product m)) | none ↦ pure none ]

-- The database refuses to delete a row that a watch refers to: the flush raises, and with it the
-- commit of the session, in which nothing comes after the delete.
unfoldable pub delete : Engine → ℕ → Action World (Unit {0})
delete E product_id = do
  rows ← gets (λ w. filter (λ (m : ProductModel). m.id == product_id) w.products)
  model ← lift (E.scalar_one_or_none ProductModel rows)
  elim model [
    | some found ↦ do
      referenced ← gets (λ w. any (λ (m : WatchModel). m.product_id == found.id) w.watches)
      raise_if referenced integrity_error
      modify (λ w. record w {
        db = record w.db {
          products = filter (λ (m : ProductModel). not (m.id == found.id)) w.products;
        };
      })
    | none ↦ pure tt
  ]

abbrev pub product_repository : Engine → ProductRepository World
product_repository E = record {
  create = create E;
  list_for_user = list_for_user;
  get_by_id = get_by_id E;
  delete = delete E;
}
