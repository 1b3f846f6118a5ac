-- ===== src/Api/Products.antt =====
-- backend/app/api/routers/products.py, for the user of the request.
use stock_monitoring.Common.{ℕ, ◌==◌, Option, none, some, List, [], ◌∷◌, if◌then◌else◌}
use stock_monitoring.Api.Schemas.{ProductCreateSchema, ProductSchema, product_schema}
use stock_monitoring.Domain.Action.{Action, pure, raise, lift, ◌>>=◌, ◌>>◌}
use stock_monitoring.Domain.Entities.{Product, Watch}
use stock_monitoring.Domain.Errors.{traverse, http_exception}
use stock_monitoring.Domain.Ports.{ProductRepository, WatchRepository}

-- `product is None or product.user_id != user_id`
unfoldable pub require_product : {W : Type 0} → ℕ → Option Product → Action W Product
require_product user_id none = raise (http_exception 404)
require_product user_id (some product) =
    if product.user_id == user_id then pure product else raise (http_exception 404)

-- `if active_watches: raise`
unfoldable pub refuse_if_watched : {W : Type 0} → List Watch → Action W (Unit {0})
refuse_if_watched [] = pure tt
refuse_if_watched (watch ∷ watches) = raise (http_exception 409)

module _ {W : Type 0} (repo : ProductRepository W) where
  unfoldable pub create_product : ProductCreateSchema → ℕ → Action W ProductSchema
  create_product body user_id = do
    product ← repo.create user_id body.name body.keyword body.canonical_image_url
    lift (product_schema product)

  unfoldable pub list_products : ℕ → Action W (List ProductSchema)
  list_products user_id = do
    products ← repo.list_for_user user_id
    lift (traverse product_schema products)

  unfoldable pub delete_product : WatchRepository W → ℕ → ℕ → Action W (Unit {0})
  delete_product watch_repo product_id user_id = do
    found ← repo.get_by_id product_id
    require_product user_id found
    active_watches ← watch_repo.list_by_product product_id
    refuse_if_watched active_watches
    repo.delete product_id
