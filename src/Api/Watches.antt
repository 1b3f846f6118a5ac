-- ===== src/Api/Watches.antt =====
-- backend/app/api/routers/watches.py, for the user of the request, and the lookup of an owned watch
-- that the history and analytics routes share.
use stock_monitoring.Common.{ℕ, ◌==◌, Option, none, some, List, if◌then◌else◌}
use stock_monitoring.Api.Products.{require_product}
use stock_monitoring.Api.Schemas.{WatchCreateSchema, WatchSchema, watch_schema}
use stock_monitoring.Domain.Action.{Action, pure, raise, lift, require, ◌>>=◌, ◌>>◌}
use stock_monitoring.Domain.Entities.{Watch}
use stock_monitoring.Domain.Errors.{traverse, http_exception, assertion_error}
use stock_monitoring.Domain.Ports.{ProductRepository, WatchRepository, WatchTargetRepository}

-- `watch is None or watch.user_id != user_id`
unfoldable pub require_watch : {W : Type 0} → ℕ → Option Watch → Action W Watch
require_watch user_id none = raise (http_exception 404)
require_watch user_id (some watch) =
    if watch.user_id == user_id then pure watch else raise (http_exception 404)

module _ {W : Type 0} (watch_repo : WatchRepository W) where
  -- `_owned_watch`
  unfoldable pub owned_watch : ℕ → ℕ → Action W Watch
  owned_watch watch_id user_id = do
    found ← watch_repo.get_by_id watch_id
    require_watch user_id found

  unfoldable pub create_watch :
      ProductRepository W → WatchTargetRepository W → WatchCreateSchema → ℕ → Action W WatchSchema
  create_watch product_repo watch_target_repo body user_id = do
    found ← product_repo.get_by_id body.product_id
    product ← require_product user_id found
    watch_target ←
        watch_target_repo.get_or_create body.retailer_slug body.city body.pincode product.keyword
          body.interval_seconds
    product_id ← require assertion_error product.id
    watch_target_id ← require assertion_error watch_target.id
    watch ← watch_repo.create user_id product_id watch_target_id body.interval_seconds
    lift (watch_schema watch)

  unfoldable pub list_watches : ℕ → Action W (List WatchSchema)
  list_watches user_id = do
    watches ← watch_repo.list_for_user user_id
    lift (traverse watch_schema watches)

  unfoldable pub delete_watch : ℕ → ℕ → Action W (Unit {0})
  unfolding owned_watch
  delete_watch watch_id user_id = do owned_watch watch_id user_id; watch_repo.deactivate watch_id
