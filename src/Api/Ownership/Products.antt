-- ===== src/Api/Ownership/Products.antt =====
-- Deleting a product: whose it may be, and what stands in the way.
use stock_monitoring.Common.{
  ℕ, ◌==◌, ==_iff, Bool, true, false, not, ◌&&◌, Bool-cases, inl, inr, List, [], ◌∷◌, map, any,
  filter, filter-not_none, filter-filter_none, filter-filter_comm, List-cases, if◌then◌else◌,
  filter-holds, All, ◌≡◌, refl, subst, arith,
}
use stock_monitoring.Api.Products.{delete_product, require_product, refuse_if_watched}
use stock_monitoring.Domain.Errors.{ok, err, integrity_error, http_exception}
use stock_monitoring.Storage.Engine.{Engine}
use stock_monitoring.Storage.Rows.{ProductModel, WatchModel}
use stock_monitoring.Storage.Products
use stock_monitoring.Storage.Products.{product_repository, to_product}
use stock_monitoring.Storage.Watches.{watch_repository, to_watch, list_by_product}
use stock_monitoring.Storage.World.{World}

abbrev pub has_id : ℕ → ProductModel → Bool
has_id id m = m.id == id

abbrev pub of_user : ℕ → ProductModel → Bool
of_user user m = m.user_id == user

-- Some watch on a product is active.
abbrev pub is_watched : ℕ → World → Bool
is_watched id w = any (λ (m : WatchModel). m.product_id == id && m.is_active) w.watches

-- Some watch on a product is stored, active or not.
abbrev pub is_referenced : ℕ → World → Bool
is_referenced id w = any (λ (m : WatchModel). m.product_id == id) w.watches

-- The world without a product.
abbrev pub without : ℕ → World → World
without id w = record w {
  db = record w.db { products = filter (λ m. not (has_id id m)) w.products };
}

id_of_found :
    (id : ℕ) (rows : List ProductModel) (m : ProductModel)
    → filter (has_id id) rows ≡ m ∷ []
    → m.id ≡ id
id_of_found id rows m found =
    (==_iff m.id id).0
      (subst (All (λ x. has_id id x ≡ true)) found (filter-holds (has_id id) rows)).0

-- The refusal asks whether some row passes the test.
refuse-any :
    (p : WatchModel → Bool) (rows : List WatchModel) (w : World)
    → refuse_if_watched (map to_watch (filter p rows)) w
      ≡ ((if any p rows then err (http_exception 409) else ok tt), w)
unfolding refuse_if_watched
refuse-any p [] w = refl
refuse-any p (m ∷ rows) w = ground (arith, refuse-any p rows w)

-- Deleting a product leaves the products of the users that it is not of.
pub others-without :
    (id other : ℕ) (w : World) {m : ProductModel}
    → filter (has_id id) w.products ≡ m ∷ []
    → (m.user_id == other) ≡ false
    → filter (of_user other) (without id w).products ≡ filter (of_user other) w.products
others-without id other w found apart =
    rw (filter-filter_comm (of_user other) (λ m. not (has_id id m))) (
      filter-not_none (has_id id) (filter (of_user other) w.products)
        (filter-filter_none (of_user other) (has_id id) w.products found apart))

module _ (E : Engine) (id user : ℕ) (w : World) where
  -- A request to delete a product that is stored once raises a 404 if the product is another user's,
  -- a 409 if it has an active watch and an `IntegrityError` if it has watches and none of them is
  -- active, and then changes nothing; if no watch on it is stored, it removes the product and nothing
  -- else.
  pub delete_product-found :
      (m : ProductModel)
      → filter (has_id id) w.products ≡ m ∷ []
      → delete_product (product_repository E) (watch_repository E) id user w ≡ (
          if m.user_id == user
          then (if is_watched id w
              then (err (http_exception 409), w)
              else if is_referenced id w
              then (err integrity_error, w)
              else (ok tt, without id w))
          else (err (http_exception 404), w))
  unfolding delete_product require_product Products.get_by_id Products.delete list_by_product
  delete_product-found m found = elim (Bool-cases (m.user_id == user)) [
    | inl e ↦ elim (Bool-cases (is_watched id w)) [
      | inl b ↦ rw (found, E.scalar_one_or_none-eq ProductModel, e, refuse-any, b)
      | inr b ↦ elim (Bool-cases (is_referenced id w)) [
        | inl k ↦ rw (
          found,
          E.scalar_one_or_none-eq ProductModel,
          e,
          refuse-any,
          b,
          found,
          E.scalar_one_or_none-eq ProductModel,
          id_of_found id w.products m found,
          k,
        )
        | inr k ↦ rw (
          found,
          E.scalar_one_or_none-eq ProductModel,
          e,
          refuse-any,
          b,
          found,
          E.scalar_one_or_none-eq ProductModel,
          id_of_found id w.products m found,
          k,
        )
      ]
    ]
    | inr e ↦ rw (found, E.scalar_one_or_none-eq ProductModel, e)
  ]

  pub delete_product-absent :
      filter (has_id id) w.products ≡ []
      → delete_product (product_repository E) (watch_repository E) id user w
        ≡ (err (http_exception 404), w)
  unfolding delete_product require_product Products.get_by_id
  delete_product-absent found = rw (found, E.scalar_one_or_none-eq ProductModel)

  pub delete_product-many :
      (m m' : ProductModel) (ms : List ProductModel)
      → filter (has_id id) w.products ≡ m ∷ m' ∷ ms
      → (delete_product (product_repository E) (watch_repository E) id user w).1 ≡ w
  unfolding delete_product require_product Products.get_by_id
  delete_product-many m m' ms found = rw (found, E.scalar_one_or_none-eq ProductModel) refl

  -- A request to delete a product leaves every other user's products as they are, whatever key it
  -- names.
  delete_product-isolated :
      (other : ℕ)
      → (user == other) ≡ false
      → filter
          (of_user other)
          (delete_product (product_repository E) (watch_repository E) id user w).1.products
        ≡ filter (of_user other) w.products
  delete_product-isolated other apart = elim (List-cases (filter (has_id id) w.products)) [
    | inl nobody ↦ rw (delete_product-absent nobody) refl
    | inr (inl (m, found)) ↦
        rw (delete_product-found m found) (elim (Bool-cases (m.user_id == user)) [
          | inl e ↦ elim (Bool-cases (is_watched id w)) [
            | inl b ↦ rw (e, b) refl
            | inr b ↦ elim (Bool-cases (is_referenced id w)) [
              | inl k ↦ rw (e, b, k) refl
              | inr k ↦ rw (e, b, k) (others-without id other w found (ground arith))
            ]
          ]
          | inr e ↦ rw e refl
        ])
    | inr (inr (m, m', ms, found)) ↦ rw (delete_product-many m m' ms found) refl
  ]
