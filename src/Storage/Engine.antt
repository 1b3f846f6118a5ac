-- ===== src/Storage/Engine.antt =====
-- What the repositories use of SQLAlchemy and the database, which this repository does not hold: a
-- parameter, with the documented behaviour of each call.
pub mod Orders
use stock_monitoring.Common.{
  ℕ, ◌≤◌, false, ◌==◌, Option, none, some, List, [], ◌∷◌, any, All, ◌≡◌, Permᴰ,
}
use stock_monitoring.Domain.Errors.{Result, ok, err, no_result_found, multiple_results_found}

-- `Result.scalar_one_or_none` and `Result.scalar_one`, as documented.
abbrev pub at_most_one : {Row : Type 0} → List Row → Result (Option Row)
at_most_one [] = ok none
at_most_one (r ∷ []) = ok (some r)
at_most_one (r ∷ s ∷ rows) = err multiple_results_found

abbrev pub exactly_one : {Row : Type 0} → List Row → Result Row
exactly_one [] = err no_result_found
exactly_one (r ∷ []) = ok r
exactly_one (r ∷ s ∷ rows) = err multiple_results_found

abbrev pub IsAscending : {Row : Type 0} → (Row → ℕ) → List Row → Type 0
IsAscending key [] = Unit
IsAscending key (r ∷ rows) = All (λ s. key r ≤ key s) rows × IsAscending key rows

abbrev pub IsDescending : {Row : Type 0} → (Row → ℕ) → List Row → Type 0
IsDescending key [] = Unit
IsDescending key (r ∷ rows) = All (λ s. key s ≤ key r) rows × IsDescending key rows

pub record Engine : Type 1 where
  -- The primary key that a flush gives a new row, from the keys in use.
  pub fresh : List ℕ → ℕ
  pub fresh-new : (ids : List ℕ) → any (λ i. i == fresh ids) ids ≡ false
  pub scalar_one_or_none : (Row : Type 0) → List Row → Result (Option Row)
  pub scalar_one_or_none-eq :
      (Row : Type 0) (rows : List Row) → scalar_one_or_none Row rows ≡ at_most_one rows
  pub scalar_one : (Row : Type 0) → List Row → Result Row
  pub scalar_one-eq : (Row : Type 0) (rows : List Row) → scalar_one Row rows ≡ exactly_one rows
  -- ORDER BY a column, ascending and descending; rows with equal keys come in any order.
  pub order_by : (Row : Type 0) → (Row → ℕ) → List Row → List Row
  pub order_by-perm :
      (Row : Type 0) (key : Row → ℕ) (rows : List Row) → Permᴰ (order_by Row key rows) rows
  pub order_by-IsAscending :
      (Row : Type 0) (key : Row → ℕ) (rows : List Row) → IsAscending key (order_by Row key rows)
  pub order_by_desc : (Row : Type 0) → (Row → ℕ) → List Row → List Row
  pub order_by_desc-perm :
      (Row : Type 0) (key : Row → ℕ) (rows : List Row) → Permᴰ (order_by_desc Row key rows) rows
  pub order_by_desc-IsDescending :
      (Row : Type 0) (key : Row → ℕ) (rows : List Row)
      → IsDescending key (order_by_desc Row key rows)
