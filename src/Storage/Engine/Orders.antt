-- ===== src/Storage/Engine/Orders.antt =====
-- The newest row of an ORDER BY ... DESC LIMIT 1.
use stock_monitoring.Common.{
  ℕ, ◌≤◌, ◌<◌, List, [], ◌∷◌, ◌++◌, take, All, ◌≡◌, refl, ◌⊎◌, inl, inr, arith, Permᴰ, All-Permᴰ,
  All-Permᴰ_back, All-append, All-append_right, All-imp, ap,
}
use stock_monitoring.Storage.Engine.{Engine, IsDescending}

module _ {Row : Type 0} (key : Row → ℕ) (new : Row) (old more : List Row) where
  -- A row is the new one or older.
  abbrev IsOlder : Row → Type 0
  IsOlder r = (key r < key new) ⊎ (r ≡ new)

  -- In whatever order the rows come, if it is descending the new row stands first.
  head-descending :
      (rows : List Row)
      → Permᴰ rows (old ++ new ∷ more)
      → IsDescending key rows
      → All (λ r. key r < key new) old
      → All (λ r. key r < key new) more
      → take 1 rows ≡ new ∷ []
  head-descending [] p d h k =
      let found = All-Permᴰ (λ _. ⊥) p tt in
      absurd (All-append_right (λ _. ⊥) old (new ∷ more) found).0
  head-descending (r ∷ rows) p d h k =
      let older : All IsOlder (old ++ new ∷ more) =
        All-append IsOlder old (new ∷ more)
          (All-imp (λ s. key s < key new) IsOlder (λ s l. inl l) old h)
          (inr refl, All-imp (λ s. key s < key new) IsOlder (λ s l. inl l) more k) in
      let top = All-Permᴰ (λ s. key s ≤ key r) p (omega arith, d.0) in
      let at_new = (All-append_right (λ s. key s ≤ key r) old (new ∷ more) top).0 in
      elim (All-Permᴰ_back IsOlder p older).0 [
        | inl l ↦ absurd (omega arith)
        | inr e ↦ ap (λ s. s ∷ []) e
      ]

-- The newest of the rows is what ORDER BY key DESC LIMIT 1 returns, wherever it stands.
pub take-order_by_desc_newest :
    (E : Engine) (Row : Type 0) (key : Row → ℕ) (new : Row) (old more : List Row)
    → All (λ r. key r < key new) old
    → All (λ r. key r < key new) more
    → take 1 (E.order_by_desc Row key (old ++ new ∷ more)) ≡ new ∷ []
take-order_by_desc_newest E Row key new old more =
    head-descending key new old more (E.order_by_desc Row key (old ++ new ∷ more))
      (E.order_by_desc-perm Row key (old ++ new ∷ more))
      (E.order_by_desc-IsDescending Row key (old ++ new ∷ more))
