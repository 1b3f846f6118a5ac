-- ===== src/Tests/Sqlite.antt =====
-- An engine that counts its keys up and sorts stably, for runs on concrete rows.
use stock_monitoring.Common.{
  ℕ, ◌+◌, ◌≤◌, ◌==◌, leb, false, Bool-cases, inl, inr, any, List, [], ◌∷◌, All-imp, All-Permᴰ_back,
  if◌then◌else◌, ◌≡◌, refl, arith, Permᴰ,
}
use stock_monitoring.Storage.Engine.{Engine, at_most_one, exactly_one, IsAscending, IsDescending}

abbrev pub next : List ℕ → ℕ
next [] = 1
next (i ∷ ids) = if leb (next ids) i then i + 1 else next ids

beyond : (n : ℕ) (ids : List ℕ) → next ids ≤ n → any (λ i. i == n) ids ≡ false
beyond n [] h = refl
beyond n (i ∷ ids) h = ground (arith, beyond n ids)

pub next-new : (ids : List ℕ) → any (λ i. i == next ids) ids ≡ false
next-new ids = beyond (next ids) ids (omega arith)

module _ (Row : Type 0) (key : Row → ℕ) where
  unfoldable pub insert : Row → List Row → List Row
  insert r [] = r ∷ []
  insert r (s ∷ rows) = if leb (key r) (key s) then r ∷ s ∷ rows else s ∷ insert r rows

  unfoldable pub sort : List Row → List Row
  sort [] = []
  sort (r ∷ rows) = insert r (sort rows)

  unfoldable pub insert_desc : Row → List Row → List Row
  insert_desc r [] = r ∷ []
  insert_desc r (s ∷ rows) = if leb (key s) (key r) then r ∷ s ∷ rows else s ∷ insert_desc r rows

  unfoldable pub sort_desc : List Row → List Row
  sort_desc [] = []
  sort_desc (r ∷ rows) = insert_desc r (sort_desc rows)

  same : (rows : List Row) → Permᴰ rows rows
  same [] = Permᴰ.nil
  same (r ∷ rows) = Permᴰ.cons refl (same rows)

  insert-perm : (r : Row) (rows : List Row) → Permᴰ (insert r rows) (r ∷ rows)
  unfolding insert
  insert-perm r [] = same (r ∷ [])
  insert-perm r (s ∷ rows) = elim (Bool-cases (leb (key r) (key s))) [
    | inl e ↦ rw e (same (r ∷ s ∷ rows))
    | inr e ↦ rw e (Permᴰ.trans (Permᴰ.cons refl (insert-perm r rows)) (Permᴰ.swap refl refl))
  ]

  insert_desc-perm : (r : Row) (rows : List Row) → Permᴰ (insert_desc r rows) (r ∷ rows)
  unfolding insert_desc
  insert_desc-perm r [] = same (r ∷ [])
  insert_desc-perm r (s ∷ rows) = elim (Bool-cases (leb (key s) (key r))) [
    | inl e ↦ rw e (same (r ∷ s ∷ rows))
    | inr e ↦ rw e (Permᴰ.trans (Permᴰ.cons refl (insert_desc-perm r rows)) (Permᴰ.swap refl refl))
  ]

  pub sort-perm : (rows : List Row) → Permᴰ (sort rows) rows
  unfolding sort
  sort-perm [] = Permᴰ.nil
  sort-perm (r ∷ rows) = Permᴰ.trans (insert-perm r (sort rows)) (Permᴰ.cons refl (sort-perm rows))

  pub sort_desc-perm : (rows : List Row) → Permᴰ (sort_desc rows) rows
  unfolding sort_desc
  sort_desc-perm [] = Permᴰ.nil
  sort_desc-perm (r ∷ rows) =
      Permᴰ.trans (insert_desc-perm r (sort_desc rows)) (Permᴰ.cons refl (sort_desc-perm rows))

  insert-IsAscending :
      (r : Row) (rows : List Row) → IsAscending key rows → IsAscending key (insert r rows)
  unfolding insert
  insert-IsAscending r [] h = (tt, tt)
  insert-IsAscending r (s ∷ rows) h = elim (Bool-cases (leb (key r) (key s))) [
    | inl e ↦ rw e (
      (
        ground arith,
        All-imp (λ t. key s ≤ key t) (λ t. key r ≤ key t) (λ t l. ground arith) rows h.0,
      ),
      h,
    )
    | inr e ↦ rw e (
      All-Permᴰ_back (λ t. key s ≤ key t) (insert-perm r rows) (ground arith, h.0),
      insert-IsAscending r rows h.1,
    )
  ]

  insert_desc-IsDescending :
      (r : Row) (rows : List Row) → IsDescending key rows → IsDescending key (insert_desc r rows)
  unfolding insert_desc
  insert_desc-IsDescending r [] h = (tt, tt)
  insert_desc-IsDescending r (s ∷ rows) h = elim (Bool-cases (leb (key s) (key r))) [
    | inl e ↦ rw e (
      (
        ground arith,
        All-imp (λ t. key t ≤ key s) (λ t. key t ≤ key r) (λ t l. ground arith) rows h.0,
      ),
      h,
    )
    | inr e ↦ rw e (
      All-Permᴰ_back (λ t. key t ≤ key s) (insert_desc-perm r rows) (ground arith, h.0),
      insert_desc-IsDescending r rows h.1,
    )
  ]

  pub sort-IsAscending : (rows : List Row) → IsAscending key (sort rows)
  unfolding sort
  sort-IsAscending [] = tt
  sort-IsAscending (r ∷ rows) = insert-IsAscending r (sort rows) (sort-IsAscending rows)

  pub sort_desc-IsDescending : (rows : List Row) → IsDescending key (sort_desc rows)
  unfolding sort_desc
  sort_desc-IsDescending [] = tt
  sort_desc-IsDescending (r ∷ rows) =
      insert_desc-IsDescending r (sort_desc rows) (sort_desc-IsDescending rows)

abbrev pub sqlite : Engine
sqlite = record {
  fresh = next;
  fresh-new = next-new;
  scalar_one_or_none = λ Row. at_most_one;
  scalar_one_or_none-eq = λ Row rows. refl;
  scalar_one = λ Row. exactly_one;
  scalar_one-eq = λ Row rows. refl;
  order_by = sort;
  order_by-perm = sort-perm;
  order_by-IsAscending = sort-IsAscending;
  order_by_desc = sort_desc;
  order_by_desc-perm = sort_desc-perm;
  order_by_desc-IsDescending = sort_desc-IsDescending;
}
