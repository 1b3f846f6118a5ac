-- ===== src/Storage/Retailers/Seeding.antt =====
-- What the seeding of the retailers leaves behind.
use stock_monitoring.Common.{
  String, str_eq_refl, true, Bool-cases, inl, inr, any-append, List, [], ◌∷◌, ◌++◌, map, map-append,
  All, if◌then◌else◌, ◌≡◌, refl, arith,
}
use stock_monitoring.Domain.Errors.{ok}
use stock_monitoring.Storage.Engine.{Engine}
use stock_monitoring.Storage.Retailers.{
  knows, seed_missing, supported_retailers, ensure_retailers_seeded,
}
use stock_monitoring.Storage.Rows.{RetailerModel}
use stock_monitoring.Storage.World.{World}

abbrev pub slugs : List RetailerModel → List String
slugs rows = map (λ (m : RetailerModel). m.slug) rows

-- A retailer whose slug is among those of the rows.
abbrev pub IsKnown : List RetailerModel → String × String → Type 0
IsKnown rows (slug, name) = knows (slugs rows) slug ≡ true

module _ (E : Engine) (existing : List String) where
  -- The rows after one turn of the loop.
  abbrev turn : String → String → List RetailerModel → List RetailerModel
  turn slug name rows =
      if knows existing slug
      then rows
      else rows
        ++ record {
          id = E.fresh (map (λ (m : RetailerModel). m.id) rows);
          slug = slug;
          name = name;
          is_active = true;
        }
          ∷ []

  -- A slug of the rows stays one.
  turn-keeps :
      (slug name other : String) (rows : List RetailerModel)
      → knows (slugs rows) other ≡ true
      → knows (slugs (turn slug name rows)) other ≡ true
  turn-keeps slug name other rows h = elim (Bool-cases (knows existing slug)) [
    | inl e ↦ rw e h
    | inr e ↦ rw (e, map-append, any-append, h) refl
  ]

  turn-knows :
      (slug name : String) (rows : List RetailerModel)
      → (knows existing slug ≡ true → knows (slugs rows) slug ≡ true)
      → knows (slugs (turn slug name rows)) slug ≡ true
  turn-knows slug name rows h = elim (Bool-cases (knows existing slug)) [
    | inl e ↦ rw e (h e)
    | inr e ↦ rw (e, map-append, any-append, str_eq_refl slug) (ground arith)
  ]

  seed_missing-keeps :
      (rest : List (String × String)) (rows : List RetailerModel) (slug : String)
      → knows (slugs rows) slug ≡ true
      → knows (slugs (seed_missing E existing rest rows)) slug ≡ true
  unfolding seed_missing
  seed_missing-keeps [] rows slug h = h
  seed_missing-keeps ((other, name) ∷ rest) rows slug h =
      seed_missing-keeps rest (turn other name rows) slug (turn-keeps other name slug rows h)

  seed_missing-knows :
      (rest : List (String × String)) (rows : List RetailerModel)
      → ((slug : String) → knows existing slug ≡ true → knows (slugs rows) slug ≡ true)
      → All (IsKnown (seed_missing E existing rest rows)) rest
  unfolding seed_missing
  seed_missing-knows [] rows h = tt
  seed_missing-knows ((slug, name) ∷ rest) rows h = (
    seed_missing-keeps rest (turn slug name rows) slug (turn-knows slug name rows (h slug)),
    seed_missing-knows rest (turn slug name rows)
        (λ other k. turn-keeps slug name other rows (h other k)),
  )

  seed_missing-none :
      (rest : List (String × String)) (rows : List RetailerModel)
      → All (λ (r : String × String). knows existing r.0 ≡ true) rest
      → seed_missing E existing rest rows ≡ rows
  unfolding seed_missing
  seed_missing-none [] rows h = refl
  seed_missing-none ((slug, name) ∷ rest) rows h = rw h.0 (seed_missing-none rest rows h.1)

-- After the seeding every supported retailer has a row, every slug that had one still has one, and a
-- second seeding changes nothing.
pub ensure_retailers_seeded-twice :
    (E : Engine) (w : World)
    → let seeded = (ensure_retailers_seeded E w).1 in
      All (IsKnown seeded.retailers) supported_retailers
      × ((slug : String)
          → knows (slugs w.retailers) slug ≡ true
          → knows (slugs seeded.retailers) slug ≡ true)
      × (ensure_retailers_seeded E seeded ≡ (ok tt, seeded))
unfolding ensure_retailers_seeded
ensure_retailers_seeded-twice E w =
    let known =
      seed_missing-knows E (slugs w.retailers) supported_retailers w.retailers (λ slug h. h) in
    (
      known,
      λ slug h. seed_missing-keeps E (slugs w.retailers) supported_retailers w.retailers slug h,
      rw
          (seed_missing-none E
            (slugs (seed_missing E (slugs w.retailers) supported_retailers w.retailers))
            supported_retailers _ known)
          refl,
    )
