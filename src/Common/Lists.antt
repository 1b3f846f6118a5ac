-- ===== src/Common/Lists.antt =====
-- Lists by native numbers and Boolean tests, under the library's names, and predicates on them.
use Prim.Native.Nat.{ℕ, zero, suc, ◌+◌}
use mathlib.Core.Path.{◌≡◌, refl, ap}
use mathlib.Core.Logic.{◌⊎◌, inl, inr}
use mathlib.Core.Bool.{not, Bool, true, false, ◌||◌}
use mathlib.Core.List.{List, [], ◌∷◌, ◌++◌, map}
use native.Mathlib.Omega.{arith}
use stock_monitoring.Common.Tests.{if◌then◌else◌}

module _ {ℓ} {A : Type ℓ} where
  abbrev pub length : List A → ℕ
  length [] = 0
  length (x ∷ xs) = suc (length xs)

  -- The rows that pass a test, in order.
  abbrev pub filter : (A → Bool) → List A → List A
  filter p [] = []
  filter p (x ∷ xs) = if p x then x ∷ filter p xs else filter p xs

  abbrev pub any : (A → Bool) → List A → Bool
  any p [] = false
  any p (x ∷ xs) = p x || any p xs

  abbrev pub take : ℕ → List A → List A
  take zero xs = []
  take (suc n) [] = []
  take (suc n) (x ∷ xs) = x ∷ take n xs

  -- Every element has the property.
  abbrev pub All {κ} : (A → Type κ) → List A → Type κ
  All P [] = Unit
  All P (x ∷ xs) = P x × All P xs

  pub length-append : (xs ys : List A) → length (xs ++ ys) ≡ length xs + length ys
  length-append [] ys = omega arith
  length-append (x ∷ xs) ys = omega (arith, length-append xs ys)

  pub filter-append :
      (p : A → Bool) (xs ys : List A) → filter p (xs ++ ys) ≡ filter p xs ++ filter p ys
  filter-append p [] ys = refl
  filter-append p (x ∷ xs) ys = ground (arith, filter-append p xs ys)

  pub any-append : (p : A → Bool) (xs ys : List A) → any p (xs ++ ys) ≡ (any p xs || any p ys)
  any-append p [] ys = refl
  any-append p (x ∷ xs) ys = ground (arith, any-append p xs ys)

  -- What passes the test is what the filter keeps.
  pub filter-eq-nil : (p : A → Bool) (xs : List A) → any p xs ≡ false → filter p xs ≡ []
  filter-eq-nil p [] h = refl
  filter-eq-nil p (x ∷ xs) h = ground (arith, filter-eq-nil p xs)

  -- An UPDATE: `f` on the rows that pass the test.
  abbrev pub update_if : (A → Bool) → (A → A) → List A → List A
  update_if p f [] = []
  update_if p f (x ∷ xs) = (if p x then f x else x) ∷ update_if p f xs

  pub filter-filter_comm :
      (p q : A → Bool) (xs : List A) → filter p (filter q xs) ≡ filter q (filter p xs)
  filter-filter_comm p q [] = refl
  filter-filter_comm p q (x ∷ xs) = ground (arith, filter-filter_comm p q xs)

  -- A change that a test does not see may be made before the test or after it.
  pub filter-update_if :
      (p q : A → Bool) (f : A → A) (xs : List A)
      → ((x : A) → p (f x) ≡ p x)
      → filter p (update_if q f xs) ≡ update_if q f (filter p xs)
  filter-update_if p q f [] h = refl
  filter-update_if p q f (x ∷ xs) h = ground (arith, h x, filter-update_if p q f xs h)

  -- Rows outside the change stay as they are.
  pub filter-update_if_other :
      (p q : A → Bool) (f : A → A) (xs : List A)
      → ((x : A) → p (f x) ≡ p x)
      → ((x : A) → q x ≡ true → p x ≡ false)
      → filter p (update_if q f xs) ≡ filter p xs
  filter-update_if_other p q f [] h k = refl
  filter-update_if_other p q f (x ∷ xs) h k =
      ground (arith, h x, k x, filter-update_if_other p q f xs h k)

  pub length-update_if :
      (q : A → Bool) (f : A → A) (xs : List A) → length (update_if q f xs) ≡ length xs
  length-update_if q f [] = refl
  length-update_if q f (x ∷ xs) = ap suc (length-update_if q f xs)

  pub update_if-append :
      (q : A → Bool) (f : A → A) (xs ys : List A)
      → update_if q f (xs ++ ys) ≡ update_if q f xs ++ update_if q f ys
  update_if-append q f [] ys = refl
  update_if-append q f (x ∷ xs) ys =
      ap (λ l. (if q x then f x else x) ∷ l) (update_if-append q f xs ys)

module _ {ℓ κ} {A : Type ℓ} {B : Type κ} where
  pub filter-map :
      (p : B → Bool) (f : A → B) (xs : List A)
      → filter p (map f xs) ≡ map f (filter (λ x. p (f x)) xs)
  filter-map p f [] = refl
  filter-map p f (x ∷ xs) = ground (arith, filter-map p f xs)

  pub any-map : (p : B → Bool) (f : A → B) (xs : List A) → any p (map f xs) ≡ any (λ x. p (f x)) xs
  any-map p f [] = refl
  any-map p f (x ∷ xs) = rw (any-map p f xs) refl

module _ {ℓ κ μ} {A : Type ℓ} {P : A → Type κ} {Q : A → Type μ} where
  pub All-map : (xs : List A) → ((x : A) → P x → Q x) → All P xs → All Q xs
  All-map [] f all = tt
  All-map (x ∷ xs) f (p, all) = (f x p, All-map xs f all)

module _ {ℓ} {A : Type ℓ} where
  -- No row, one row or more.
  pub List-cases :
      (xs : List A)
      → (xs ≡ [])
        ⊎ (((x : A) × (xs ≡ x ∷ [])) ⊎ ((x : A) × (y : A) × (ys : List A) × (xs ≡ x ∷ y ∷ ys)))
  List-cases [] = inl refl
  List-cases (x ∷ []) = inr (inl (x, refl))
  List-cases (x ∷ y ∷ ys) = inr (inr (x, y, ys, refl))

  -- Where no row passes the test, an update and a delete do nothing.
  pub update_if-none :
      (q : A → Bool) (f : A → A) (xs : List A) → filter q xs ≡ [] → update_if q f xs ≡ xs
  update_if-none q f [] h = refl
  update_if-none q f (x ∷ xs) h = ground (arith, update_if-none q f xs)

  pub filter-not_none :
      (q : A → Bool) (xs : List A) → filter q xs ≡ [] → filter (λ x. not (q x)) xs ≡ xs
  filter-not_none q [] h = refl
  filter-not_none q (x ∷ xs) h = ground (arith, filter-not_none q xs)

  -- If one row passes a test and fails another, no row passes both.
  pub filter-filter_none :
      (p q : A → Bool) (xs : List A) {x : A}
      → filter q xs ≡ x ∷ []
      → p x ≡ false
      → filter q (filter p xs) ≡ []
  filter-filter_none p q xs h k = rw (filter-filter_comm q p xs, h, k) refl
