-- ===== src/Providers/Retries.antt =====
-- How many pages an action opens, retries included.
use stock_monitoring.Common.{ℕ, zero, suc, ◌+◌, ◌*◌, ◌≤◌, ◌≡◌, refl, arith}
use stock_monitoring.Domain.Action.{Action, after_finally, continue, ◌>>=◌}
use stock_monitoring.Domain.Errors.{Result, ok, err}
use stock_monitoring.Providers.Browser.{Tools, Own, attempts, again}
use stock_monitoring.Domain.Keeps.{Keeps}
use stock_monitoring.Providers.Closing.{ReadLaws}

-- `visits` counts the pages that were ever opened: `new_page` adds at most one, and nothing else does.
pub record VisitLaws {V : Type 0} (tools : Tools V) (visits : V → ℕ) : Type 0 where
  pub reads : ReadLaws tools visits
  pub new_page-visits :
      (browser : ℕ) (v : V) → visits (tools.playwright.new_page browser v).1 ≤ visits v + 1
  pub close_page-visits :
      (page : ℕ) (v : V) → visits (tools.playwright.close_page page v).1 ≡ visits v

module _ {V : Type 0} (tools : Tools V) (visits : V → ℕ) (laws : VisitLaws tools visits) where
  open tools use {playwright}

  abbrev pub count : Own V → ℕ
  count w = visits w.1

  -- An action opens at most so many pages.
  pub record Opens {A : Type 0} (n : ℕ) (m : Action (Own V) A) : Type 0 where
    pub at : (w : Own V) → count (m w).1 ≤ count w + n

  pub Keeps-Opens : {A : Type 0} (m : Action (Own V) A) → Keeps count m → Opens 0 m
  Keeps-Opens m km = record { at = λ w. omega (arith, km.at w) }

  pub widen : {A : Type 0} (j n : ℕ) (m : Action (Own V) A) → j ≤ n → Opens j m → Opens n m
  widen j n m le h = record { at = λ w. omega (arith, le, h.at w) }

  -- What follows a call, where its result is known to have a property.
  continue-Opens :
      {A B : Type 0} (n : ℕ) (P : A → Type 0) (r : Result A) (f : A → Action (Own V) B)
      → ((a : A) → r ≡ ok a → P a)
      → ((a : A) → P a → Opens n (f a))
      → Opens n (continue r f)
  continue-Opens n P (ok a) f h k = k a (h a refl)
  continue-Opens n P (err e) f h k = record { at = λ w. omega arith }

  pub bind-Opens :
      {A B : Type 0} (j n : ℕ) (P : A → Type 0) (m : Action (Own V) A) (f : A → Action (Own V) B)
      → Opens j m
      → ((a : A) (w : Own V) → (m w).0 ≡ ok a → P a)
      → ((a : A) → P a → Opens n (f a))
      → Opens (j + n) (m >>= f)
  bind-Opens j n P m f hm h k = record {
    at = λ w. omega (arith, hm.at w, (continue-Opens n P (m w).0 f (λ a. h a w) k).at (m w).1);
  }

  -- The same, where nothing is asked of the result.
  pub then-Opens :
      {A B : Type 0} (j n : ℕ) (m : Action (Own V) A) (f : A → Action (Own V) B)
      → Opens j m
      → ((a : A) → Opens n (f a))
      → Opens (j + n) (m >>= f)
  then-Opens j n m f hm k = bind-Opens j n (λ a. Unit) m f hm (λ a w h. tt) (λ a h. k a)

  again-count :
      {A : Type 0} (k : ℕ) (r next : Result A × Own V)
      → count r.1 ≤ k
      → count next.1 ≤ k
      → count (again r next).1 ≤ k
  again-count k (ok a, w) next h l = h
  again-count k (err e, w) next h l = l

  attempts-Opens :
      {A : Type 0} (k n : ℕ) (m : Action (Own V) A)
      → Opens k m
      → Opens (n * k) (attempts tools.wait m n)
  attempts-Opens k n m hm = record { at = go n }
    where
      go : (n : ℕ) (w : Own V) → count (attempts tools.wait m n w).1 ≤ count w + n * k
      go zero w = omega arith
      go (suc zero) w =
          again-count (count w + 1 * k) (m w) _ (omega (arith, hm.at w)) (omega (arith, hm.at w))
      go (suc (suc n)) w =
          again-count (count w + suc (suc n) * k) (m w) _ (omega (arith, hm.at w))
            (omega (arith, hm.at w, go (suc n) (tools.wait (m w).1), laws.reads.wait-view (m w).1))

  pub retry-Opens :
      {A : Type 0} (k n : ℕ) (m : Action (Own V) A) → Opens k m → Opens (n * k) (tools.retry A n m)
  retry-Opens {A} k n m hm = record {
    at = λ w. rw (tools.retry-eq A n m w) ((attempts-Opens k n m hm).at w);
  }

  pub after_finally-count :
      {A : Type 0} (r : Result A) (x : Result (Unit {0}) × Own V)
      → count (after_finally r x).1 ≡ count x.1
  after_finally-count r (ok _, w) = refl
  after_finally-count r (err e, w) = refl
