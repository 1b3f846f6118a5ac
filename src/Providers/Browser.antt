-- ===== src/Providers/Browser.antt =====
-- What the providers use of Playwright and tenacity, which this repository does not hold: a
-- parameter. An object of the libraries is a number, its identity.
use Prim.Native.Char.{Char}
use stock_monitoring.Common.{Bool, zero, suc, ◌≡◌, ℕ, String, Option, List}
use stock_monitoring.Domain.Action.{Action}
use stock_monitoring.Domain.Entities.{Datetime, Float}
use stock_monitoring.Domain.Errors.{Result, ok, err, retry_error}

-- `goto` waits for "domcontentloaded"; timeouts are in milliseconds.
pub record Playwright (V : Type 0) : Type 0 where
  pub start : Action V ℕ
  pub launch : ℕ → Action V ℕ
  pub new_page : ℕ → Action V ℕ
  pub goto : ℕ → String → ℕ → Action V (Unit {0})
  pub click : ℕ → String → ℕ → Action V (Unit {0})
  pub fill : ℕ → String → String → Action V (Unit {0})
  pub wait_for_selector : ℕ → String → ℕ → Action V (Unit {0})
  pub query_selector : ℕ → String → Action V (Option ℕ)
  pub query_selector_all : ℕ → String → Action V (List ℕ)
  pub inner_text : ℕ → Action V String
  pub get_attribute : ℕ → String → Action V (Option String)
  pub close_page : ℕ → Action V (Unit {0})
  pub close_browser : ℕ → Action V (Unit {0})
  pub stop : ℕ → Action V (Unit {0})

-- `self._playwright` and `self._browser` of a provider.
pub record Handles : Type 0 where
  pub playwright : Option ℕ
  pub browser : Option ℕ

-- A provider's own state, beside the state of the library.
abbrev pub Own : Type 0 → Type 0
Own V = Handles × V

module _ {V : Type 0} where
  abbrev pub on_page : {A : Type 0} → Action V A → Action (Own V) A
  on_page m (h, v) = let (r, v') = m v in (r, (h, v'))

  abbrev pub get_handles : Action (Own V) Handles
  get_handles (h, v) = (ok h, (h, v))

  abbrev pub set_handles : Handles → Action (Own V) (Unit {0})
  set_handles h (_, v) = (ok tt, (h, v))

-- The outcome of an attempt if it did not raise, and otherwise what comes after it.
abbrev pub again : {W A : Type 0} → Result A × W → Result A × W → Result A × W
again (ok a, w) next = (ok a, w)
again (err e, w) next = next

-- `stop_after_attempt(n)` with an exponential wait, as documented: the call is repeated after a wait
-- until it does not raise, at most `n` times in all; then a `RetryError` is raised.
module _ {W A : Type 0} (wait : W → W) (m : Action W A) where
  abbrev pub attempts : ℕ → Action W A
  attempts zero w = (err retry_error, w)
  attempts (suc zero) w = let (r, w') = m w in again (r, w') (err retry_error, w')
  attempts (suc (suc n)) w =
      let (r, w') = m w in let next = attempts (suc n) (wait w') in again (r, w') next

-- The libraries, and Python's own on texts and floats. `discount` is
-- `round((1 - price / mrp) * 100, 1)`.
pub record Tools (V : Type 0) : Type 1 where
  pub playwright : Playwright V
  pub wait : Own V → Own V
  pub retry : (A : Type 0) → ℕ → Action (Own V) A → Action (Own V) A
  pub retry-eq :
      (A : Type 0) (n : ℕ) (m : Action (Own V) A) (w : Own V) → retry A n m w ≡ attempts wait m n w
  pub utcnow : Action V Datetime
  pub is_space : Char → Bool
  -- The value of a character that `\d` matches.
  pub digit_value : Char → Option ℕ
  pub float : String → Float
  pub discount : Float → Float → Float
