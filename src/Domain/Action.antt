-- ===== src/Domain/Action.antt =====
-- A method that reads and writes state outside it and may raise: the state comes back beside an
-- error too, since what was written before a raise stays written until a rollback.
use stock_monitoring.Common.{Bool, Option, none, some, if◌then◌else◌, ◌≡◌, refl}
use stock_monitoring.Domain.Errors.{and_then, Error, Result, ok, err}

abbrev pub Action : Type 0 → Type 0 → Type 0
Action W A = W → Result A × W

module _ {W A : Type 0} where
  abbrev pub pure : A → Action W A
  pure a w = (ok a, w)

  abbrev pub raise : Error → Action W A
  raise e w = (err e, w)

  abbrev pub gets : (W → A) → Action W A
  gets f w = (ok (f w), w)

  abbrev pub lift : Result A → Action W A
  lift r w = (r, w)

  abbrev pub require : Error → Option A → Action W A
  require e none = raise e
  require e (some a) = pure a

module _ {W : Type 0} where
  abbrev pub modify : (W → W) → Action W (Unit {0})
  modify f w = (ok tt, f w)

  abbrev pub raise_if : Bool → Error → Action W (Unit {0})
  raise_if b e w = (if b then err e else ok tt, w)

  abbrev pub when : Bool → Action W (Unit {0}) → Action W (Unit {0})
  when b m = if b then m else pure tt

-- What follows a call: a raise goes past it.
abbrev pub continue : {W A B : Type 0} → Result A → (A → Action W B) → Action W B
continue (ok a) f w = f a w
continue (err e) f w = (err e, w)

infixl 5 ◌>>=◌ ◌>>◌
abbrev pub ◌>>=◌ : {W A B : Type 0} → Action W A → (A → Action W B) → Action W B
◌>>=◌ m f w = let (r, w') = m w in continue r f w'

abbrev pub ◌>>◌ : {W A B : Type 0} → Action W A → Action W B → Action W B
m >> k = m >>= λ _. k

-- `try: m finally: k`. What `k` raises goes before what `m` returns or raises.
abbrev pub after_finally : {W A : Type 0} → Result A → Result (Unit {0}) × W → Result A × W
after_finally r (ok _, w) = (r, w)
after_finally r (err e, w) = (err e, w)

abbrev pub finally : {W A : Type 0} → Action W A → Action W (Unit {0}) → Action W A
finally m k w = let (r, w') = m w in after_finally r (k w')

-- A call whose outcome is known goes on from there.
pub >>=-ok :
    {W A B : Type 0} (m : Action W A) (f : A → Action W B) {w w' : W} {a : A}
    → m w ≡ (ok a, w')
    → (m >>= f) w ≡ f a w'
>>=-ok m f h = rw h refl

-- A read goes on in the same state.
pub continue-lift :
    {W A B : Type 0} (r : Result A) (f : A → Result B) (w : W)
    → continue r (λ a. lift (f a)) w ≡ (and_then r f, w)
continue-lift (ok a) f w = refl
continue-lift (err e) f w = refl
