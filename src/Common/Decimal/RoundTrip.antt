-- ===== src/Common/Decimal/RoundTrip.antt =====
-- `int(str(n))` is `n`.
use Prim.Native.Nat.{ℕ, zero, suc, ◌+◌, ◌-◌, ◌*◌, ◌/◌, ◌%◌, ◌<◌}
use Prim.Native.String.append
use Prim.Native.Char.{code}
use Prim.Native.String.{String, ◌++◌}
use mathlib.Core.Bool.{Bool, true, false}
use mathlib.Core.Option.{Option, none, some}
use mathlib.Core.Path.{◌≡◌, refl, ◌∙◌}
use native.Mathlib.Omega.{arith}
use stock_monitoring.Common.Decimal.{digit, digits, str, scan, parse_int}
use stock_monitoring.Common.Tests.{ltb, ◌==◌, if◌then◌else◌}

abbrev on_some : Option ℕ → (ℕ → Option ℕ) → Option ℕ
on_some none f = none
on_some (some a) f = f a

scan-append : (acc : ℕ) (s t : String) → scan acc (s ++ t) ≡ on_some (scan acc s) (λ a. scan a t)
unfolding scan
scan-append acc String.[] t = rw append.nil refl
scan-append acc (String.◌∷◌ c s) t =
    rw append.cons (ground (arith, scan-append (acc * 10 + (code c - 48)) s t))

scan-digit : (acc d : ℕ) → d < 10 → scan acc (digit d) ≡ some (acc * 10 + d)
unfolding scan digit
scan-digit acc zero h = refl
scan-digit acc (suc zero) h = refl
scan-digit acc (suc (suc zero)) h = refl
scan-digit acc (suc (suc (suc zero))) h = refl
scan-digit acc (suc (suc (suc (suc zero)))) h = refl
scan-digit acc (suc (suc (suc (suc (suc zero))))) h = refl
scan-digit acc (suc (suc (suc (suc (suc (suc zero)))))) h = refl
scan-digit acc (suc (suc (suc (suc (suc (suc (suc zero))))))) h = refl
scan-digit acc (suc (suc (suc (suc (suc (suc (suc (suc zero)))))))) h = refl
scan-digit acc (suc (suc (suc (suc (suc (suc (suc (suc (suc zero))))))))) h = refl
scan-digit acc (suc (suc (suc (suc (suc (suc (suc (suc (suc (suc d)))))))))) h =
    absurd (omega arith)

scan-digits : (f n : ℕ) → n < f → scan 0 (digits f n) ≡ some n
unfolding digits
scan-digits zero n h = absurd (omega arith)
scan-digits (suc f) n h = ground (
  arith,
  scan-append 0 (digits f (n / 10)) (digit (n % 10)),
  scan-digits f (n / 10),
  scan-digit 0 n,
  scan-digit (n / 10) (n % 10),
)

if_ind : {A : Type 0} (P : A → Type 0) (b : Bool) {x y : A} → P x → P y → P (if b then x else y)
if_ind P true h k = h
if_ind P false h k = k

-- A text that `parse_int` reads digit by digit, as it does unless it is empty.
abbrev IsScanned : String → Type 0
IsScanned s = parse_int s ≡ scan 0 s

digit-IsScanned : (d : ℕ) → IsScanned (digit d)
unfolding digit parse_int
digit-IsScanned d = if_ind IsScanned (d == 0) refl (
    if_ind IsScanned (d == 1) refl (
      if_ind IsScanned (d == 2) refl (
        if_ind IsScanned (d == 3) refl (
          if_ind IsScanned (d == 4) refl (
            if_ind IsScanned (d == 5) refl (
              if_ind IsScanned (d == 6) refl
                (if_ind IsScanned (d == 7) refl (if_ind IsScanned (d == 8) refl refl))))))))

append-IsScanned : (s t : String) → IsScanned t → IsScanned (s ++ t)
unfolding parse_int
append-IsScanned String.[] t h = rw append.nil h
append-IsScanned (String.◌∷◌ c s) t h = rw append.cons refl

digits-IsScanned : (f n : ℕ) → n < f → IsScanned (digits f n)
unfolding digits
digits-IsScanned zero n h = absurd (omega arith)
digits-IsScanned (suc f) n h =
    if_ind IsScanned (ltb n 10) (digit-IsScanned n)
      (append-IsScanned (digits f (n / 10)) (digit (n % 10)) (digit-IsScanned (n % 10)))

-- A number is read back from its text.
pub parse_int-str : (n : ℕ) → parse_int (str n) ≡ some n
unfolding str
parse_int-str n = digits-IsScanned (suc n) n (omega arith) ∙ scan-digits (suc n) n (omega arith)
