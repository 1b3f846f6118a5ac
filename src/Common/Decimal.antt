-- ===== src/Common/Decimal.antt =====
-- Python's `str` of an `int` that is not negative, its decimal digits, and `int` of a text.
pub mod RoundTrip
use Prim.Native.Char.{code}
use Prim.Native.Nat.{ℕ, zero, suc, ◌+◌, ◌-◌, ◌*◌, ◌/◌, ◌%◌}
use Prim.Native.String.{String, ◌++◌}
use mathlib.Core.Bool.{◌&&◌}
use mathlib.Core.Option.{Option, none, some}
use mathlib.Core.Path.{◌≡◌, refl}
use stock_monitoring.Common.Tests.{ltb, leb, ◌==◌, if◌then◌else◌}

digit : ℕ → String
digit d =
    if d == 0
    then "0"
    else if d == 1
    then "1"
    else if d == 2
    then "2"
    else if d == 3
    then "3"
    else if d == 4
    then "4"
    else if d == 5
    then "5"
    else if d == 6
    then "6"
    else if d == 7
    then "7"
    else if d == 8
    then "8"
    else "9"

-- A number has fewer digits than its successor, which is the fuel.
digits : ℕ → ℕ → String
digits zero n = ""
digits (suc f) n =
    let more = digits f (n / 10) ++ digit (n % 10) in if ltb n 10 then digit n else more

unfoldable pub str : ℕ → String
unfolding digits digit
str n = digits (suc n) n

-- Python reads signs, spaces and underscores too; no text of `str` has them.
unfoldable pub scan : ℕ → String → Option ℕ
scan acc String.[] = some acc
scan acc (String.◌∷◌ c s) =
    let rest = scan (acc * 10 + (code c - 48)) s in
    if leb 48 (code c) && leb (code c) 57 then rest else none

unfoldable pub parse_int : String → Option ℕ
unfolding scan
parse_int String.[] = none
parse_int (String.◌∷◌ c s) = scan 0 (String.◌∷◌ c s)

str_example : str 9070 ≡ "9070"
unfolding str
str_example = refl

parse_int_example : parse_int "9070" ≡ some 9070
unfolding parse_int
parse_int_example = refl
