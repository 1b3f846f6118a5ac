-- ===== src/Providers/Text.antt =====
-- The texts that the providers read: `strip`, and the regular expressions of `extract_eta` and
-- `_extract_number`.
pub mod RoundTrip
use Prim.Native.Char.{Char, code}
use Prim.Native.String.{◌++◌}
use stock_monitoring.Common.{
  ℕ, ◌+◌, ◌*◌, ◌==◌, String, Bool, true, false, Option, none, some, if◌then◌else◌,
}
use stock_monitoring.Domain.Entities.{Float}

module _ (is_space : Char → Bool) where
  strip_left : String → String
  strip_left String.[] = ""
  strip_left (String.◌∷◌ c s) = if is_space c then strip_left s else String.◌∷◌ c s

  -- What is kept of a text whose end is stripped: a space stays if something follows it.
  keep_char : Char → String → String
  keep_char c String.[] = if is_space c then "" else String.◌∷◌ c ""
  keep_char c (String.◌∷◌ d s) = String.◌∷◌ c (String.◌∷◌ d s)

  strip_right : String → String
  strip_right String.[] = ""
  strip_right (String.◌∷◌ c s) = keep_char c (strip_right s)

  -- `s.strip()`
  unfoldable pub strip : String → String
  unfolding strip_left strip_right keep_char
  strip s = strip_right (strip_left s)

-- `s.replace(",", "")`
unfoldable pub remove_commas : String → String
remove_commas String.[] = ""
remove_commas (String.◌∷◌ c s) =
    if code c == 44 then remove_commas s else String.◌∷◌ c (remove_commas s)

module _ (digit_value : Char → Option ℕ) where
  -- The number that goes on with the digits at the head of a text.
  unfoldable pub take_int : ℕ → String → ℕ
  take_int acc String.[] = acc
  take_int acc (String.◌∷◌ c s) = elim (digit_value c) [
    | none ↦ acc
    | some d ↦ take_int (acc * 10 + d) s
  ]

  -- `re.search(r"(\d+)", s)`, and `int` of the group.
  unfoldable pub search_int : String → Option ℕ
  unfolding take_int
  search_int String.[] = none
  search_int (String.◌∷◌ c s) = elim (digit_value c) [
    | none ↦ search_int s
    | some d ↦ some (take_int d s)
  ]

  -- The digits at the head of a text.
  take_digits : String → String
  take_digits String.[] = ""
  take_digits (String.◌∷◌ c s) = elim (digit_value c) [
    | none ↦ ""
    | some d ↦ String.◌∷◌ c (take_digits s)
  ]

  -- `\.?\d*` at the head of what follows the digits.
  take_fraction : String → String
  take_fraction String.[] = ""
  take_fraction (String.◌∷◌ c s) = if code c == 46 then String.◌∷◌ c (take_digits s) else ""

  -- The digits at the head of a text, and the fraction that follows them.
  take_number : String → String
  take_number String.[] = ""
  take_number (String.◌∷◌ c s) = elim (digit_value c) [
    | none ↦ take_fraction (String.◌∷◌ c s)
    | some d ↦ String.◌∷◌ c (take_number s)
  ]

  -- The match of `re.search(r"[\d,]+\.?\d*", s)` in a text without commas.
  unfoldable pub search_number : String → Option String
  unfolding take_number take_fraction take_digits
  search_number String.[] = none
  search_number (String.◌∷◌ c s) = elim (digit_value c) [
    | none ↦ search_number s
    | some d ↦ some (String.◌∷◌ c (take_number s))
  ]
