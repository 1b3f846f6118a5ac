-- ===== src/Providers/Text/RoundTrip.antt =====
-- The number that a page writes is the number that a provider reads.
use Prim.Native.Char.{Char, code}
use Prim.Native.String.append
use Prim.Native.String.{◌++◌}
use stock_monitoring.Common.{
  ap, inr, inl, Bool-cases, ℕ, ◌+◌, ◌-◌, ◌*◌, ◌≤◌, leb, String, Bool, true, false, ◌&&◌, Option,
  none, some, ◌≡◌, refl, ◌∙◌, arith,
}
use stock_monitoring.Common.Decimal.{str, scan, parse_int}
use stock_monitoring.Common.Decimal.RoundTrip.{parse_int-str}
use stock_monitoring.Providers.Text.{take_int, search_int}

module _ (digit_value : Char → Option ℕ) where
  abbrev pub is_digit : Char → Bool
  is_digit c = elim (digit_value c) [ none ↦ false | some d ↦ true ]

  -- No character of the text is a digit.
  abbrev pub HasNoDigit : String → Type 0
  HasNoDigit String.[] = Unit
  HasNoDigit (String.◌∷◌ c s) = (digit_value c ≡ none) × HasNoDigit s

  -- The text does not begin with a digit.
  abbrev pub EndsNumber : String → Type 0
  EndsNumber String.[] = Unit
  EndsNumber (String.◌∷◌ c s) = digit_value c ≡ none

  -- The digits `0` to `9` have their values, as `int` documents it.
  abbrev pub ReadsDigits : Type 0
  ReadsDigits = (c : Char) → 48 ≤ code c → code c ≤ 57 → digit_value c ≡ some (code c - 48)

  search_int-append :
      (before s : String)
      → HasNoDigit before
      → search_int digit_value (before ++ s) ≡ search_int digit_value s
  unfolding search_int
  search_int-append String.[] s h = rw append.nil refl
  search_int-append (String.◌∷◌ c before) s (hc, h) =
      rw (append.cons, search_int, hc) (search_int-append before s h)

  take_int-after :
      (acc : ℕ) (after : String) → EndsNumber after → take_int digit_value acc after ≡ acc
  unfolding take_int
  take_int-after acc String.[] h = refl
  take_int-after acc (String.◌∷◌ c after) h = rw (take_int, h) refl

  take_int-scan :
      (acc n : ℕ) (s after : String)
      → ReadsDigits
      → EndsNumber after
      → scan acc s ≡ some n
      → take_int digit_value acc (s ++ after) ≡ n
  unfolding take_int scan
  take_int-scan acc n String.[] after reads ends h =
      rw append.nil (take_int-after acc after ends ∙ ground (arith, h))
  take_int-scan acc n (String.◌∷◌ c s) after reads ends h =
      elim (Bool-cases (leb 48 (code c) && leb (code c) 57)) [
        | inl e ↦
            rw (append.cons, take_int, reads c (ground (arith, e)) (ground (arith, e)))
              (take_int-scan (acc * 10 + (code c - 48)) n s after reads ends (ground (arith, h, e)))
        | inr e ↦ absurd (ground (arith, h, e))
      ]

  -- What `parse_int` reads is found where it stands at the head of a text.
  pub search_int-parse_int :
      (n : ℕ) (s after : String)
      → ReadsDigits
      → EndsNumber after
      → parse_int s ≡ some n
      → search_int digit_value (s ++ after) ≡ some n
  unfolding search_int parse_int scan
  search_int-parse_int n String.[] after reads ends h = absurd (ground (arith, h))
  search_int-parse_int n (String.◌∷◌ c s) after reads ends h =
      elim (Bool-cases (leb 48 (code c) && leb (code c) 57)) [
        | inl e ↦
            rw (append.cons, search_int, reads c (ground (arith, e)) (ground (arith, e)))
              (ap some (take_int-scan (code c - 48) n s after reads ends (ground (arith, h, e))))
        | inr e ↦ absurd (ground (arith, h, e))
      ]

  -- If `int` reads the ten digits as documented: the number that `extract_eta` finds in a text that
  -- writes `n` in decimal after a text without digits, and before one that is empty or begins with
  -- something else than a digit, is `n`.
  pub search_int-str :
      (n : ℕ) (before after : String)
      → ReadsDigits
      → HasNoDigit before
      → EndsNumber after
      → search_int digit_value (before ++ (str n ++ after)) ≡ some n
  search_int-str n before after reads none_before ends =
      search_int-append before (str n ++ after) none_before
      ∙ search_int-parse_int n (str n) after reads ends (parse_int-str n)
