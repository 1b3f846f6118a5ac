-- ===== src/Notification/Keys.antt =====
-- The key of an alert tells its user.
use Prim.Native.Char.{Char, code}
use Prim.Native.String.append
use stock_monitoring.Common.Decimal.RoundTrip.{parse_int-str}
use stock_monitoring.Common.{
  ℕ, false, ◌==◌, ◌&&◌, leb, Bool-cases, Option, none, some, inl, inr, if◌then◌else◌, str_eq,
  str_eq_iff, ◌≡◌, refl, sym, ap, ◌∙◌, arith, ◌-◌,
}
use stock_monitoring.Common.Decimal.{str}
use stock_monitoring.Domain.Entities.{DetectionEvent}
use stock_monitoring.Notification.Service.{dedup_key}
use stock_monitoring.Providers.Text.{search_int}
use stock_monitoring.Providers.Text.RoundTrip.{search_int-parse_int}

-- The ten digits by their codes.
abbrev ascii_digit : Char → Option ℕ
ascii_digit c = if leb 48 (code c) && leb (code c) 57 then some (code c - 48) else none

-- The user whose alert a key stands for is the number that it begins with.
search_int-dedup_key :
    (u : ℕ) (event : DetectionEvent) → search_int ascii_digit (dedup_key u event) ≡ some u
unfolding dedup_key
search_int-dedup_key u event =
    search_int-parse_int ascii_digit u (str u) _ (λ c h k. ground arith) (rw append.cons refl)
      (parse_int-str u)

pub dedup_key-other :
    (u v : ℕ) (event : DetectionEvent)
    → (u == v) ≡ false
    → str_eq (dedup_key u event) (dedup_key v event) ≡ false
dedup_key-other u v event h = elim (Bool-cases (str_eq (dedup_key u event) (dedup_key v event))) [
  | inl e ↦ absurd (
      ground (
        arith,
        h,
        sym (search_int-dedup_key u event)
            ∙ (ap (search_int ascii_digit)
                  ((str_eq_iff (dedup_key u event) (dedup_key v event)).0 e)
                ∙ search_int-dedup_key v event),
      ))
  | inr e ↦ e
]
