-- ===== src/Auth/Attempts.antt =====
-- What verification does to the newest challenge of a phone number: it can be used once, and only a
-- bounded number of wrong codes can be tried.
use stock_monitoring.Common.{
  ℕ, ◌+◌, ◌≤◌, String, Bool, true, false, Bool-cases, inl, inr, List, [], ◌∷◌, All, length, ◌≡◌,
  refl, arith,
}
use stock_monitoring.Auth.Service.{AuthService, Jwt, Hash, verify_otp, is_unusable, verify_otp_code}
use stock_monitoring.Auth.Wiring.{auth_service}
use stock_monitoring.Domain.Action.{Action}
use stock_monitoring.Domain.Entities.{TokenPair}
use stock_monitoring.Domain.Errors.{Result, err, invalid_otp}
use stock_monitoring.Storage.Engine.{Engine}
use stock_monitoring.Storage.OtpChallenges.{to_otp_challenge, increment_attempt}
use stock_monitoring.Storage.OtpChallenges.Latest.{
  IsLatest, get_latest-eq, change-eq, changed, changed-IsLatest, with_challenges,
}
use stock_monitoring.Storage.Rows.{OtpChallengeModel}
use stock_monitoring.Storage.World.{World}

abbrev pub consume : OtpChallengeModel → OtpChallengeModel
consume m = record m { consumed = true }

abbrev pub count_attempt : OtpChallengeModel → OtpChallengeModel
count_attempt m = record m { attempt_count = m.attempt_count + 1 }

module _ (E : Engine) (jwt : Jwt) (hash : Hash) (randbelow : Action World ℕ)
    (access_minutes refresh_days : ℕ) (phone : String) where
  abbrev pub service : AuthService World
  service = auth_service E jwt hash randbelow access_minutes refresh_days

  abbrev pub verify : String → World → Result TokenPair × World
  verify code w = verify_otp service phone code w

  abbrev pub unusable : World → OtpChallengeModel → Bool
  unusable w c = is_unusable 5 w.now (to_otp_challenge c)

  module _ {c : OtpChallengeModel} (w : World) (latest : IsLatest phone c w.otp_challenges) where
    pub verify_otp-unusable :
        (code : String) → unusable w c ≡ true → verify code w ≡ (err invalid_otp, w)
    unfolding verify_otp
    verify_otp-unusable code e = rw (get_latest-eq E w latest, e)

    -- A wrong code for a usable challenge is refused and counted, and nothing else changes.
    pub verify_otp-wrong :
        (code : String)
        → unusable w c ≡ false
        → verify_otp_code hash code c.code_hash ≡ false
        → verify code w
          ≡ (err invalid_otp, with_challenges (changed count_attempt c w.otp_challenges) w)
    unfolding verify_otp increment_attempt
    verify_otp-wrong code e wrong =
        rw (get_latest-eq E w latest, e, wrong, change-eq count_attempt c E w latest)

  -- The codes of a list, tried one after the other.
  unfoldable pub try_all : List String → World → World
  try_all [] w = w
  try_all (code ∷ codes) w = try_all codes ((verify code w).1)

  abbrev pub IsWrong : OtpChallengeModel → String → Type 0
  IsWrong c code = verify_otp_code hash code c.code_hash ≡ false

  try_all-unusable :
      (codes : List String) {c : OtpChallengeModel} (w : World)
      → IsLatest phone c w.otp_challenges
      → unusable w c ≡ true
      → try_all codes w ≡ w
  unfolding try_all
  try_all-unusable [] w latest e = refl
  try_all-unusable (code ∷ codes) w latest e =
      rw (verify_otp-unusable w latest code e) (try_all-unusable codes w latest e)

  spent : (c : OtpChallengeModel) (w : World) → 5 ≤ c.attempt_count → unusable w c ≡ true
  spent c w h = ground arith

  -- Within the service, once so many wrong codes have been tried for the newest challenge of a phone
  -- number that it has at least five attempts, every code is refused, the right one included, and
  -- that changes nothing.
  pub verify_otp-try_all :
      (codes : List String) {c : OtpChallengeModel} (w : World)
      → IsLatest phone c w.otp_challenges
      → All (IsWrong c) codes
      → 5 ≤ c.attempt_count + length codes
      → (code : String) → verify code (try_all codes w) ≡ (err invalid_otp, try_all codes w)
  unfolding try_all
  verify_otp-try_all [] {c} w latest wrong enough code =
      verify_otp-unusable w latest code (spent c w (omega arith))
  verify_otp-try_all (first ∷ codes) {c} w latest wrong enough code =
      elim (Bool-cases (unusable w c)) [
        | inl e ↦
            rw (try_all-unusable (first ∷ codes) w latest e) (verify_otp-unusable w latest code e)
        | inr e ↦ rw (verify_otp-wrong w latest first e (wrong.0)) (
            verify_otp-try_all codes (with_challenges (changed count_attempt c w.otp_challenges) w)
              (changed-IsLatest count_attempt c (λ m. refl) (λ m. refl) (λ m. refl) latest)
              (wrong.1) (omega arith) code)
      ]
