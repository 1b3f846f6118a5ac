-- ===== src/Auth/OneTime.antt =====
-- A code that was accepted is used up.
use stock_monitoring.Common.{
  arith, Option-cases, sym, subst, ℕ, String, true, false, inl, inr, ◌≡◌, refl,
}
use stock_monitoring.Auth.Attempts.{service, verify, unusable, verify_otp-unusable, consume}
use stock_monitoring.Auth.Service.{
  AuthService, accept_code, Jwt, Hash, verify_otp, verify_otp_code, issue_pair,
}
use stock_monitoring.Domain.Action.{◌>>=◌, require, continue, Action}
use stock_monitoring.Domain.Entities.{User}
use stock_monitoring.Domain.Errors.{assertion_error, Result, ok, err, invalid_otp}
use stock_monitoring.Storage.Engine.{Engine}
use stock_monitoring.Storage.OtpChallenges.{mark_consumed}
use stock_monitoring.Storage.OtpChallenges.Latest.{
  IsLatest, get_latest-eq, change-eq, changed, changed-IsLatest,
}
use stock_monitoring.Storage.Rows.{OtpChallengeModel}
use stock_monitoring.Storage.Users.{get_or_create_by_phone}
use stock_monitoring.Storage.World.{World}

-- Finding or making a user leaves the challenges alone.
get_or_create_by_phone-otp_challenges :
    (E : Engine) (phone : String) (w : World)
    → ((get_or_create_by_phone E phone w).1).otp_challenges ≡ w.otp_challenges
unfolding get_or_create_by_phone
get_or_create_by_phone-otp_challenges E phone w = ground arith

module _ (E : Engine) (jwt : Jwt) (hash : Hash) (randbelow : Action World ℕ)
    (access_minutes refresh_days : ℕ) (phone : String) where
  abbrev here : AuthService World
  here = service E jwt hash randbelow access_minutes refresh_days phone

  -- The user that the service found or made gets the pair without a write.
  issue_for-state :
      (r : Result User) (w : World)
      → (continue r
          (λ user. require assertion_error user.id >>= λ user_id. issue_pair here user_id)
          w).1
        ≡ w
  unfolding issue_pair
  issue_for-state (err e) w = refl
  issue_for-state (ok user) w = elim (Option-cases user.id) [
    | inl e ↦ rw e refl
    | inr (i, e) ↦ rw e refl
  ]

  -- After the mark, the challenges stay as they are.
  accept_code-otp_challenges :
      (challenge_id : ℕ) (w w1 : World)
      → mark_consumed E challenge_id w ≡ (ok tt, w1)
      → (accept_code here phone challenge_id w).1.otp_challenges ≡ w1.otp_challenges
  unfolding accept_code
  accept_code-otp_challenges challenge_id w w1 marked =
      rw (marked, issue_for-state) (get_or_create_by_phone-otp_challenges E phone w1)

  module _ {c : OtpChallengeModel} (w : World) (latest : IsLatest phone c w.otp_challenges) where
    verify_otp-right :
        (code : String)
        → unusable E jwt hash randbelow access_minutes refresh_days phone w c ≡ false
        → verify_otp_code hash code c.code_hash ≡ true
        → verify_otp here phone code w ≡ accept_code here phone c.id w
    unfolding verify_otp
    verify_otp-right code usable right = rw (get_latest-eq E w latest, usable, right) refl

    -- Once the right code has been accepted for a usable challenge that is the newest of its phone
    -- number, every code that is tried next is refused, the same one included, and that changes
    -- nothing.
    pub verify_otp-once :
        (code : String)
        → unusable E jwt hash randbelow access_minutes refresh_days phone w c ≡ false
        → verify_otp_code hash code c.code_hash ≡ true
        → (again : String)
        → let w' = (verify E jwt hash randbelow access_minutes refresh_days phone code w).1 in
          verify E jwt hash randbelow access_minutes refresh_days phone again w'
          ≡ (err invalid_otp, w')
    unfolding mark_consumed
    verify_otp-once code usable right again = rw (verify_otp-right code usable right) (
        verify_otp-unusable E jwt hash randbelow access_minutes refresh_days phone {c = consume c} _
          (subst (IsLatest phone (consume c)) (sym e)
            (changed-IsLatest consume c (λ m. refl) (λ m. refl) (λ m. refl) latest))
          again refl)
      where
        e : (accept_code here phone c.id w).1.otp_challenges ≡ changed consume c w.otp_challenges
        e = accept_code-otp_challenges c.id w _ (change-eq consume c E w latest)
