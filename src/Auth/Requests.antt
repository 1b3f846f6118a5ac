-- ===== src/Auth/Requests.antt =====
-- `POST /api/v1/auth/otp/verify` of backend/app/api/routers/auth.py: the service inside the session
-- of the request.
use stock_monitoring.Common.{ℕ, String, List, [], ◌∷◌, All, ◌≡◌, refl, Bool-cases, inl, inr}
use stock_monitoring.Auth.Attempts.{
  service, unusable, IsWrong, verify_otp-unusable, verify_otp-wrong,
}
use stock_monitoring.Auth.Service.{Jwt, Hash, verify_otp}
use stock_monitoring.Domain.Action.{Action}
use stock_monitoring.Domain.Entities.{TokenPair}
use stock_monitoring.Storage.Engine.{Engine}
use stock_monitoring.Storage.OtpChallenges.Latest.{IsLatest}
use stock_monitoring.Storage.Rows.{OtpChallengeModel}
use stock_monitoring.Storage.Session.{in_session}
use stock_monitoring.Storage.World.{World}

module _ (E : Engine) (jwt : Jwt) (hash : Hash) (randbelow : Action World ℕ)
    (access_minutes refresh_days : ℕ) (phone : String) where
  unfoldable pub post_verify : String → Action World TokenPair
  post_verify code =
      in_session
        (verify_otp (service E jwt hash randbelow access_minutes refresh_days phone) phone code)

  -- Requests with the codes of a list, one after the other.
  unfoldable pub post_all : List String → World → World
  post_all [] w = w
  post_all (code ∷ codes) w = post_all codes ((post_verify code w).1)

  -- However many requests with wrong codes come in for the newest challenge of a phone number, they
  -- leave the world as it was: the rollback undoes the count of attempts.
  pub post_all-wrong :
      (codes : List String) {c : OtpChallengeModel} (w : World)
      → IsLatest phone c w.otp_challenges
      → All (IsWrong E jwt hash randbelow access_minutes refresh_days phone c) codes
      → post_all codes w ≡ w
  unfolding post_all post_verify in_session
  post_all-wrong [] w latest wrong = refl
  post_all-wrong (code ∷ codes) {c} w latest wrong =
      elim (Bool-cases (unusable E jwt hash randbelow access_minutes refresh_days phone w c)) [
        | inl e ↦
            rw
              (verify_otp-unusable E jwt hash randbelow access_minutes refresh_days phone w latest
                code e)
              (post_all-wrong codes w latest wrong.1)
        | inr e ↦
            rw
              (verify_otp-wrong E jwt hash randbelow access_minutes refresh_days phone w latest code
                e wrong.0)
              (post_all-wrong codes w latest wrong.1)
      ]
