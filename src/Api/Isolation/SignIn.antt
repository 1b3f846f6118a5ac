-- ===== src/Api/Isolation/SignIn.antt =====
-- Signing in, and telling whose request it is: the rows that belong to users stay as they are.
use stock_monitoring.Common.{
  ℕ, ◌+◌, update_if, true, String, ◌==◌, str_eq, leb, Option, none, some, if◌then◌else◌, filter,
  take, ◌≡◌, refl,
}
use stock_monitoring.Api.App.{PublicRoute, handle_public}
use stock_monitoring.Api.Main.{health}
use stock_monitoring.Auth.Routes as Routes
use stock_monitoring.Auth.Service.{
  generate_otp_code, seconds, AuthService, Jwt, Hash, is_unusable, verify_otp_code, issue_pair,
  accept_code, reject_code, try_code, verify_token, refresh,
}
use stock_monitoring.Auth.Service as Service
use stock_monitoring.Auth.Wiring.{auth_service, send_otp}
use stock_monitoring.Domain.Action.{Action, raise, require, raise_if, ◌>>=◌}
use stock_monitoring.Domain.Entities.{Datetime, OtpChallenge, TokenPair}
use stock_monitoring.Domain.Errors.{
  assertion_error, invalid_otp, invalid_token, rate_limit_exceeded,
}
use stock_monitoring.Domain.Keeps.{
  Keeps, Keeps-pure, Keeps-lift, Keeps-raise, Keeps-require, Keeps-bind, Keeps-query, Keeps-modify,
  Keeps-find, Keeps-if,
}
use stock_monitoring.Storage.Engine.{Engine}
use stock_monitoring.Storage.OtpChallenges
use stock_monitoring.Storage.Private.{seen}
use stock_monitoring.Storage.Rows.{OtpChallengeModel, UserModel}
use stock_monitoring.Storage.Users
use stock_monitoring.Storage.World.{World, utcnow}

module _ (E : Engine) (jwt : Jwt) (hash : Hash) (randbelow : Action World ℕ)
    (access_minutes refresh_days user : ℕ) (draws : (w : World) → (randbelow w).1 ≡ w) where
  abbrev service : AuthService World
  service = auth_service E jwt hash randbelow access_minutes refresh_days

  latest-Keeps : (phone : String) → Keeps (seen user) (OtpChallenges.get_latest E phone)
  unfolding OtpChallenges.get_latest
  latest-Keeps phone =
      Keeps-find
        (λ w. filter (λ (m : OtpChallengeModel). str_eq m.phone_number phone) w.otp_challenges)
        (λ rows.
          E.scalar_one_or_none OtpChallengeModel
            (take 1 (E.order_by_desc OtpChallengeModel (λ m. m.created_at) rows)))
        _ (Keeps-pure _) (λ m. Keeps-pure _)

  change-Keeps :
      (f : OtpChallengeModel → OtpChallengeModel) (id : ℕ)
      → Keeps (seen user) (OtpChallenges.change E f id)
  unfolding OtpChallenges.change
  change-Keeps f id =
      Keeps-query (λ w. filter (λ (m : OtpChallengeModel). m.id == id) w.otp_challenges) _
        (λ rows.
          Keeps-modify (E.scalar_one OtpChallengeModel rows)
            (λ model w. record w {
              db = record w.db {
                otp_challenges =
                    update_if (λ (m : OtpChallengeModel). m.id == model.id) f w.otp_challenges;
              };
            })
            (λ model w. refl))

  phone-Keeps : (phone : String) → Keeps (seen user) (Users.get_or_create_by_phone E phone)
  unfolding Users.get_or_create_by_phone
  phone-Keeps phone =
      Keeps-find (λ w. filter (λ (m : UserModel). str_eq m.phone_number phone) w.users)
        (E.scalar_one_or_none UserModel) _ (record { at = λ w. refl }) (λ m. Keeps-pure _)

  issue_pair-Keeps : (id : ℕ) → Keeps (seen user) (issue_pair service id)
  unfolding issue_pair
  issue_pair-Keeps id = record { at = λ w. refl }

  verify_token-Keeps :
      (token expected : String) → Keeps (seen user) (verify_token service token expected)
  unfolding verify_token
  verify_token-Keeps token expected =
      Keeps-query (λ w. w.now) _
        (λ now.
          Keeps-bind (require invalid_token (jwt.decode now token)) _ (Keeps-require _ _)
            (λ claims. Keeps-lift _))

  otp-Keeps :
      (phone code_hash : String) (expires_at now : Datetime)
      → Keeps (seen user) (OtpChallenges.create E phone code_hash expires_at now)
  unfolding OtpChallenges.create
  otp-Keeps phone code_hash expires_at now = record { at = λ w. refl }

  send_otp-Keeps : (phone code : String) → Keeps (seen user) (send_otp phone code)
  unfolding send_otp
  send_otp-Keeps phone code = record { at = λ w. refl }

  request_otp-Keeps : (phone : String) → Keeps (seen user) (Service.request_otp service phone)
  unfolding Service.request_otp OtpChallenges.count_recent
  request_otp-Keeps phone =
      Keeps-bind (OtpChallenges.count_recent E phone 3600) _ (record { at = λ w. refl })
        (λ recent.
          Keeps-bind (raise_if (leb 5 recent) rate_limit_exceeded) _ (record { at = λ w. refl })
            (λ _.
              Keeps-query (λ w. w.now) _
                (λ now.
                  Keeps-bind randbelow _ (record { at = λ w. rw (draws w) refl })
                    (λ drawn.
                      Keeps-bind
                        (OtpChallenges.create E phone (hash.hexdigest (generate_otp_code drawn))
                          (now + seconds 300) now)
                        _
                        (otp-Keeps phone (hash.hexdigest (generate_otp_code drawn))
                          (now + seconds 300) now)
                        (λ _. send_otp-Keeps phone (generate_otp_code drawn))))))

  accept_code-Keeps : (phone : String) (id : ℕ) → Keeps (seen user) (accept_code service phone id)
  unfolding accept_code OtpChallenges.mark_consumed
  accept_code-Keeps phone id =
      Keeps-bind (OtpChallenges.change E (λ m. record m { consumed = true }) id) _
        (change-Keeps (λ m. record m { consumed = true }) id)
        (λ _. Keeps-bind (Users.get_or_create_by_phone E phone) _ (phone-Keeps phone) (λ found.
          Keeps-bind (require assertion_error found.id) _ (Keeps-require _ _) issue_pair-Keeps))

  reject_code-Keeps : (id : ℕ) → Keeps (seen user) (reject_code service id)
  unfolding reject_code OtpChallenges.increment_attempt
  reject_code-Keeps id =
      Keeps-bind (OtpChallenges.change E (λ m. record m { attempt_count = m.attempt_count + 1 }) id)
        _ (change-Keeps (λ m. record m { attempt_count = m.attempt_count + 1 }) id)
        (λ _. Keeps-raise invalid_otp)

  try_code-Keeps :
      (phone code : String) (challenge : OtpChallenge)
      → Keeps (seen user) (try_code service phone code challenge)
  unfolding try_code
  try_code-Keeps phone code challenge =
      Keeps-bind (require assertion_error challenge.id) _ (Keeps-require _ _) (λ id.
        Keeps-if (verify_otp_code hash code challenge.code_hash) (accept_code-Keeps phone id)
          (reject_code-Keeps id))

  verify_otp-Keeps :
      (phone code : String) → Keeps (seen user) (Service.verify_otp service phone code)
  unfolding Service.verify_otp
  verify_otp-Keeps phone code =
      Keeps-bind (OtpChallenges.get_latest E phone) _ (latest-Keeps phone) try
    where
      try :
          (latest : Option OtpChallenge)
          → Keeps {A = TokenPair} (seen user) (do
            now ← utcnow
            elim latest [
              | none ↦ raise invalid_otp
              | some challenge ↦
                  if is_unusable 5 now challenge
                  then raise invalid_otp
                  else try_code service phone code challenge
            ])
      try none = Keeps-query (λ w. w.now) _ (λ now. Keeps-raise invalid_otp)
      try (some challenge) =
          Keeps-query (λ w. w.now) _
            (λ now.
              Keeps-if (is_unusable 5 now challenge) (Keeps-raise invalid_otp)
                (try_code-Keeps phone code challenge))

  refresh-Keeps : (token : String) → Keeps (seen user) (Service.refresh service token)
  unfolding Service.refresh
  refresh-Keeps token =
      Keeps-bind (verify_token service token "refresh") _ (verify_token-Keeps token "refresh")
        issue_pair-Keeps

  pub handle_public-Keeps : (route : PublicRoute) → Keeps (seen user) (handle_public service route)
  unfolding handle_public health Routes.request_otp Routes.verify_otp Routes.refresh
  handle_public-Keeps PublicRoute.health_route = Keeps-pure _
  handle_public-Keeps (PublicRoute.request_otp_route body) = request_otp-Keeps body.phone_number
  handle_public-Keeps (PublicRoute.verify_otp_route body) =
      Keeps-bind (Service.verify_otp service body.phone_number body.code) _
        (verify_otp-Keeps body.phone_number body.code) (λ tokens. Keeps-pure _)
  handle_public-Keeps (PublicRoute.refresh_route body) =
      Keeps-bind (Service.refresh service body.refresh_token) _ (refresh-Keeps body.refresh_token)
        (λ tokens. Keeps-pure _)
