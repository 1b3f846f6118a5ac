-- ===== src/Auth/Wiring.antt =====
-- `AuthService` as `get_auth_service` of backend/app/api/deps.py builds it, with the defaults of its
-- constructor, and the OTP sender of backend/app/infrastructure/sms/console_provider.py.
use stock_monitoring.Common.{ℕ, String, ◌++◌, [], ◌∷◌}
use stock_monitoring.Domain.Action.{Action, modify}
use stock_monitoring.Domain.Ports.{OtpProvider}
use stock_monitoring.Auth.Service.{AuthService, Jwt, Hash}
use stock_monitoring.Storage.Engine.{Engine}
use stock_monitoring.Storage.OtpChallenges.{otp_challenge_repository}
use stock_monitoring.Storage.Users.{user_repository}
use stock_monitoring.Storage.World.{World, utcnow}

-- The line that the console provider logs.
unfoldable pub send_otp : String → String → Action World (Unit {0})
send_otp phone_number code =
    modify (λ w. record w {
      texts = w.texts ++ record { phone_number = phone_number; code = code } ∷ [];
    })

abbrev pub console_otp_provider : OtpProvider World
console_otp_provider = record { send_otp = send_otp }

-- The lifetimes come from the settings.
abbrev pub auth_service : Engine → Jwt → Hash → Action World ℕ → ℕ → ℕ → AuthService World
auth_service E jwt hash randbelow access_token_expire_minutes refresh_token_expire_days = record {
  user_repo = user_repository E;
  otp_repo = otp_challenge_repository E;
  otp_provider = console_otp_provider;
  jwt = jwt;
  hash = hash;
  randbelow = randbelow;
  utcnow = utcnow;
  access_token_expire_minutes = access_token_expire_minutes;
  refresh_token_expire_days = refresh_token_expire_days;
  otp_ttl_seconds = 300;
  otp_max_per_hour = 5;
  otp_max_attempts = 5;
}
