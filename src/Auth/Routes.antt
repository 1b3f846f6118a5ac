-- ===== src/Auth/Routes.antt =====
-- The routes of backend/app/api/routers/auth.py, with the bodies of backend/app/api/schemas/auth.py.
use stock_monitoring.Common.{String}
use stock_monitoring.Auth.Service.{AuthService}
use stock_monitoring.Auth.Service as Service
use stock_monitoring.Domain.Action.{Action, pure, ◌>>=◌}
use stock_monitoring.Domain.Entities.{TokenPair}

pub record OtpRequestSchema : Type 0 where
  pub phone_number : String

pub record OtpVerifySchema : Type 0 where
  pub phone_number : String
  pub code : String

pub record RefreshRequestSchema : Type 0 where
  pub refresh_token : String

pub record TokenPairSchema : Type 0 where
  pub access_token : String
  pub refresh_token : String

abbrev pub token_pair_schema : TokenPair → TokenPairSchema
token_pair_schema tokens = record {
  access_token = tokens.access_token;
  refresh_token = tokens.refresh_token;
}

module _ {W : Type 0} (auth_service : AuthService W) where
  unfoldable pub request_otp : OtpRequestSchema → Action W (Unit {0})
  request_otp body = Service.request_otp auth_service body.phone_number

  unfoldable pub verify_otp : OtpVerifySchema → Action W TokenPairSchema
  verify_otp body = do
    tokens ← Service.verify_otp auth_service body.phone_number body.code
    pure (token_pair_schema tokens)

  unfoldable pub refresh : RefreshRequestSchema → Action W TokenPairSchema
  refresh body = do
    tokens ← Service.refresh auth_service body.refresh_token
    pure (token_pair_schema tokens)
