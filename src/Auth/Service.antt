-- ===== src/Auth/Service.antt =====
-- `AuthService` of backend/app/application/auth_service.py and the primitives of
-- backend/app/core/security.py.
use Prim.Native.Nat.{◌/◌, ◌%◌}
use Prim.Native.String.{◌++◌}
use stock_monitoring.Common.{
  ℕ, ◌+◌, ◌*◌, String, str_eq, Bool, ◌||◌, leb, ltb, Option, none, some, if◌then◌else◌,
}
use stock_monitoring.Common.Decimal.{str, parse_int}
use stock_monitoring.Domain.Action.{Action, pure, raise, lift, require, raise_if, ◌>>=◌, ◌>>◌}
use stock_monitoring.Domain.Entities.{Datetime, OtpChallenge, TokenPair}
use stock_monitoring.Domain.Errors.{
  Result, err, or_raise, and_then, rate_limit_exceeded, invalid_otp, invalid_token, assertion_error,
  value_error, key_error,
}
use stock_monitoring.Domain.Ports.{UserRepository, OtpChallengeRepository, OtpProvider}

-- The claims that the service signs.
pub record Payload : Type 0 where
  pub sub : String
  pub type : String
  pub iat : Datetime
  pub exp : Datetime

-- The claims that it reads in a token; a token that something else signed with the same secret may
-- lack them.
pub record Claims : Type 0 where
  pub sub : Option String
  pub type : Option String

-- PyJWT under the service's secret and algorithm. `decode` is given the time, and answers `none`
-- where the library raises a `PyJWTError`.
pub record Jwt : Type 0 where
  pub encode : Payload → String
  pub decode : Datetime → String → Option Claims

-- What the library reads in a token that it made and that is valid.
abbrev pub claims_of : Payload → Claims
claims_of p = record { sub = some p.sub; type = some p.type }

-- SHA-256, as hexadecimal digits.
pub record Hash : Type 0 where
  pub hexdigest : String → String

-- `f"{secrets.randbelow(1000000):06d}"`, for the number that was drawn.
unfoldable pub generate_otp_code : ℕ → String
unfolding str
generate_otp_code n =
    str (n / 100000 % 10)
    ++ (str (n / 10000 % 10)
        ++ (str (n / 1000 % 10) ++ (str (n / 100 % 10) ++ (str (n / 10 % 10) ++ str (n % 10)))))

abbrev pub hash_otp_code : Hash → String → String
hash_otp_code hash code = hash.hexdigest code

-- `hmac.compare_digest` is equality.
abbrev pub verify_otp_code : Hash → String → String → Bool
verify_otp_code hash code code_hash = str_eq (hash_otp_code hash code) code_hash

-- The dependencies and the policy of the service. `randbelow` draws the number of a code.
pub record AuthService (W : Type 0) : Type 0 where
  pub user_repo : UserRepository W
  pub otp_repo : OtpChallengeRepository W
  pub otp_provider : OtpProvider W
  pub jwt : Jwt
  pub hash : Hash
  pub randbelow : Action W ℕ
  pub utcnow : Action W Datetime
  pub access_token_expire_minutes : ℕ
  pub refresh_token_expire_days : ℕ
  pub otp_ttl_seconds : ℕ
  pub otp_max_per_hour : ℕ
  pub otp_max_attempts : ℕ

-- Microseconds in a second, a minute and a day.
abbrev pub seconds : ℕ → ℕ
seconds n = n * 1_000_000

abbrev pub minutes : ℕ → ℕ
minutes n = n * 60_000_000

abbrev pub days : ℕ → ℕ
days n = n * 86_400_000_000

-- The claims of a token for a user, signed at a time.
abbrev pub payload : ℕ → ℕ → String → Datetime → Payload
payload user_id expires_delta token_type now = record {
  sub = str user_id;
  type = token_type;
  iat = now;
  exp = now + expires_delta;
}

-- `payload.get("type") != expected_type`, then `int(payload["sub"])`
abbrev pub read_claims : String → Claims → Result ℕ
read_claims expected_type claims = elim claims.type [
  | none ↦ err invalid_token
  | some token_type ↦
      if str_eq token_type expected_type
      then and_then (or_raise key_error claims.sub) (λ sub. or_raise value_error (parse_int sub))
      else err invalid_token
]

-- A challenge that may no longer be tried.
abbrev pub is_unusable : ℕ → Datetime → OtpChallenge → Bool
is_unusable otp_max_attempts now challenge =
    challenge.consumed
    || ltb challenge.expires_at now
    || leb otp_max_attempts challenge.attempt_count

module _ {W : Type 0} (service : AuthService W) where
  open service use {
    user_repo, otp_repo, otp_provider, jwt, hash, randbelow, utcnow, access_token_expire_minutes,
    refresh_token_expire_days, otp_ttl_seconds, otp_max_per_hour, otp_max_attempts,
  }

  unfoldable pub request_otp : String → Action W (Unit {0})
  request_otp phone_number = do
    recent_count ← otp_repo.count_recent phone_number 3600
    raise_if (leb otp_max_per_hour recent_count) rate_limit_exceeded
    now ← utcnow
    drawn ← randbelow
    let code = generate_otp_code drawn
    otp_repo.create phone_number (hash_otp_code hash code) (now + seconds otp_ttl_seconds) now
    otp_provider.send_otp phone_number code

  -- `_issue_token`
  unfoldable pub issue_token : ℕ → ℕ → String → Action W String
  issue_token user_id expires_delta token_type = do
    now ← utcnow
    pure (jwt.encode (payload user_id expires_delta token_type now))

  -- The pair that `verify_otp` and `refresh` return.
  unfoldable pub issue_pair : ℕ → Action W TokenPair
  unfolding issue_token
  issue_pair user_id = do
    access_token ← issue_token user_id (minutes access_token_expire_minutes) "access"
    refresh_token ← issue_token user_id (days refresh_token_expire_days) "refresh"
    pure (record { access_token = access_token; refresh_token = refresh_token })

  -- The right code: the challenge is used up, and the user is found or made.
  unfoldable pub accept_code : String → ℕ → Action W TokenPair
  unfolding issue_pair
  accept_code phone_number challenge_id = do
    otp_repo.mark_consumed challenge_id
    user ← user_repo.get_or_create_by_phone phone_number
    user_id ← require assertion_error user.id
    issue_pair user_id

  -- A wrong code: the attempt is counted.
  unfoldable pub reject_code : ℕ → Action W TokenPair
  reject_code challenge_id = do otp_repo.increment_attempt challenge_id; raise invalid_otp

  -- `verify_otp` from the challenge that was found usable.
  unfoldable pub try_code : String → String → OtpChallenge → Action W TokenPair
  unfolding accept_code reject_code
  try_code phone_number code challenge = do
    challenge_id ← require assertion_error challenge.id
    if verify_otp_code hash code challenge.code_hash
        then accept_code phone_number challenge_id
        else reject_code challenge_id

  unfoldable pub verify_otp : String → String → Action W TokenPair
  unfolding try_code
  verify_otp phone_number code = do
    latest ← otp_repo.get_latest phone_number
    now ← utcnow
    elim latest [
      | none ↦ raise invalid_otp
      | some challenge ↦
          if is_unusable otp_max_attempts now challenge
          then raise invalid_otp
          else try_code phone_number code challenge
    ]

  -- `_verify_token`
  unfoldable pub verify_token : String → String → Action W ℕ
  verify_token token expected_type = do
    now ← utcnow
    claims ← require invalid_token (jwt.decode now token)
    lift (read_claims expected_type claims)

  unfoldable pub verify_access_token : String → Action W ℕ
  unfolding verify_token
  verify_access_token token = verify_token token "access"

  unfoldable pub refresh : String → Action W TokenPair
  unfolding verify_token issue_pair
  refresh refresh_token = do user_id ← verify_token refresh_token "refresh"; issue_pair user_id
