-- ===== src/Auth/Tokens.antt =====
-- Tokens: an issued token is accepted as what it is and for whom it is.
use stock_monitoring.Common.{
  Bool-cases, inl, inr, ℕ, String, str_eq, none, some, if◌then◌else◌, ◌≡◌,
}
use stock_monitoring.Common.Decimal.RoundTrip.{parse_int-str}
use stock_monitoring.Domain.Entities.{Datetime}
use stock_monitoring.Domain.Errors.{ok, err, invalid_token}
use stock_monitoring.Auth.Service.{
  AuthService, claims_of, payload, verify_token, verify_access_token, refresh, minutes, days,
}

module _ {W : Type 0} (service : AuthService W) {w : W} {now : Datetime}
    (reads : service.utcnow w ≡ (ok now, w)) where
  -- A token that the service signed for a user, and that the JWT library still decodes, passes as a
  -- token of its own type, for that user, and as no other.
  pub verify_token-issued :
      (user_id lifetime : ℕ) (token_type expected : String) (signed : Datetime)
      → service.jwt.decode now (service.jwt.encode (payload user_id lifetime token_type signed))
        ≡ some (claims_of (payload user_id lifetime token_type signed))
      → verify_token service
          (service.jwt.encode (payload user_id lifetime token_type signed))
          expected
          w
        ≡ ((if str_eq token_type expected then ok user_id else err invalid_token), w)
  unfolding verify_token
  verify_token-issued user_id lifetime token_type expected signed decoded =
      rw (reads, decoded, parse_int-str user_id)

  -- What the JWT library refuses, the service refuses, for either purpose.
  pub verify_token-refused :
      (token expected : String)
      → service.jwt.decode now token ≡ none
      → verify_token service token expected w ≡ (err invalid_token, w)
  unfolding verify_token
  verify_token-refused token expected refused = rw (reads, refused)

  -- A refresh token is no access token.
  pub verify_access_token-refresh :
      (user_id lifetime : ℕ) (signed : Datetime)
      → service.jwt.decode now (service.jwt.encode (payload user_id lifetime "refresh" signed))
        ≡ some (claims_of (payload user_id lifetime "refresh" signed))
      → verify_access_token service
          (service.jwt.encode (payload user_id lifetime "refresh" signed))
          w
        ≡ (err invalid_token, w)
  unfolding verify_access_token
  verify_access_token-refresh user_id lifetime signed decoded =
      verify_token-issued user_id lifetime "refresh" "access" signed decoded

  -- Refreshing with a token that the service signed, and that the JWT library still decodes, issues
  -- a pair for the user that it was signed for if it is a refresh token; a token of another type is
  -- refused.
  refresh-issued :
      (user_id lifetime : ℕ) (token_type : String) (signed : Datetime)
      → service.jwt.decode now (service.jwt.encode (payload user_id lifetime token_type signed))
        ≡ some (claims_of (payload user_id lifetime token_type signed))
      → refresh service (service.jwt.encode (payload user_id lifetime token_type signed)) w ≡ (
          if str_eq token_type "refresh"
          then (
            ok (record {
              access_token =
                  service.jwt.encode
                    (payload user_id (minutes service.access_token_expire_minutes) "access" now);
              refresh_token =
                  service.jwt.encode
                    (payload user_id (days service.refresh_token_expire_days) "refresh" now);
            }),
            w,
          )
          else (err invalid_token, w))
  unfolding refresh
  refresh-issued user_id lifetime token_type signed decoded =
      elim (Bool-cases (str_eq token_type "refresh")) [
        | inl e ↦ rw (reads, decoded, e, parse_int-str user_id, reads, reads)
        | inr e ↦ rw (reads, decoded, e)
      ]
