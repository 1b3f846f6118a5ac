-- ===== src/Api/Deps.antt =====
-- What a route is given by backend/app/api/deps.py: the user of the request, from its header.
use Prim.Native.Char.{code}
use Prim.Native.String.append
use Prim.Native.String.{◌++◌}
use stock_monitoring.Common.{
  ℕ, String, str_eq, ◌==◌, ==_refl, Option, none, some, if◌then◌else◌, ◌≡◌, refl, arith,
}
use stock_monitoring.Auth.Service.{AuthService, claims_of, payload, verify_access_token}
use stock_monitoring.Auth.Tokens.{verify_token-issued}
use stock_monitoring.Domain.Action.{Action, raise}
use stock_monitoring.Domain.Entities.{Datetime}
use stock_monitoring.Domain.Errors.{Error, Result, ok, err, http_exception, not_implemented}
use stock_monitoring.Domain.Ports.{OtpProvider}

-- What follows a prefix, if the text starts with it: `startswith` and `removeprefix`.
unfoldable pub remove_prefix : String → String → Option String
remove_prefix String.[] text = some text
remove_prefix (String.◌∷◌ c prefix) String.[] = none
remove_prefix (String.◌∷◌ c prefix) (String.◌∷◌ d text) =
    if code c == code d then remove_prefix prefix text else none

-- The token of an `Authorization` header; an empty header has no prefix either.
abbrev pub bearer_token : Option String → Option String
bearer_token none = none
bearer_token (some authorization) = remove_prefix "Bearer " authorization

-- `except InvalidTokenError: raise HTTPException(401)`
abbrev pub on_invalid_token : Result ℕ → Result ℕ
on_invalid_token (ok user_id) = ok user_id
on_invalid_token (err Error.invalid_token) = err (http_exception 401)
on_invalid_token (err e) = err e

unfoldable pub get_current_user_id : {W : Type 0} → AuthService W → Option String → Action W ℕ
get_current_user_id auth_service authorization = elim (bearer_token authorization) [
  | none ↦ raise (http_exception 401)
  | some token ↦
      λ w. let (r, w') = verify_access_token auth_service token w in (on_invalid_token r, w')
]

unfoldable pub get_otp_provider : {W : Type 0} → OtpProvider W → String → Result (OtpProvider W)
get_otp_provider console otp_provider =
    if str_eq otp_provider "console" then ok console else err not_implemented

remove_prefix-append : (prefix text : String) → remove_prefix prefix (prefix ++ text) ≡ some text
unfolding remove_prefix
remove_prefix-append String.[] text = rw append.nil refl
remove_prefix-append (String.◌∷◌ c prefix) text =
    rw (append.cons, remove_prefix, ==_refl (code c)) (remove_prefix-append prefix text)

-- If the JWT library still decodes a token that the service signed: a request with the token as its
-- bearer token is one of the user that the token was signed for if it is an access token, and is
-- answered with 401 if it is another, such as a refresh token.
pub get_current_user_id-issued :
    {W : Type 0} (service : AuthService W) (user_id lifetime : ℕ) (token_type : String)
    (signed now : Datetime) (w : W)
    → service.utcnow w ≡ (ok now, w)
    → let token = service.jwt.encode (payload user_id lifetime token_type signed) in
      service.jwt.decode now token ≡ some (claims_of (payload user_id lifetime token_type signed))
      → get_current_user_id service (some ("Bearer " ++ token)) w
        ≡ ((if str_eq token_type "access" then ok user_id else err (http_exception 401)), w)
unfolding get_current_user_id verify_access_token
get_current_user_id-issued service user_id lifetime token_type signed now w reads decoded =
    let token = service.jwt.encode (payload user_id lifetime token_type signed) in
    rw
      (
        get_current_user_id,
        remove_prefix-append "Bearer " token,
        verify_token-issued service reads user_id lifetime token_type "access" signed decoded,
      )
      (ground arith)
