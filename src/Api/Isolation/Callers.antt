-- ===== src/Api/Isolation/Callers.antt =====
-- Whose request it is, told by its time and its header alone.
use stock_monitoring.Common.{
  ℕ, String, str_eq, false, Option, Option-cases, none, some, ◌⊎◌, inl, inr, ◌≡◌, refl,
}
use stock_monitoring.Api.Deps.{bearer_token, get_current_user_id, on_invalid_token}
use stock_monitoring.Auth.Service.{AuthService, Jwt, Hash, Claims, read_claims, verify_access_token}
use stock_monitoring.Auth.Wiring.{auth_service}
use stock_monitoring.Domain.Action.{Action}
use stock_monitoring.Domain.Entities.{Datetime}
use stock_monitoring.Domain.Errors.{Result, err, and_then, or_raise, http_exception, invalid_token}
use stock_monitoring.Storage.Engine.{Engine}
use stock_monitoring.Storage.World.{World}

-- What the claims of a token say, if the library decodes it.
abbrev pub claimed : Option Claims → Result ℕ
claimed claims = on_invalid_token (and_then (or_raise invalid_token claims) (read_claims "access"))

abbrev bearer : Jwt → Datetime → Option String → Result ℕ
bearer jwt now none = err (http_exception 401)
bearer jwt now (some token) = claimed (jwt.decode now token)

-- The user of a request, or the error that it is answered with.
abbrev pub caller : Jwt → Datetime → Option String → Result ℕ
caller jwt now authorization = bearer jwt now (bearer_token authorization)

-- A header without a token that is good for access.
abbrev pub IsRefused : Jwt → Datetime → Option String → Type 0
IsRefused jwt now authorization =
    (token : String)
    → bearer_token authorization ≡ some token
    → (jwt.decode now token ≡ none)
      ⊎ ((claims : Claims) × (jwt.decode now token ≡ some claims)
          × ((token_type : String)
              → claims.type ≡ some token_type
              → str_eq token_type "access" ≡ false))

pub caller-IsRefused :
    (jwt : Jwt) (now : Datetime) (authorization : Option String)
    → IsRefused jwt now authorization
    → caller jwt now authorization ≡ err (http_exception 401)
caller-IsRefused jwt now authorization refused = elim (Option-cases (bearer_token authorization)) [
  | inl nothing ↦ rw (caller, nothing) refl
  | inr (token, held) ↦ elim (refused token held) [
    | inl undecoded ↦ rw (caller, held, undecoded) refl
    | inr (claims, decoded, other) ↦ elim (Option-cases claims.type) [
      | inl untyped ↦ rw (caller, held, decoded, untyped) refl
      | inr (token_type, typed) ↦ rw (caller, held, decoded, typed, other token_type typed) refl
    ]
  ]
]

module _ (E : Engine) (jwt : Jwt) (hash : Hash) (randbelow : Action World ℕ)
    (access_minutes refresh_days : ℕ) where
  abbrev pub service : AuthService World
  service = auth_service E jwt hash randbelow access_minutes refresh_days

  pub get_current_user_id-caller :
      (authorization : Option String) (w : World)
      → get_current_user_id service authorization w ≡ (caller jwt w.now authorization, w)
  unfolding get_current_user_id verify_access_token
  get_current_user_id-caller authorization w = elim (Option-cases (bearer_token authorization)) [
    | inl nothing ↦ rw (get_current_user_id, caller, nothing) refl
    | inr (token, held) ↦ elim (Option-cases (jwt.decode w.now token)) [
      | inl undecoded ↦ rw (get_current_user_id, caller, held, undecoded) refl
      | inr (claims, decoded) ↦ rw (get_current_user_id, caller, held, decoded) refl
    ]
  ]
