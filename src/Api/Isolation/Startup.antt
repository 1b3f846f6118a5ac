-- ===== src/Api/Isolation/Startup.antt =====
-- From the startup of the application to a request: the retailers are there.
use stock_monitoring.Common.{
  ap, All-map, true, ℕ, suc, String, ◌==◌, false, Option, List, [], ◌∷◌, map, All, ◌≡◌, refl, sym,
  ◌∙◌, subst, arith,
}
use stock_monitoring.Analytics.Summary.{Floats}
use stock_monitoring.Api.App.{UserRoute, Route, Request, handle, respond, respond_all}
use stock_monitoring.Api.Isolation.Callers.{caller}
use stock_monitoring.Api.Isolation.Requests.{IsOfOthers, respond-AreKept, respond-caller}
use stock_monitoring.Api.Isolation.Settings.{HasKeys}
use stock_monitoring.Api.Lifespan.{start_up, or_warn}
use stock_monitoring.Storage.Session.{in_session}
use stock_monitoring.Api.Main.{success}
use stock_monitoring.Api.Reference.{RetailerSchema, retailer_schema, list_retailers}
use stock_monitoring.Api.Routers.{ReadRoute, handle_read}
use stock_monitoring.Auth.Service.{AuthService, Jwt, Hash}
use stock_monitoring.Auth.Wiring.{auth_service}
use stock_monitoring.Domain.Action.{Action}
use stock_monitoring.Domain.Entities.{Datetime}
use stock_monitoring.Domain.Errors.{Error, Result, ok, err}
use stock_monitoring.Storage.Engine.{Engine}
use stock_monitoring.Storage.Retailers.{
  to_retailer, knows, supported_retailers, list_all, ensure_retailers_seeded,
}
use stock_monitoring.Storage.Retailers.Seeding.{slugs, IsKnown, ensure_retailers_seeded-twice}
use stock_monitoring.Storage.Private.{unreadable}
use stock_monitoring.Storage.Rows.{RetailerModel}
use stock_monitoring.Storage.World.{World}

-- The answer has a retailer of that slug.
abbrev pub IsOffered : List RetailerSchema → String × String → Type 0
IsOffered retailers (slug, name) =
    knows (map (λ (r : RetailerSchema). r.slug) retailers) slug ≡ true

abbrev answer_of : World → List RetailerSchema
answer_of w = map retailer_schema (map to_retailer w.retailers)

slugs-answer :
    (rows : List RetailerModel)
    → map (λ (r : RetailerSchema). r.slug) (map retailer_schema (map to_retailer rows)) ≡ slugs rows
slugs-answer [] = refl
slugs-answer (m ∷ rows) = ap (λ l. m.slug ∷ l) (slugs-answer rows)

-- Known retailers are offered where they are still stored.
offered :
    (w seeded : World)
    → w.retailers ≡ seeded.retailers
    → All (IsKnown seeded.retailers) supported_retailers
    → All (IsOffered (answer_of w)) supported_retailers
offered w seeded same known =
    All-map supported_retailers
      (λ r k. subst (λ l. knows l r.0 ≡ true) (sym (slugs-answer w.retailers ∙ ap slugs same)) k)
      known

start_up-seeded : (E : Engine) (w : World) → (start_up E w).1 ≡ (ensure_retailers_seeded E w).1
unfolding start_up or_warn in_session ensure_retailers_seeded
start_up-seeded E w = refl

seeded-settings :
    (E : Engine) (w : World) → HasKeys w.settings → HasKeys (ensure_retailers_seeded E w).1.settings
unfolding ensure_retailers_seeded
seeded-settings E w keys = keys

-- A user that the request is not of.
abbrev another : Result ℕ → ℕ
another (ok user) = suc user
another (err e) = 0

module _ (E : Engine) (floats : Floats) (message : Error → String) (jwt : Jwt) (hash : Hash)
    (randbelow : Action World ℕ) (access_minutes refresh_days : ℕ)
    (draws : (w : World) → (randbelow w).1 ≡ w) where
  abbrev service : AuthService World
  service = auth_service E jwt hash randbelow access_minutes refresh_days

  IsOfOthers-another :
      (request : Request)
      → IsOfOthers jwt (another (caller jwt request.at request.authorization)) request
  IsOfOthers-another request user by =
      subst (λ r. (user == another r) ≡ false) (sym by) (ground arith)

  -- What no request changes.
  pub respond_all-stored :
      (requests : List Request) (w : World)
      → HasKeys w.settings
      → ((respond_all E floats message service requests w).retailers ≡ w.retailers)
        × (unreadable (respond_all E floats message service requests w) ≡ unreadable w)
  unfolding respond_all
  respond_all-stored [] w keys = (refl, refl)
  respond_all-stored (request ∷ requests) w keys =
      let (same, keys', kept, readable) =
        respond-AreKept E floats message jwt hash randbelow access_minutes refresh_days draws
          (another (caller jwt request.at request.authorization)) request w
          (IsOfOthers-another request) keys in
      let (retailers, channels) =
        respond_all-stored requests (respond E floats message service request w).1 keys' in
      (retailers ∙ kept, channels ∙ readable)

  -- Once the application has started, and whatever requests have come since: where the settings have a
  -- primary key and drawing a number for a code changes nothing else, a request for the retailers with
  -- a good access token is answered with success, and every supported retailer is in the answer.
  pub list_retailers-IsOffered :
      (at : Datetime) (path : String) (authorization : Option String) {user : ℕ}
      (requests : List Request) (w : World)
      → HasKeys w.settings
      → caller jwt at authorization ≡ ok user
      → (retailers : List RetailerSchema) × ((respond E floats message service
            (record {
              at = at;
              path = path;
              authorization = authorization;
              route = Route.for_user (UserRoute.read ReadRoute.list_retailers_route);
            })
            (respond_all E floats message service requests (start_up E w).1)).0
          ≡ ok (success retailers))
        × All (IsOffered retailers) supported_retailers
  unfolding handle handle_read list_retailers list_all
  list_retailers-IsOffered at path authorization {user} requests w keys by =
      let started = (start_up E w).1 in
      let now = respond_all E floats message service requests started in
      (
        answer_of now,
        rw
            (respond-caller E floats message jwt hash randbelow access_minutes refresh_days at path
              authorization (UserRoute.read ReadRoute.list_retailers_route) now by)
            refl,
        offered now (ensure_retailers_seeded E w).1
            ((respond_all-stored requests started
                (rw (start_up-seeded E w) (seeded-settings E w keys))).0
              ∙ ap (λ v. v.retailers) (start_up-seeded E w))
            (ensure_retailers_seeded-twice E w).0,
      )
