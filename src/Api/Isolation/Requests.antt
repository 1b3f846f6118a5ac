-- ===== src/Api/Isolation/Requests.antt =====
-- Requests to the whole application: what an unauthenticated one does, and what those of the other
-- users do to a user's rows.
use stock_monitoring.Common.{
  ℕ, String, ◌==◌, false, Option, none, some, List, [], ◌∷◌, All, ◌≡◌, refl, ◌∙◌, ap,
}
use stock_monitoring.Analytics.Summary.{Floats}
use stock_monitoring.Api.App.{
  UserRoute, Route, Request, arrive, handle, for_current_user, dispatch_route, respond, respond_all,
}
use stock_monitoring.Api.Isolation.Callers.{
  caller, caller-IsRefused, IsRefused, get_current_user_id-caller,
}
use stock_monitoring.Api.Isolation.Routes.{AreKept, Keeps-AreKept, handle-AreKept}
use stock_monitoring.Api.Isolation.Settings.{HasKeys}
use stock_monitoring.Api.Isolation.SignIn.{handle_public-Keeps}
use stock_monitoring.Api.Main.{after_error, failure, serve-eq, served, handled}
use stock_monitoring.Auth.Service.{AuthService, Jwt, Hash}
use stock_monitoring.Auth.Wiring.{auth_service}
use stock_monitoring.Domain.Action.{Action, continue}
use stock_monitoring.Domain.Entities.{Datetime}
use stock_monitoring.Domain.Errors.{Error, Result, ok, err}
use stock_monitoring.Storage.Engine.{Engine}
use stock_monitoring.Storage.Private.{private}
use stock_monitoring.Storage.World.{World}

-- The request is of nobody, or of a user other than one.
abbrev pub IsOfOthers : Jwt → ℕ → Request → Type 0
IsOfOthers jwt other request =
    (user : ℕ) → caller jwt request.at request.authorization ≡ ok user → (user == other) ≡ false

-- What the middleware and the session add to a route's own doing is outside the users' rows.
served-AreKept :
    {A : Type 0} (E : Engine) (message : Error → String) (other : ℕ) (path : String)
    (before w : World) (r : Result A)
    → HasKeys before.settings
    → AreKept other before w
    → AreKept other before (served E message path before r w).1
served-AreKept E message other path before w (ok a) keys kept = kept
served-AreKept E message other path before w (err e) keys kept = logged (handled e)
  where
    logged :
        (status : Option ℕ) → AreKept other before (after_error E message before w path e status)
    logged none = (refl, keys, refl, refl)
    logged (some status) = (refl, keys, refl, refl)

module _ (E : Engine) (floats : Floats) (message : Error → String) (jwt : Jwt) (hash : Hash)
    (randbelow : Action World ℕ) (access_minutes refresh_days : ℕ) where
  abbrev pub service : AuthService World
  service = auth_service E jwt hash randbelow access_minutes refresh_days

  for_current_user-caller :
      (route : UserRoute) (authorization : Option String) (w : World)
      → for_current_user E floats message service route authorization w
        ≡ continue (caller jwt w.now authorization) (handle E floats route) w
  unfolding for_current_user
  for_current_user-caller route authorization w =
      ap (λ (o : Result ℕ × World). continue o.0 (handle E floats route) o.1)
        (get_current_user_id-caller E jwt hash randbelow access_minutes refresh_days authorization
          w)

  -- A request for a signed-in user whose header has no token, or a token that the JWT library does
  -- not decode or that is not an access token, is answered with 401 whatever its route, and changes
  -- nothing.
  pub respond-IsRefused :
      (at : Datetime) (path : String) (authorization : Option String) (route : UserRoute)
      (w : World)
      → IsRefused jwt at authorization
      → respond E floats message service
          (record {
            at = at;
            path = path;
            authorization = authorization;
            route = Route.for_user route;
          })
          w
        ≡ (ok (failure 401), arrive at w)
  unfolding respond dispatch_route for_current_user
  respond-IsRefused at path authorization route w refused =
      serve-eq E message path (for_current_user E floats message service route authorization)
        (arrive at w)
      ∙ rw
          (
            for_current_user-caller route authorization (arrive at w),
            caller-IsRefused jwt at authorization refused,
          )
          refl

  -- A request with a good token is served by its route, for the user of the token.
  pub respond-caller :
      (at : Datetime) (path : String) (authorization : Option String) (route : UserRoute) {user : ℕ}
      (w : World)
      → caller jwt at authorization ≡ ok user
      → let (r, w') = handle E floats route user (arrive at w) in
        respond E floats message service
          (record {
            at = at;
            path = path;
            authorization = authorization;
            route = Route.for_user route;
          })
          w
        ≡ served E message path (arrive at w) r w'
  unfolding respond dispatch_route
  respond-caller at path authorization route w by =
      serve-eq E message path (for_current_user E floats message service route authorization)
        (arrive at w)
      ∙ rw (for_current_user-caller route authorization (arrive at w), by) refl

  module _ (draws : (w : World) → (randbelow w).1 ≡ w) (other : ℕ) where
    continue-AreKept :
        (route : UserRoute) (r : Result ℕ) (w : World)
        → ((user : ℕ) → r ≡ ok user → (user == other) ≡ false)
        → HasKeys w.settings
        → AreKept other w (continue r (handle E floats route) w).1
    continue-AreKept route (ok user) w others keys =
        handle-AreKept E user other (others user refl) floats route w keys
    continue-AreKept route (err e) w others keys = (refl, keys, refl, refl)

    dispatch_route-AreKept :
        (route : Route) (authorization : Option String) (w : World)
        → ((user : ℕ) → caller jwt w.now authorization ≡ ok user → (user == other) ≡ false)
        → HasKeys w.settings
        → AreKept other w (dispatch_route E floats message service route authorization w).1
    unfolding dispatch_route
    dispatch_route-AreKept (Route.for_user route) authorization w others keys =
        rw (for_current_user-caller route authorization w)
          (continue-AreKept route (caller jwt w.now authorization) w others keys)
    dispatch_route-AreKept (Route.for_anybody route) authorization w others keys =
        Keeps-AreKept
          (handle_public-Keeps E jwt hash randbelow access_minutes refresh_days other draws route) w
          keys

    pub respond-AreKept :
        (request : Request) (w : World)
        → IsOfOthers jwt other request
        → HasKeys w.settings
        → AreKept other w (respond E floats message service request w).1
    unfolding respond
    respond-AreKept request w others keys =
        let route = dispatch_route E floats message service request.route request.authorization in
        let now = arrive request.at w in
        rw (serve-eq E message request.path route now) (
          served-AreKept E message other request.path now (route now).1 (route now).0 keys
            (dispatch_route-AreKept request.route request.authorization now others keys))

  -- Whatever requests come to whatever routes, in whatever order and with whatever outcome: a user's
  -- products, watches, notification channels, notification log and settings are afterwards what they
  -- were, if none of the requests has a token of that user, the settings have a primary key and
  -- drawing a number for a code changes nothing else.
  pub respond_all-private :
      (draws : (w : World) → (randbelow w).1 ≡ w) (other : ℕ) (requests : List Request) (w : World)
      → All (IsOfOthers jwt other) requests
      → HasKeys w.settings
      → private other (respond_all E floats message service requests w) ≡ private other w
  unfolding respond_all
  respond_all-private draws other [] w others keys = refl
  respond_all-private draws other (request ∷ requests) w (first, others) keys =
      let (same, keys', kept, readable) = respond-AreKept draws other request w first keys in
      respond_all-private draws other requests (respond E floats message service request w).1 others
        keys'
      ∙ same
