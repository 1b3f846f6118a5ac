-- ===== src/Api/App.antt =====
-- `create_app` of backend/app/api/main.py with its routers: which route a request goes to, the user
-- it is for, and the session, the exception handlers and the middleware around it.
use stock_monitoring.Common.{ℕ, String, Option, List, [], ◌∷◌}
use stock_monitoring.Common.Json.{Dict, Json}
use stock_monitoring.Analytics.Summary.{Floats}
use stock_monitoring.Api.Deps.{get_current_user_id}
use stock_monitoring.Api.Main.{Response, serve, health}
use stock_monitoring.Api.Routers.{
  ReadRoute, ProductsRoute, WatchesRoute, NotificationsRoute, SettingsRoute, ReadAnswer,
  ProductsAnswer, WatchesAnswer, NotificationsAnswer, handle_read, handle_products, handle_watches,
  handle_notifications, handle_settings,
}
use stock_monitoring.Auth.Routes as Routes
use stock_monitoring.Auth.Routes.{
  OtpRequestSchema, OtpVerifySchema, RefreshRequestSchema, TokenPairSchema,
}
use stock_monitoring.Auth.Service.{AuthService}
use stock_monitoring.Domain.Action.{Action, ◌>>=◌}
use stock_monitoring.Domain.Entities.{Datetime}
use stock_monitoring.Domain.Errors.{Error, Result}
use stock_monitoring.Storage.Engine.{Engine}
use stock_monitoring.Storage.World.{World}

-- The routes that are given the user of the request.
pub data UserRoute : Type 0 where
  read : ReadRoute → UserRoute
  products : ProductsRoute → UserRoute
  watches : WatchesRoute → UserRoute
  notifications : NotificationsRoute → UserRoute
  settings : SettingsRoute → UserRoute

-- The routes for anybody.
pub data PublicRoute : Type 0 where
  health_route : PublicRoute
  request_otp_route : OtpRequestSchema → PublicRoute
  verify_otp_route : OtpVerifySchema → PublicRoute
  refresh_route : RefreshRequestSchema → PublicRoute

pub data Route : Type 0 where
  for_user : UserRoute → Route
  for_anybody : PublicRoute → Route

abbrev pub UserAnswer : UserRoute → Type 0
UserAnswer (UserRoute.read route) = ReadAnswer route
UserAnswer (UserRoute.products route) = ProductsAnswer route
UserAnswer (UserRoute.watches route) = WatchesAnswer route
UserAnswer (UserRoute.notifications route) = NotificationsAnswer route
UserAnswer (UserRoute.settings route) = Dict Json

abbrev pub PublicAnswer : PublicRoute → Type 0
PublicAnswer PublicRoute.health_route = Dict Json
PublicAnswer (PublicRoute.request_otp_route _) = Unit
PublicAnswer (PublicRoute.verify_otp_route _) = TokenPairSchema
PublicAnswer (PublicRoute.refresh_route _) = TokenPairSchema

abbrev pub Answer : Route → Type 0
Answer (Route.for_user route) = UserAnswer route
Answer (Route.for_anybody route) = PublicAnswer route

-- A request as FastAPI has read it: when it comes, its path, its `Authorization` header and the route
-- that it goes to.
pub record Request : Type 0 where
  pub at : Datetime
  pub path : String
  pub authorization : Option String
  pub route : Route

abbrev pub arrive : Datetime → World → World
arrive at w = record w { now = at }

unfoldable pub handle_public :
    AuthService World → (route : PublicRoute) → Action World (PublicAnswer route)
handle_public auth_service PublicRoute.health_route = health
handle_public auth_service (PublicRoute.request_otp_route body) =
    Routes.request_otp auth_service body
handle_public auth_service (PublicRoute.verify_otp_route body) = Routes.verify_otp auth_service body
handle_public auth_service (PublicRoute.refresh_route body) = Routes.refresh auth_service body

unfoldable pub handle : Engine → Floats → (route : UserRoute) → ℕ → Action World (UserAnswer route)
unfolding handle_read handle_products handle_watches handle_notifications handle_settings
handle E floats (UserRoute.read route) = handle_read E floats route
handle E floats (UserRoute.products route) = handle_products E route
handle E floats (UserRoute.watches route) = handle_watches E route
handle E floats (UserRoute.notifications route) = handle_notifications E route
handle E floats (UserRoute.settings route) = handle_settings E route

module _ (E : Engine) (floats : Floats) (message : Error → String)
    (auth_service : AuthService World) where
  -- `Depends(get_current_user_id)` comes before the body of the route.
  unfoldable pub for_current_user :
      (route : UserRoute) → Option String → Action World (UserAnswer route)
  unfolding handle
  for_current_user route authorization =
      get_current_user_id auth_service authorization >>= handle E floats route

  unfoldable pub dispatch_route : (route : Route) → Option String → Action World (Answer route)
  unfolding for_current_user handle_public
  dispatch_route (Route.for_user route) authorization = for_current_user route authorization
  dispatch_route (Route.for_anybody route) authorization = handle_public auth_service route

  unfoldable pub respond :
      (request : Request) → World → Result (Response (Answer request.route)) × World
  unfolding dispatch_route
  respond request w =
      serve E message request.path (dispatch_route request.route request.authorization)
        (arrive request.at w)

  -- The state after a sequence of requests.
  unfoldable pub respond_all : List Request → World → World
  unfolding respond
  respond_all [] w = w
  respond_all (request ∷ requests) w = respond_all requests (respond request w).1
