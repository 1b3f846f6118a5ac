-- ===== src/Api/Main.antt =====
-- How a request is served: the exception handlers of backend/app/api/main.py and the middleware of
-- backend/app/api/error_logging_middleware.py around a route in its session.
use stock_monitoring.Common.{ℕ, String, Option, none, some, [], ◌∷◌, ◌++◌, map, ◌≡◌, refl}
use stock_monitoring.Common.Json.{Dict, Json}
use stock_monitoring.Domain.Action.{Action, pure, ◌>>=◌}
use stock_monitoring.Domain.Entities.{SystemLog}
use stock_monitoring.Domain.Errors.{Error, Result, ok, err}
use stock_monitoring.Storage.Engine.{Engine}
use stock_monitoring.Storage.Rows.{SystemLogModel}
use stock_monitoring.Storage.Session.{in_session, close_session}
use stock_monitoring.Storage.SystemLogs
use stock_monitoring.Storage.World.{World, utcnow}

-- An answer to a request: what the route returns, or an error's status code.
pub data Response (A : Type 0) : Type 0 where
  success : A → Response A
  failure : ℕ → Response A

unfoldable pub health : {W : Type 0} → Action W (Dict Json)
health = pure (("status", Json.str "ok") ∷ [])

-- The exceptions that have a handler, with the status code of the answer; FastAPI's own handler
-- answers an `HTTPException`.
abbrev pub handled : Error → Option ℕ
handled Error.invalid_otp = some 400
handled Error.invalid_token = some 401
handled Error.rate_limit_exceeded = some 429
handled (Error.http_exception status_code) = some status_code
handled _ = none

abbrev pub answer : {A : Type 0} → Error → Option ℕ → Result (Response A)
answer e none = err e
answer e (some status_code) = ok (Response.failure status_code)

abbrev pub handle_exceptions : {A : Type 0} → Result A → Result (Response A)
handle_exceptions (ok a) = ok (Response.success a)
handle_exceptions (err e) = answer e (handled e)

-- The raise that goes on after the error is logged, or the one of the logging.
abbrev pub reraise : {A : Type 0} → Error → Result SystemLog → Result A
reraise e (ok log) = err e
reraise e (err f) = err f

module _ (E : Engine) (message : Error → String) where
  -- `except Exception` of `dispatch`: a row of the system log, in a session of its own.
  unfoldable pub log_error : String → Error → Action World SystemLog
  log_error path e =
      in_session (do
        now ← utcnow
        SystemLogs.create E "error" (message e) (("path", Json.str path) ∷ []) now)

  abbrev pub log_and_raise : {A : Type 0} → String → Result A → World → Result A × World
  log_and_raise path (ok a) w = (ok a, w)
  log_and_raise path (err e) w = let (logged, w') = log_error path e w in (reraise e logged, w')

  -- `ErrorLoggingMiddleware.dispatch`
  unfoldable pub dispatch : {A : Type 0} → String → Action World A → Action World A
  unfolding log_error
  dispatch path call_next w = let (r, w') = call_next w in log_and_raise path r w'

  -- A request to a route of `create_app`.
  unfoldable pub serve : {A : Type 0} → String → Action World A → Action World (Response A)
  unfolding dispatch
  serve path route =
      dispatch path (λ w. let (r, w') = in_session route w in (handle_exceptions r, w'))

  -- The row of the log for an error.
  abbrev pub error_row : World → String → Error → SystemLogModel
  error_row w path e = record {
    id = E.fresh (map (λ (m : SystemLogModel). m.id) w.system_logs);
    level = "error";
    message = message e;
    context = ("path", Json.str path) ∷ [];
    created_at = w.now;
  }

  -- The world after a route that raised: what it wrote to the tables is gone, and an error without a
  -- handler is in the log.
  abbrev pub after_error : World → World → String → Error → Option ℕ → World
  after_error before w path e none = record w {
    db = record before.db {
      system_logs = before.system_logs ++ error_row (record w { db = before.db }) path e ∷ [];
    };
  }
  after_error before w path e (some status_code) = record w { db = before.db }

  -- The outcome of a request by that of its route.
  abbrev pub served : {A : Type 0} → String → World → Result A → World → Result (Response A) × World
  served path before (ok a) w = (ok (Response.success a), w)
  served path before (err e) w = (answer e (handled e), after_error before w path e (handled e))

  served-handled :
      {A : Type 0} (path : String) (before w : World) (e : Error) (status : Option ℕ)
      → log_and_raise {A = Response A} path (answer e status) (record w { db = before.db })
        ≡ (answer e status, after_error before w path e status)
  unfolding log_error in_session SystemLogs.create
  served-handled path before w e none = refl
  served-handled path before w e (some status) = refl

  served-result :
      {A : Type 0} (path : String) (before w : World) (r : Result A)
      → log_and_raise {A = Response A} path (handle_exceptions r) (close_session before r w)
        ≡ served path before r w
  served-result path before w (ok a) = refl
  served-result path before w (err e) = served-handled path before w e (handled e)

  -- A request whose route returns is answered with what it returns, and what the route wrote stays.
  -- If the route raises, its writes to the tables are undone; an `InvalidOtpError`, an
  -- `InvalidTokenError`, a `RateLimitExceededError` and an `HTTPException` are answered with their
  -- status codes, and any other error is raised again after one row with the error and the path is
  -- added to the system log.
  pub serve-eq :
      {A : Type 0} (path : String) (route : Action World A) (w : World)
      → serve path route w ≡ served path w (route w).0 (route w).1
  unfolding serve dispatch in_session
  serve-eq path route w = served-result path w (route w).1 (route w).0
