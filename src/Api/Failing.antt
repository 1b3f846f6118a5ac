-- ===== src/Api/Failing.antt =====
-- Requests whose routes raise, one after the other, through the exception handlers of
-- backend/app/api/main.py and the middleware of backend/app/api/error_logging_middleware.py.
use stock_monitoring.Common.{
  ℕ, String, Option, none, some, List, [], ◌∷◌, ◌++◌, map, append_assoc, append-nil, map-append,
  ◌≡◌, refl, sym, subst, ap, ◌∙◌,
}
use stock_monitoring.Common.Json.{Dict, Json}
use stock_monitoring.Api.Main.{Response, serve, serve-eq, handled, answer, after_error}
use stock_monitoring.Domain.Action.{Action}
use stock_monitoring.Domain.Errors.{Error, Result, ok, err}
use stock_monitoring.Storage.Engine.{Engine}
use stock_monitoring.Storage.Rows.{SystemLogModel}
use stock_monitoring.Storage.World.{Db, World}

-- A request: its path, and a route that raises an error after it has done anything to the world.
pub record Failing : Type 0 where
  pub path : String
  pub error : Error
  pub touch : World → World

-- The status codes of the answers to errors; an error without one is a defect of the server.
abbrev pub status_code : Error → Option ℕ
status_code Error.invalid_otp = some 400
status_code Error.invalid_token = some 401
status_code Error.rate_limit_exceeded = some 429
status_code (Error.http_exception n) = some n
status_code _ = none

abbrev pub answered : {A : Type 0} → Error → Option ℕ → Result (Response A)
answered e none = err e
answered e (some code) = ok (Response.failure code)

-- What the system log is to say of a request.
abbrev pub entry : SystemLogModel → String × (String × Dict Json)
entry m = (m.level, (m.message, m.context))

module _ (message : Error → String) where
  abbrev pub logged_one : Failing → Option ℕ → List (String × (String × Dict Json))
  logged_one q none = ("error", (message q.error, ("path", Json.str q.path) ∷ [])) ∷ []
  logged_one q (some code) = []

  -- What the log is to say of the requests: one entry for each defect, in order.
  abbrev pub logged : List Failing → List (String × (String × Dict Json))
  logged [] = []
  logged (q ∷ qs) = logged_one q (status_code q.error) ++ logged qs

abbrev with_logs : World → World → World
with_logs w w' = record w { db = record w.db { system_logs = w'.system_logs } }

handled-status_code : (e : Error) → handled e ≡ status_code e
handled-status_code e = refl

module _ (A : Type 0) (E : Engine) (message : Error → String) where
  abbrev pub route : Failing → Action World A
  route q w = (err q.error, q.touch w)

  -- The answers to the requests, and the world after them.
  unfoldable pub serve_each : List Failing → World → List (Result (Response A)) × World
  serve_each [] w = ([], w)
  serve_each (q ∷ qs) w =
      let (r, w') = serve E message q.path (route q) w in
      let (rs, w'') = serve_each qs w' in (r ∷ rs, w'')

  after_error-logged :
      (q : Failing) (w : World) (code : Option ℕ)
      → let w' = after_error E message w (q.touch w) q.path q.error code in
        (answer {A = A} q.error code ≡ answered q.error code)
        × (w'.db ≡ (with_logs w w').db)
        × (map entry w'.system_logs ≡ map entry w.system_logs ++ logged_one message q code)
  after_error-logged q w none = (refl, refl, map-append entry w.system_logs _)
  after_error-logged q w (some code) = (refl, refl, sym (append-nil _))

  serve-failing :
      (q : Failing) (w : World)
      → let (r, w') = serve E message q.path (route q) w in
        (r ≡ answered q.error (status_code q.error))
        × (w'.db ≡ (with_logs w w').db)
        × (map entry w'.system_logs
            ≡ map entry w.system_logs ++ logged_one message q (status_code q.error))
  serve-failing q w = rw (serve-eq E message q.path (route q) w) (
      subst
        (λ code.
          let w' = after_error E message w (q.touch w) q.path q.error (handled q.error) in
          (answer {A = A} q.error (handled q.error) ≡ answered q.error code)
          × (w'.db ≡ (with_logs w w').db)
          × (map entry w'.system_logs ≡ map entry w.system_logs ++ logged_one message q code))
        (handled-status_code q.error) (after_error-logged q w (handled q.error)))

  -- Requests whose routes raise, each after it has done anything to the world: each is answered
  -- with 400 for an `InvalidOtpError`, 401 for an `InvalidTokenError`, 429 for a
  -- `RateLimitExceededError` and the status code of an `HTTPException`, and raises any other error
  -- again. After all of them, every table but the system log is as it was before the first, and the
  -- system log has one new entry for each of the other errors, in order, with its message and path.
  pub serve_each-logged :
      (qs : List Failing) (w : World)
      → let (answers, w') = serve_each qs w in
        (answers ≡ map (λ (q : Failing). answered q.error (status_code q.error)) qs)
        × (w'.db ≡ record w.db { system_logs = w'.system_logs })
        × (map entry w'.system_logs ≡ map entry w.system_logs ++ logged message qs)
  unfolding serve_each
  serve_each-logged [] w = (refl, refl, sym (append-nil _))
  serve_each-logged (q ∷ qs) w =
      let w' = (serve E message q.path (route q) w).1 in
      let one = serve-failing q w in
      let rest = serve_each-logged qs w' in
      (
        rw (one.0, rest.0) refl,
        rest.1
            ∙ ap (λ (db : Db). record db { system_logs = (serve_each qs w').1.system_logs }) one.1,
        rest.2
            ∙ (ap (λ l. l ++ logged message qs) one.2
                ∙ append_assoc (map entry w.system_logs)
                    (logged_one message q (status_code q.error)) (logged message qs)),
      )
