-- ===== src/Domain/Errors.antt =====
-- What the program's functions raise: the exceptions of backend/app/application/exceptions.py,
-- Python's own, SQLAlchemy's on the size of a result and its `IntegrityError`, FastAPI's `HTTPException` and
-- `WebSocketDisconnect`, Playwright's `TimeoutError`, tenacity's `RetryError` and smtplib's
-- `SMTPException`.
use stock_monitoring.Common.{ℕ, String, Option, none, some, List, [], ◌∷◌}

pub data Error : Type 0 where
  rate_limit_exceeded invalid_otp invalid_token : Error
  value_error key_error assertion_error not_implemented : Error
  no_result_found multiple_results_found integrity_error : Error
  timeout_error retry_error os_error smtp_exception websocket_disconnect : Error
  http_exception : ℕ → Error
  other : String → Error

pub data Result {ℓ} (A : Type ℓ) : Type ℓ where
  ok : A → Result A
  err : Error → Result A

-- A parse that raises where there is no value.
abbrev pub or_raise {ℓ} : {A : Type ℓ} → Error → Option A → Result A
or_raise e none = err e
or_raise e (some a) = ok a

abbrev pub map_result {ℓ κ} : {A : Type ℓ} {B : Type κ} → (A → B) → Result A → Result B
map_result f (ok a) = ok (f a)
map_result f (err e) = err e

abbrev collect {ℓ} : {B : Type ℓ} → Result B → Result (List B) → Result (List B)
collect (ok b) (ok bs) = ok (b ∷ bs)
collect (ok b) (err e) = err e
collect (err e) rest = err e

-- A list comprehension whose element expression may raise.
abbrev pub traverse {ℓ κ} : {A : Type ℓ} {B : Type κ} → (A → Result B) → List A → Result (List B)
traverse f [] = ok []
traverse f (x ∷ xs) = collect (f x) (traverse f xs)

-- What follows a result: an error goes past it.
abbrev pub and_then {ℓ κ} : {A : Type ℓ} {B : Type κ} → Result A → (A → Result B) → Result B
and_then (ok a) f = f a
and_then (err e) f = err e
