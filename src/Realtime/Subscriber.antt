-- ===== src/Realtime/Subscriber.antt =====
-- `RedisSubscriber` of backend/app/infrastructure/cache/redis_subscriber.py. Redis and the JSON
-- decoder are parameters.
use stock_monitoring.Common.{String, str_eq, Option, none, some, List, if◌then◌else◌}
use stock_monitoring.Common.Json.{Json}
use stock_monitoring.Domain.Action.{Action, lift, ◌>>=◌, ◌>>◌}
use stock_monitoring.Domain.Errors.{Error, Result, ok, err, map_result}

-- What redis-py's `get_message` gives: the values under `type` and `data`.
pub record RedisMessage : Type 0 where
  pub type : String
  pub text : String

-- `PubSubLike`, for the object that `listen` makes.
pub record PubSub (W : Type 0) : Type 0 where
  pub subscribe : List String → Action W (Unit {0})
  pub unsubscribe : List String → Action W (Unit {0})
  pub get_message : Action W (Option RedisMessage)
  pub close : Action W (Unit {0})

-- What a message's data decode to, if there is a message with data.
abbrev pub decode : (String → Result Json) → Option RedisMessage → Result (Option Json)
decode json_loads none = ok none
decode json_loads (some message) =
    if str_eq message.type "message"
    then map_result (λ j. some j) (json_loads message.text)
    else ok none

-- What a raise in a `try` leads to when its `finally` has run.
abbrev pub raised : {W A : Type 0} → Error → Result (Unit {0}) × W → Result A × W
raised e (ok _, w) = (err e, w)
raised e (err f, w) = (err f, w)

abbrev pub cleaned : {W A : Type 0} → Action W (Unit {0}) → Result A → W → Result A × W
cleaned cleanup (ok a) w = (ok a, w)
cleaned cleanup (err e) w = raised e (cleanup w)

-- A step inside the `try` of a generator: `finally` runs at once only if the step raises.
abbrev pub on_raise : {W A : Type 0} → Action W A → Action W (Unit {0}) → Action W A
on_raise m cleanup w = let (r, w') = m w in cleaned cleanup r w'

module _ {W : Type 0} (pubsub : PubSub W) (json_loads : String → Result Json) where
  open pubsub use {subscribe, unsubscribe, get_message}

  abbrev pub cleanup : List String → Action W (Unit {0})
  cleanup channels = do unsubscribe channels; pubsub.close

  -- One turn of `while True` of `listen`: what it yields, if anything.
  unfoldable pub receive : List String → Action W (Option Json)
  receive channels =
      on_raise (do message ← get_message; lift (decode json_loads message)) (cleanup channels)
