-- ===== src/Realtime/Socket.antt =====
-- `websocket_endpoint` of backend/app/api/websocket.py. The web framework's socket is a parameter.
use stock_monitoring.Common.{
  ℕ, zero, suc, String, Bool, true, false, Option, none, some, List, [], ◌∷◌, map, if◌then◌else◌,
}
use stock_monitoring.Common.Json.{Json}
use stock_monitoring.Auth.Service.{AuthService, verify_access_token}
use stock_monitoring.Domain.Action.{Action, pure, raise, ◌>>=◌, ◌>>◌}
use stock_monitoring.Domain.Entities.{Watch}
use stock_monitoring.Domain.Errors.{Error, Result, ok, err}
use stock_monitoring.Domain.Ports.{WatchRepository}
use stock_monitoring.Messaging.{events_channel}
use stock_monitoring.Realtime.Subscriber.{PubSub, receive}

pub record WebSocket (W : Type 0) : Type 0 where
  pub accept : Action W (Unit {0})
  pub close : ℕ → Action W (Unit {0})
  pub send_json : Json → Action W (Unit {0})

-- `except InvalidTokenError`
abbrev is_invalid_token : Error → Bool
is_invalid_token Error.invalid_token = true
is_invalid_token _ = false

-- `except WebSocketDisconnect`
abbrev is_disconnect : Error → Bool
is_disconnect Error.websocket_disconnect = true
is_disconnect _ = false

abbrev on_disconnect : Result (Unit {0}) → Result (Unit {0})
on_disconnect (ok _) = ok tt
on_disconnect (err e) = if is_disconnect e then ok tt else err e

abbrev except_disconnect : {W : Type 0} → Action W (Unit {0}) → Action W (Unit {0})
except_disconnect m w = let (r, w') = m w in (on_disconnect r, w')

abbrev pub channels_of : List Watch → List String
channels_of watches = map (λ (x : Watch). events_channel x.watch_target_id) watches

module _ {W : Type 0} (websocket : WebSocket W) (pubsub : PubSub W)
    (json_loads : String → Result Json) where
  unfoldable pub forward : Option Json → Action W (Unit {0})
  forward none = pure tt
  forward (some message) = websocket.send_json message

  -- `async for message in subscriber.listen(channels)`, for a number of turns of its loop, which has
  -- no end of its own.
  unfoldable pub relay : List String → ℕ → Action W (Unit {0})
  unfolding receive forward
  relay channels zero = pure tt
  relay channels (suc turns) = do
    message ← receive pubsub json_loads channels
    forward message
    relay channels turns

  -- What is done for a user, from the watches.
  unfoldable pub stream : ℕ → List Watch → Action W (Unit {0})
  unfolding relay
  stream turns [] = websocket.close 4404
  stream turns (watch ∷ watches) = do
    websocket.accept
    except_disconnect (do
      pubsub.subscribe (channels_of (watch ∷ watches))
      relay (channels_of (watch ∷ watches)) turns)

  module _ (auth_service : AuthService W) (watch_repo : WatchRepository W) where
    unfoldable pub admit : ℕ → Result ℕ → Action W (Unit {0})
    unfolding stream
    admit turns (ok user_id) = do watches ← watch_repo.list_for_user user_id; stream turns watches
    admit turns (err e) = if is_invalid_token e then websocket.close 4401 else raise e

    unfoldable pub websocket_endpoint : ℕ → String → Action W (Unit {0})
    unfolding admit
    websocket_endpoint turns token w =
        let (user, w') = verify_access_token auth_service token w in admit turns user w'
