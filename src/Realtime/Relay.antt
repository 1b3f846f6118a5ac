-- ===== src/Realtime/Relay.antt =====
-- What the socket sends: the events of the user's own watch targets.
use stock_monitoring.Common.{
  ℕ, String, Bool, true, str_eq, str_eq_iff, ◌==◌, ==_refl, Bool-cases, Option, none, some, inl,
  inr, List, [], ◌∷◌, ◌++◌, any, length, All, append-nil, append_assoc, ◌≡◌, refl, sym, ap, ◌∙◌,
  arith,
}
use text.Mathlib.TextLemmas.{append_cancel_left}
use stock_monitoring.Common.Decimal.{str, parse_int}
use stock_monitoring.Common.Decimal.RoundTrip.{parse_int-str}
use stock_monitoring.Common.Json.{Json, Fields, Dict}
use stock_monitoring.Domain.Ports.{WatchRepository}
use stock_monitoring.Auth.Service.{AuthService, verify_access_token}
use stock_monitoring.Domain.Action.{◌>>=◌}
use stock_monitoring.Domain.Entities.{Watch, DetectionEvent}
use stock_monitoring.Domain.Errors.{Result, ok, err}
use stock_monitoring.Messaging.{events_channel, event_message}
use stock_monitoring.Realtime.Socket.{
  WebSocket, channels_of, forward, relay, stream, admit, websocket_endpoint,
}
use stock_monitoring.Realtime.Subscriber.{PubSub, RedisMessage, decode, receive}

-- A payload as a JSON value.
abbrev pub to_fields : Dict Json → Fields
to_fields [] = Fields.end
to_fields ((key, value) ∷ d) = Fields.field key value (to_fields d)

abbrev pub prepend : Result (Option Json) → List Json → List Json
prepend (ok (some j)) js = j ∷ js
prepend (ok none) js = js
prepend (err e) js = js

abbrev pub is_on : List String → String → Bool
is_on channels channel = any (λ c. str_eq c channel) channels

module _ (json_loads : String → Result Json) where
  -- The JSON values of the messages, in order.
  abbrev pub decoded : List (Option RedisMessage) → List Json
  decoded [] = []
  decoded (message ∷ messages) = prepend (decode json_loads message) (decoded messages)

  -- A message for a subscriber is one that `RedisEventPublisher` has published on one of its channels.
  abbrev pub IsPublished : List String → Option RedisMessage → Type 0
  IsPublished channels none = Unit
  IsPublished channels (some message) =
      str_eq message.type "message" ≡ true
      → (target : ℕ) × (event : DetectionEvent) × (json_loads message.text
          ≡ ok (Json.obj (to_fields (event_message target event).payload)))
        × (is_on channels (event_message target event).channel ≡ true)

-- The JSON value is the payload of an event of a watch target that one of the watches is for.
abbrev pub IsOwnEvent : List Watch → Json → Type 0
IsOwnEvent watches j =
    (target : ℕ) × (event : DetectionEvent) × (j
      ≡ Json.obj (to_fields (event_message target event).payload))
    × (any (λ (x : Watch). x.watch_target_id == target) watches ≡ true)

-- The text of a target's channel tells the target.
events_channel-injective : (m n : ℕ) → events_channel m ≡ events_channel n → m ≡ n
unfolding events_channel
events_channel-injective m n h = ground (
  arith,
  sym (parse_int-str m)
      ∙ (ap parse_int (append_cancel_left "events:" (str m) (str n) h) ∙ parse_int-str n),
)

is_on-channels_of :
    (watches : List Watch) (target : ℕ)
    → is_on (channels_of watches) (events_channel target) ≡ true
    → any (λ (x : Watch). x.watch_target_id == target) watches ≡ true
is_on-channels_of [] target h = absurd (ground (arith, h))
is_on-channels_of (watch ∷ watches) target h =
    elim (Bool-cases (str_eq (events_channel watch.watch_target_id) (events_channel target))) [
      | inl e ↦
          rw
            (
              events_channel-injective watch.watch_target_id target ((str_eq_iff _ _).0 e),
              ==_refl target,
            )
            refl
      | inr e ↦ ground (arith, is_on-channels_of watches target (ground (arith, h, e)))
    ]

-- What is relied on of the socket and of Redis: `answers` are the coming answers of `get_message`,
-- which takes them one by one, and `sent` are the values that the socket has sent, to which
-- `send_json` adds.
pub record Laws {W : Type 0} (websocket : WebSocket W) (pubsub : PubSub W) : Type 0 where
  pub answers : W → List (Option RedisMessage)
  pub sent : W → List Json
  pub get_message-next :
      (m : Option RedisMessage) (ms : List (Option RedisMessage)) (w : W)
      → answers w ≡ m ∷ ms
      → (w' : W) × (pubsub.get_message w ≡ (ok m, w')) × (answers w' ≡ ms) × (sent w' ≡ sent w)
  pub send_json-ok :
      (j : Json) (w : W)
      → (w' : W) × (websocket.send_json j w ≡ (ok tt, w'))
        × (answers w' ≡ answers w)
        × (sent w' ≡ sent w ++ j ∷ [])

module _ {W : Type 0} (websocket : WebSocket W) (pubsub : PubSub W)
    (json_loads : String → Result Json) (laws : Laws websocket pubsub) where
  open laws use {answers, sent}

  -- The outcome of the relay: the values have been sent, in order.
  abbrev pub Sends : List Json → W → Result (Unit {0}) × W → Type 0
  Sends js w r = (r.0 ≡ ok tt) × (sent r.1 ≡ sent w ++ js)

  -- A message that can be decoded.
  abbrev pub IsDecodable : Option RedisMessage → Type 0
  IsDecodable m = (o : Option Json) × (decode json_loads m ≡ ok o)

  relay-turn :
      (channels : List String) (n : ℕ) (ms : List (Option RedisMessage)) (o : Option Json) (w : W)
      → answers w ≡ ms
      → ((v : W)
          → answers v ≡ ms
          → Sends (decoded json_loads ms) v (relay websocket pubsub json_loads channels n v))
      → Sends (prepend (ok o) (decoded json_loads ms)) w (
          (forward websocket pubsub json_loads o >>= λ _.
          relay websocket pubsub json_loads channels n)
            w)
  unfolding forward
  relay-turn channels n ms none w h rest = rest w h
  relay-turn channels n ms (some j) w h rest =
      let (w', e, same, grown) = laws.send_json-ok j w in
      let (done, all) = rest w' (same ∙ h) in rw e (done, all ∙ rw (grown, append_assoc) refl)

  relay-Sends :
      (channels : List String) (ms : List (Option RedisMessage)) (w : W)
      → All IsDecodable ms
      → answers w ≡ ms
      → Sends (decoded json_loads ms) w (relay websocket pubsub json_loads channels (length ms) w)
  unfolding relay receive
  relay-Sends channels [] w h e = (refl, rw append-nil refl)
  relay-Sends channels (m ∷ ms) w ((o, d), h) e =
      let (w', next, left, same) = laws.get_message-next m ms w e in
      let (done, all) =
        relay-turn channels (length ms) ms o w' left (λ v. relay-Sends channels ms v h) in
      rw (next, d) (done, all ∙ ap (λ js. js ++ prepend (ok o) (decoded json_loads ms)) same)

  published-IsOwnEvent :
      (watches : List Watch) (m : Option RedisMessage) (js : List Json)
      → IsPublished json_loads (channels_of watches) m
      → All (IsOwnEvent watches) js
      → All (IsOwnEvent watches) (prepend (decode json_loads m) js)
  published-IsOwnEvent watches none js h own = own
  published-IsOwnEvent watches (some message) js h own =
      elim (Bool-cases (str_eq message.type "message")) [
        | inl e ↦
            let (target, event, loads, on) = h e in
            rw (e, loads) ((target, event, refl, is_on-channels_of watches target on), own)
        | inr e ↦ rw e own
      ]

  decoded-IsOwnEvent :
      (watches : List Watch) (ms : List (Option RedisMessage))
      → All (IsPublished json_loads (channels_of watches)) ms
      → All (IsOwnEvent watches) (decoded json_loads ms)
  decoded-IsOwnEvent watches [] h = tt
  decoded-IsOwnEvent watches (m ∷ ms) h =
      published-IsOwnEvent watches m (decoded json_loads ms) h.0 (decoded-IsOwnEvent watches ms h.1)

  -- If the token is a user's, the user has watches, the socket is accepted and subscribes, sending
  -- works, and what Redis then answers can be decoded and was published on the subscribed channels:
  -- the endpoint sends the decoded messages, all of them, in order and nothing else, and each is an
  -- event of a watch target that one of the user's watches is for.
  pub websocket_endpoint-IsOwnEvent :
      (auth_service : AuthService W) (watch_repo : WatchRepository W) (token : String) (user_id : ℕ)
      (watch : Watch) (watches : List Watch) (ms : List (Option RedisMessage))
      (w known listed accepted subscribed : W)
      → verify_access_token auth_service token w ≡ (ok user_id, known)
      → watch_repo.list_for_user user_id known ≡ (ok (watch ∷ watches), listed)
      → websocket.accept listed ≡ (ok tt, accepted)
      → pubsub.subscribe (channels_of (watch ∷ watches)) accepted ≡ (ok tt, subscribed)
      → answers subscribed ≡ ms
      → All IsDecodable ms
      → All (IsPublished json_loads (channels_of (watch ∷ watches))) ms
      → Sends (decoded json_loads ms) subscribed (
          websocket_endpoint websocket pubsub json_loads auth_service watch_repo
            (length ms)
            token
            w)
        × All (IsOwnEvent (watch ∷ watches)) (decoded json_loads ms)
  unfolding websocket_endpoint admit stream
  websocket_endpoint-IsOwnEvent auth_service watch_repo token user_id watch watches ms w known
        listed accepted subscribed ev el ea es e decodable published =
      let (done, all) = relay-Sends (channels_of (watch ∷ watches)) ms subscribed decodable e in
      (rw (ev, el, ea, es, done) (refl, all), decoded-IsOwnEvent (watch ∷ watches) ms published)
