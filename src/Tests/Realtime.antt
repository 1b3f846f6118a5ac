-- ===== src/Tests/Realtime.antt =====
-- The socket on a concrete feed.
use stock_monitoring.Common.{
  String, str_eq, none, some, Option, List, [], ◌∷◌, ◌++◌, All, if◌then◌else◌, ◌≡◌, refl, ap,
}
use stock_monitoring.Common.Json.{Json}
use stock_monitoring.Common.Decimal.{parse_int}
use stock_monitoring.Auth.Service.{AuthService, verify_access_token, verify_token}
use stock_monitoring.Domain.Action.{pure, raise}
use stock_monitoring.Domain.Errors.{Result, ok, err, not_implemented, value_error}
use stock_monitoring.Domain.Ports.{WatchRepository}
use stock_monitoring.Messaging.{event_message, events_channel}
use stock_monitoring.Realtime.Relay.{
  Laws, Sends, IsOwnEvent, decoded, to_fields, websocket_endpoint-IsOwnEvent,
}
use stock_monitoring.Realtime.Socket.{WebSocket, websocket_endpoint}
use stock_monitoring.Realtime.Subscriber.{PubSub, RedisMessage}
use stock_monitoring.Tests.Notification.{watch}
use stock_monitoring.Tests.Samples.{event, hash}

-- What Redis is about to answer, and what the socket has sent.
record Wire : Type 0 where
  pub answers : List (Option RedisMessage)
  pub sent : List Json

abbrev next_answer : List (Option RedisMessage) → List Json → Result (Option RedisMessage) × Wire
next_answer [] sent = (ok none, record { answers = []; sent = sent })
next_answer (m ∷ ms) sent = (ok m, record { answers = ms; sent = sent })

abbrev socket : WebSocket Wire
socket = record {
  accept = pure tt;
  close = λ code. pure tt;
  send_json = λ j w. (ok tt, record w { sent = w.sent ++ j ∷ [] });
}

abbrev pubsub : PubSub Wire
pubsub = record {
  subscribe = λ channels. pure tt;
  unsubscribe = λ channels. pure tt;
  get_message = λ w. next_answer w.answers w.sent;
  close = pure tt;
}

laws : Laws socket pubsub
laws = record {
  answers = λ w. w.answers;
  sent = λ w. w.sent;
  get_message-next = λ m ms w h.
      (record { answers = ms; sent = w.sent }, ap (λ all. next_answer all w.sent) h, refl, refl);
  send_json-ok = λ j w. (record w { sent = w.sent ++ j ∷ [] }, refl, refl, refl);
}

-- One text decodes, to the payload of the event.
abbrev json_loads : String → Result Json
json_loads text =
    if str_eq text "{}"
    then ok (Json.obj (to_fields (event_message 1 event).payload))
    else err value_error

abbrev auth : AuthService Wire
auth = record {
  user_repo = record {
    get_or_create_by_phone = λ phone. raise not_implemented;
    get_by_id = λ id. pure none;
  };
  otp_repo = record {
    create = λ phone code expires now. raise not_implemented;
    get_latest = λ phone. pure none;
    count_recent = λ phone since. pure 0;
    mark_consumed = λ id. pure tt;
    increment_attempt = λ id. pure tt;
  };
  otp_provider = record { send_otp = λ phone code. pure tt };
  jwt = record {
    encode = λ p. p.sub;
    decode = λ now token. some (record { sub = some token; type = some "access" });
  };
  hash = hash;
  randbelow = pure 0;
  utcnow = pure 0;
  access_token_expire_minutes = 15;
  refresh_token_expire_days = 30;
  otp_ttl_seconds = 300;
  otp_max_per_hour = 5;
  otp_max_attempts = 5;
}

abbrev watches : WatchRepository Wire
watches = record {
  create = λ user product target interval. raise not_implemented;
  list_by_watch_target = λ target. pure [];
  list_by_product = λ product. pure [];
  list_for_user = λ user. pure (watch user ∷ []);
  get_by_id = λ id. pure none;
  deactivate = λ id. pure tt;
}

abbrev messages : List (Option RedisMessage)
messages = none ∷ some (record { type = "message"; text = "{}" }) ∷ []

abbrev wire : Wire
wire = record { answers = messages; sent = [] }

known : verify_access_token auth "7" wire ≡ (ok 7, wire)
unfolding verify_access_token verify_token parse_int
known = refl

websocket_endpoint-IsOwnEvent_example :
    Sends socket pubsub json_loads laws
      (Json.obj (to_fields (event_message 1 event).payload) ∷ [])
      wire
      (websocket_endpoint socket pubsub json_loads auth watches 2 "7" wire)
    × All (IsOwnEvent (watch 7 ∷ [])) (decoded json_loads messages)
unfolding events_channel laws
websocket_endpoint-IsOwnEvent_example =
    websocket_endpoint-IsOwnEvent socket pubsub json_loads laws auth watches "7" 7 (watch 7) []
      messages wire wire wire wire wire known refl refl refl refl
      ((none, refl), ((some (Json.obj (to_fields (event_message 1 event).payload)), refl), tt))
      (tt, ((λ h. (1, event, refl, refl)), tt))
