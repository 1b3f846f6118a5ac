-- ===== src/Notification/Senders.antt =====
-- The senders of backend/app/infrastructure/notifications. The HTTP client, SMTP and Python's
-- formatting are parameters.
use Prim.Native.String.{◌++◌}
use stock_monitoring.Common.{
  ℕ, String, Bool, true, false, not, ◌==◌, ◌||◌, Option, none, some, [], ◌∷◌, if◌then◌else◌,
}
use stock_monitoring.Common.Int.{ℤ}
use stock_monitoring.Common.Json.{Json, Items, Fields, Dict, lookup}
use stock_monitoring.Domain.Action.{Action, pure, lift, finally, ◌>>=◌, ◌>>◌}
use stock_monitoring.Domain.Entities.{
  Float, DetectionEvent, NotificationChannel, NotificationContext,
}
use stock_monitoring.Domain.Enums.{EventType, NotificationChannelType}
use stock_monitoring.Domain.Errors.{Error, Result, ok, err}
use stock_monitoring.Domain.Ports.{NotificationSender}

-- `bool(value)` of a JSON value; the two zeros are the floats that are false.
abbrev pub truthy : Json → Bool
truthy Json.null = false
truthy (Json.bool b) = b
truthy (Json.int (ℤ.pos n)) = not (n == 0)
truthy (Json.int (ℤ.negsuc n)) = true
truthy (Json.float bits) = not (bits == 0 || bits == 9_223_372_036_854_775_808)
truthy (Json.str String.[]) = false
truthy (Json.str (String.◌∷◌ c s)) = true
truthy (Json.arr Items.nil) = false
truthy (Json.arr (Items.cons item items)) = true
truthy (Json.obj Fields.end) = false
truthy (Json.obj (Fields.field key value fields)) = true

-- The value under a key, if it is true.
abbrev pub truthy_value : Option Json → Option Json
truthy_value none = none
truthy_value (some value) = if truthy value then some value else none

-- `str.title`, and `f"{price:.0f}"`.
pub record Formatting : Type 0 where
  pub title : String → String
  pub format_0f : Float → String

-- `_EVENT_LABELS`
abbrev pub event_label : EventType → String
event_label EventType.stock_available = "back in stock"
event_label EventType.out_of_stock = "out of stock"
event_label EventType.low_stock = "running low"
event_label EventType.price_changed = "price changed"
event_label EventType.new_variant = "a new variant available"
event_label EventType.eta_changed = "a changed delivery time"
event_label EventType.store_changed = "a changed fulfilling store"

module _ (formatting : Formatting) where
  abbrev pub price_part : Option Float → String
  price_part none = ""
  price_part (some price) = " — ₹" ++ formatting.format_0f price

  unfoldable pub format_message : NotificationContext → String
  format_message context =
      context.keyword
      ++ (" on "
          ++ (formatting.title context.retailer_slug
              ++ (" is now "
                  ++ (event_label context.event_type
                      ++ (price_part context.snapshot.price ++ ".")))))

-- `HttpClientLike`: the status code of the answer to a POST with a JSON body. A web hook's address is
-- whatever the channel's settings hold.
pub record HttpClient (W : Type 0) : Type 0 where
  pub post : Json → Dict Json → Action W ℕ

-- What is used of `email.message` and `smtplib`. A message and a connection are numbers, their
-- identities; `email_message` makes a message from its subject, sender, receiver and text.
pub record Smtp (W : Type 0) : Type 0 where
  pub email_message : String → String → Json → String → Result ℕ
  pub connect : String → ℕ → Action W ℕ
  pub starttls : ℕ → Action W (Unit {0})
  pub login : ℕ → String → String → Action W (Unit {0})
  pub send_message : ℕ → ℕ → Action W (Unit {0})
  pub exit : ℕ → Action W (Unit {0})

-- The settings that the senders are built from.
pub record SenderSettings : Type 0 where
  pub telegram_bot_token : String
  pub smtp_host : String
  pub smtp_port : ℕ
  pub smtp_username : String
  pub smtp_password : String
  pub smtp_from_address : String

-- `except (OSError, smtplib.SMTPException)`
abbrev pub is_delivery_error : Error → Bool
is_delivery_error Error.os_error = true
is_delivery_error Error.smtp_exception = true
is_delivery_error _ = false

abbrev pub on_delivery_error : Result Bool → Result Bool
on_delivery_error (ok b) = ok b
on_delivery_error (err e) = if is_delivery_error e then ok false else err e

abbrev pub except_delivery_error : {W : Type 0} → Action W Bool → Action W Bool
except_delivery_error m w = let (r, w') = m w in (on_delivery_error r, w')

module _ {W : Type 0} (formatting : Formatting) (settings : SenderSettings) where
  module _ (http_client : HttpClient W) where
    -- `TelegramSender.send`
    unfoldable pub send_telegram :
        NotificationChannel → DetectionEvent → NotificationContext → Action W Bool
    unfolding format_message
    send_telegram channel event context = elim (truthy_value (lookup "chat_id" channel.config)) [
      | none ↦ pure false
      | some chat_id ↦ do
        status_code ←
            http_client.post
              (Json.str
                ("https://api.telegram.org/bot" ++ (settings.telegram_bot_token ++ "/sendMessage")))
              (("chat_id", chat_id) ∷ ("text", Json.str (format_message formatting context)) ∷ [])
        pure (status_code == 200)
    ]

    -- `DiscordSender.send`
    unfoldable pub send_discord :
        NotificationChannel → DetectionEvent → NotificationContext → Action W Bool
    unfolding format_message
    send_discord channel event context = elim (truthy_value (lookup "webhook_url" channel.config)) [
      | none ↦ pure false
      | some webhook_url ↦ do
        status_code ←
            http_client.post webhook_url
              (("content", Json.str (format_message formatting context)) ∷ [])
        pure (status_code == 200 || status_code == 204)
    ]

  module _ (smtp : Smtp W) where
    -- The `with` of `_send_sync`.
    unfoldable pub deliver : ℕ → Action W Bool
    deliver message = do
      connection ← smtp.connect settings.smtp_host settings.smtp_port
      finally
          (do
            smtp.starttls connection
            smtp.login connection settings.smtp_username settings.smtp_password
            smtp.send_message connection message)
          (smtp.exit connection)
      pure true

    -- `EmailSender._send_sync`
    unfoldable pub send_sync : Json → NotificationContext → Action W Bool
    unfolding format_message deliver
    send_sync to_address context = do
      message ← lift (
          smtp.email_message (context.keyword ++ " update") settings.smtp_from_address to_address
            (format_message formatting context))
      except_delivery_error (deliver message)

    -- `EmailSender.send`
    unfoldable pub send_email :
        NotificationChannel → DetectionEvent → NotificationContext → Action W Bool
    unfolding send_sync
    send_email channel event context = elim (truthy_value (lookup "email" channel.config)) [
      | none ↦ pure false
      | some to_address ↦ send_sync to_address context
    ]

  -- The senders of `_process_detection_event_async`.
  abbrev pub senders :
      HttpClient W → Smtp W → NotificationChannelType → Option (NotificationSender W)
  senders http_client smtp NotificationChannelType.telegram =
      some (record { send = send_telegram http_client })
  senders http_client smtp NotificationChannelType.discord =
      some (record { send = send_discord http_client })
  senders http_client smtp NotificationChannelType.email = some (record { send = send_email smtp })
  senders http_client smtp NotificationChannelType.push = none
