-- ===== src/Notification/Failures.antt =====
-- What a sender does when the network fails.
use Prim.Native.String.{◌++◌}
use stock_monitoring.Common.{some, ◌⊎◌, ℕ, String, Bool, false, ◌≡◌, refl, Option-cases, inl, inr}
use stock_monitoring.Common.Json.{Json, lookup}
use stock_monitoring.Domain.Action.{Action, finally, after_finally, continue, ◌>>=◌}
use stock_monitoring.Domain.Entities.{DetectionEvent, NotificationChannel, NotificationContext}
use stock_monitoring.Domain.Errors.{Error, Result, ok, err}
use stock_monitoring.Notification.Senders.{
  Formatting, Smtp, SenderSettings, truthy_value, format_message, on_delivery_error, deliver,
  send_sync, send_email,
}

-- A result is a value, an `OSError` or an `SMTPException`.
abbrev pub IsCaught : {A : Type 0} → Result A → Type 0
IsCaught (ok a) = Unit
IsCaught (err e) = (e ≡ Error.os_error) ⊎ (e ≡ Error.smtp_exception)

abbrev pub Catches : {W A : Type 0} → Action W A → Type 0
Catches {W} m = (w : W) → IsCaught (m w).0

module _ {W A : Type 0} where
  continue-Catches :
      {B : Type 0} (r : Result B) (f : B → Action W A)
      → IsCaught r
      → ((b : B) → Catches (f b))
      → Catches (continue r f)
  continue-Catches (ok b) f h k w = k b w
  continue-Catches (err e) f h k w = h

  bind-Catches :
      {B : Type 0} (m : Action W B) (f : B → Action W A)
      → Catches m
      → ((b : B) → Catches (f b))
      → Catches (m >>= f)
  bind-Catches m f h k w = continue-Catches (m w).0 f (h w) k (m w).1

  after_finally-IsCaught :
      (r : Result A) (x : Result (Unit {0}) × W)
      → IsCaught r
      → IsCaught x.0
      → IsCaught (after_finally r x).0
  after_finally-IsCaught r (ok t, w) h k = h
  after_finally-IsCaught r (err e, w) h k = k

  finally-Catches :
      (m : Action W A) (k : Action W (Unit {0})) → Catches m → Catches k → Catches (finally m k)
  finally-Catches m k h i w = after_finally-IsCaught (m w).0 (k (m w).1) (h w) (i (m w).1)

Result-cases : {A : Type 0} (r : Result A) → ((a : A) × (r ≡ ok a)) ⊎ ((e : Error) × (r ≡ err e))
Result-cases (ok a) = inl (a, refl)
Result-cases (err e) = inr (e, refl)

-- Whether a result is an answer.
abbrev pub IsAnswer : Result Bool → Type 0
IsAnswer r = (b : Bool) × (r ≡ ok b)

on_delivery_error-IsAnswer : (r : Result Bool) → IsCaught r → IsAnswer (on_delivery_error r)
on_delivery_error-IsAnswer (ok b) h = (b, refl)
on_delivery_error-IsAnswer (err e) (inl os) = rw os (false, refl)
on_delivery_error-IsAnswer (err e) (inr smtp) = rw smtp (false, refl)

-- What `smtplib` raises is an `OSError` or an `SMTPException`.
pub record SmtpLaws {W : Type 0} (smtp : Smtp W) : Type 0 where
  pub connect-Catches : (host : String) (port : ℕ) → Catches (smtp.connect host port)
  pub starttls-Catches : (c : ℕ) → Catches (smtp.starttls c)
  pub login-Catches : (c : ℕ) (user password : String) → Catches (smtp.login c user password)
  pub send_message-Catches : (c message : ℕ) → Catches (smtp.send_message c message)
  pub exit-Catches : (c : ℕ) → Catches (smtp.exit c)

module _ {W : Type 0} (formatting : Formatting) (settings : SenderSettings) where
  module _ (smtp : Smtp W) (laws : SmtpLaws smtp) where
    deliver-Catches : (message : ℕ) → Catches (deliver formatting settings smtp message)
    unfolding deliver
    deliver-Catches message =
        bind-Catches (smtp.connect settings.smtp_host settings.smtp_port) _
          (laws.connect-Catches settings.smtp_host settings.smtp_port)
          (λ c.
            bind-Catches (finally _ (smtp.exit c)) _
              (finally-Catches _ (smtp.exit c)
                (bind-Catches (smtp.starttls c) _ (laws.starttls-Catches c) (λ _.
                  bind-Catches (smtp.login c settings.smtp_username settings.smtp_password) _
                    (laws.login-Catches c settings.smtp_username settings.smtp_password)
                    (λ _. laws.send_message-Catches c message)))
                (laws.exit-Catches c))
              (λ _ w. tt))

    -- What `EmailMessage` makes for an event and a receiver.
    abbrev pub message_for : Json → NotificationContext → Result ℕ
    message_for to context =
        smtp.email_message (context.keyword ++ " update") settings.smtp_from_address to
          (format_message formatting context)

    -- Sending answers, or raises what stood in the way of making the message.
    abbrev pub Answers : Json → NotificationContext → Result Bool → Type 0
    Answers to context r =
        IsAnswer r ⊎ ((e : Error) × (message_for to context ≡ err e) × (r ≡ err e))

    send_sync-Answers :
        (to : Json) (context : NotificationContext) (w : W)
        → Answers to context (send_sync formatting settings smtp to context w).0
    unfolding send_sync
    send_sync-Answers to context w = elim (Result-cases (message_for to context)) [
      | inl (message, e) ↦ rw e (inl (on_delivery_error-IsAnswer _ (deliver-Catches message w)))
      | inr (e, raised) ↦ rw raised (inr (e, refl, refl))
    ]

    -- If `smtplib` raises nothing but `SMTPException` and `OSError`, sending an email to a channel
    -- answers, true or false, unless the channel has a receiver for whom the message cannot be made:
    -- then what the making raises is raised.
    pub send_email-IsAnswer :
        (channel : NotificationChannel) (event : DetectionEvent) (context : NotificationContext)
        (w : W)
        → IsAnswer (send_email formatting settings smtp channel event context w).0
          ⊎ ((to : Json) × (e : Error) × (truthy_value (lookup "email" channel.config) ≡ some to)
              × (message_for to context ≡ err e)
              × ((send_email formatting settings smtp channel event context w).0 ≡ err e))
    unfolding send_email
    send_email-IsAnswer channel event context w =
        elim (Option-cases (truthy_value (lookup "email" channel.config))) [
          | inl e ↦ rw (send_email, e) (inl (false, refl))
          | inr (to, e) ↦
              rw (send_email, e)
                (elim (send_sync-Answers to context w) [
                  | inl answered ↦ inl answered
                  | inr (raised, unmade, same) ↦ inr (to, raised, refl, unmade, same)
                ])
        ]
