-- ===== src/Tests/Notification.antt =====
-- The theorems on notifications, on concrete worlds.
use stock_monitoring.Common.{
  none, Option, sym, ap, ℕ, Bool, true, some, List, [], ◌∷◌, map, ◌≡◌, refl, arith,
}
use stock_monitoring.Common.Int.{ℤ}
use stock_monitoring.Domain.Entities.{NotificationChannel, NotificationContext, Watch}
use stock_monitoring.Domain.Enums.{EventType, NotificationChannelType, parse_channel_type}
use stock_monitoring.Domain.Errors.{Result, ok, err, multiple_results_found}
use stock_monitoring.Domain.Ports.{NotificationSender}
use stock_monitoring.Notification.Cooldown.{at, notify_user-repeat}
use stock_monitoring.Notification.Delivery.{AreQuiet}
use stock_monitoring.Notification.Service.{notify_user}
use stock_monitoring.Notification.Wiring.{notification_service}
use stock_monitoring.Storage.Channels
use stock_monitoring.Storage.World.{World}
use stock_monitoring.Tests.Samples.{answers, world, event, low_milk, telegram, discord, senders}
use stock_monitoring.Tests.Sqlite.{sqlite}

abbrev pub verified : NotificationChannel → Bool
verified channel = channel.is_verified

pub quiet : AreQuiet senders verified
quiet channel event context w sender h =
    elim channel.type
        as (λ t.
          senders t ≡ some sender
          → sender.send channel event context w ≡ (ok (verified channel), w)) [
            | NotificationChannelType.telegram ↦ λ e. answered e
            | NotificationChannelType.discord ↦ λ e. answered e
            | NotificationChannelType.email ↦ λ e. ground arith
            | NotificationChannelType.push ↦ λ e. ground arith
          ]
      h
  where
    answer : Option (NotificationSender World) → Result Bool × World
    answer none = (ok true, w)
    answer (some s) = s.send channel event context w

    answered :
        some answers ≡ some sender
        → sender.send channel event context w ≡ (ok (verified channel), w)
    answered e = sym (ap answer e)

abbrev pub context : NotificationContext
context = record {
  keyword = "milk";
  retailer_slug = "blinkit";
  event_type = EventType.stock_available;
  snapshot = low_milk;
}

abbrev pub both : List (NotificationChannel × ℕ)
both = (telegram, 1) ∷ (discord, 2) ∷ []

pub listed :
    Channels.list_for_user 7 world ≡ (ok (map (λ (c : NotificationChannel × ℕ). c.0) both), world)
unfolding Channels.list_for_user Channels.to_notification_channel parse_channel_type
listed = refl

abbrev an_alert_later : World
an_alert_later =
    at 2_000_000 (notify_user (notification_service sqlite senders) event context 7 world).1

notify_user-repeat_example :
    notify_user (notification_service sqlite senders) event context 7 an_alert_later
    ≡ (err multiple_results_found, an_alert_later)
notify_user-repeat_example =
    notify_user-repeat sqlite senders verified event 7 9 context both world 2_000_000 quiet refl
      (refl, (refl, tt)) listed refl (omega arith) (omega arith)

abbrev pub watch : ℕ → Watch
watch user_id = record {
  id = some 1;
  user_id = user_id;
  product_id = 1;
  watch_target_id = 1;
  interval_seconds = ℤ.pos 60;
  is_active = true;
}
