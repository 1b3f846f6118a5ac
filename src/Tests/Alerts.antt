-- ===== src/Tests/Alerts.antt =====
-- A whole event on concrete rows, and the senders on a network that is down.
use stock_monitoring.Common.{◌⊎◌, inl, ℕ, true, none, some, List, [], ◌∷◌, subst, ◌≡◌, refl, arith}
use stock_monitoring.Common.Int.{ℤ}
use stock_monitoring.Common.Json.{lookup, Json}
use stock_monitoring.Domain.Action.{pure, raise}
use stock_monitoring.Domain.Entities.{NotificationChannel}
use stock_monitoring.Domain.Enums.{
  NotificationChannelType, parse_event_type, parse_availability, parse_channel_type,
}
use stock_monitoring.Domain.Errors.{err, Error, ok, os_error}
use stock_monitoring.Notification.Cooldown.{AllStale}
use stock_monitoring.Notification.Delivery.{with_logs}
use stock_monitoring.Notification.Everyone.{AllAlerted, IsListed}
use stock_monitoring.Notification.Failures.{message_for, SmtpLaws, IsAnswer, send_email-IsAnswer}
use stock_monitoring.Notification.Senders.{
  truthy_value, Formatting, Smtp, SenderSettings, send_email,
}
use stock_monitoring.Notification.Service.{dedup_key, context_of}
use stock_monitoring.Notification.Tasks.{process_detection_event-AllAlerted}
use stock_monitoring.Notification.Watchers.{is_in}
use stock_monitoring.Notification.Wiring.{process_detection_event}
use stock_monitoring.Storage.Channels
use stock_monitoring.Storage.DetectionEvents
use stock_monitoring.Storage.Rows.{NotificationLogModel}
use stock_monitoring.Storage.Snapshots
use stock_monitoring.Storage.WatchTargets
use stock_monitoring.Storage.Watches
use stock_monitoring.Storage.World.{World}
use stock_monitoring.Tests.Notification.{quiet, verified, both, watch, context}
use stock_monitoring.Tests.Samples.{world, event, low_milk, target, telegram, discord, senders}
use stock_monitoring.Tests.Sqlite.{sqlite}

-- The world with the event, its snapshot, and a watch of user 7.
abbrev watched : World
watched = record world {
  db = record world.db {
    detection_events =
        (record {
          id = 9;
          watch_target_id = 1;
          snapshot_id = 1;
          previous_snapshot_id = none;
          event_type = "stock_available";
          created_at = 0;
        })
        ∷ [];
    snapshots =
        (record {
          id = 1;
          watch_target_id = 1;
          timestamp = 0;
          availability = "low_stock";
          price = none;
          mrp = none;
          discount_pct = none;
          eta_minutes = some 8;
          store_name = none;
          image_url = none;
          quantity_label = none;
          variants = "500 ml" ∷ [];
          product_url = none;
        })
        ∷ [];
    watches =
        (record {
          id = 1;
          user_id = 7;
          product_id = 1;
          watch_target_id = 1;
          interval_seconds = ℤ.pos 60;
          is_active = true;
        })
        ∷ [];
  };
}

found : DetectionEvents.get_by_id sqlite 9 watched ≡ (ok (some event), watched)
unfolding DetectionEvents.get_by_id DetectionEvents.to_detection_event parse_event_type
found = refl

snapshot_found : Snapshots.get_by_id sqlite 1 watched ≡ (ok (some low_milk), watched)
unfolding Snapshots.get_by_id Snapshots.to_snapshot_option Snapshots.to_snapshot parse_availability
snapshot_found = refl

target_found : WatchTargets.get_by_id sqlite 1 watched ≡ (ok (some target), watched)
unfolding WatchTargets.get_by_id
target_found = refl

watches_found : Watches.list_by_watch_target 1 watched ≡ (ok (watch 7 ∷ []), watched)
unfolding Watches.list_by_watch_target
watches_found = refl

channels_found : Channels.list_for_user 7 watched ≡ (ok (telegram ∷ discord ∷ []), watched)
unfolding Channels.list_for_user Channels.to_notification_channel parse_channel_type
channels_found = refl

process_detection_event-AllAlerted_example :
    (logs : List NotificationLogModel) × (process_detection_event sqlite senders 9 watched
      ≡ (ok tt, with_logs logs watched))
    × ((u : ℕ) → is_in (7 ∷ []) u ≡ true → AllAlerted senders 9 u both logs)
process_detection_event-AllAlerted_example =
    process_detection_event-AllAlerted sqlite senders verified event 9 target low_milk
      (watch 7 ∷ []) (λ u. both) watched quiet refl found target_found snapshot_found watches_found
      (λ u i.
        subst
          (λ u.
            IsListed sqlite senders verified event 9 (context_of target event low_milk) (λ u. both)
              watched u
            × AllStale (dedup_key u event) watched)
          {x = 7} {y = u} (ground (arith, i)) ((channels_found, (refl, (refl, tt))), refl))

-- No connection can be made.
abbrev down : Smtp World
down = record {
  email_message = λ subject sender to content. ok 1;
  connect = λ host port. raise os_error;
  starttls = λ connection. pure tt;
  login = λ connection user password. pure tt;
  send_message = λ connection message. pure tt;
  exit = λ connection. pure tt;
}

laws : SmtpLaws down
laws = record {
  connect-Catches = λ host port w. inl refl;
  starttls-Catches = λ c w. tt;
  login-Catches = λ c user password w. tt;
  send_message-Catches = λ c message w. tt;
  exit-Catches = λ c w. tt;
}

abbrev plain : Formatting
plain = record { title = λ s. s; format_0f = λ price. "1" }

abbrev settings : SenderSettings
settings = record {
  telegram_bot_token = "t";
  smtp_host = "mail";
  smtp_port = 587;
  smtp_username = "u";
  smtp_password = "p";
  smtp_from_address = "a@b";
}

abbrev email : NotificationChannel
email = record telegram {
  type = NotificationChannelType.email;
  config = ("email", Json.str "c@d") ∷ [];
}

send_email-IsAnswer_example :
    IsAnswer (send_email plain settings down email event context world).0
    ⊎ ((to : Json) × (e : Error) × (truthy_value (lookup "email" email.config) ≡ some to)
        × (message_for plain settings down laws to context ≡ err e)
        × ((send_email plain settings down email event context world).0 ≡ err e))
send_email-IsAnswer_example = send_email-IsAnswer plain settings down laws email event context world
