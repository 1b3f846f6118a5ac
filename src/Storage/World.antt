-- ===== src/Storage/World.antt =====
-- The state outside the services: the tables that a session sees, the clock, and what has been
-- handed to Redis, Celery and the SMS sender. A table is the list of its rows in the order in which
-- a SELECT without ORDER BY returns them; the theorems hold for every order.
use stock_monitoring.Common.{ℕ, String, List}
use stock_monitoring.Common.Json.{Dict, Json}
use stock_monitoring.Domain.Action.{Action, gets}
use stock_monitoring.Domain.Entities.{Datetime}
use stock_monitoring.Storage.Rows.{
  UserModel, OtpChallengeModel, RetailerModel, ProductModel, WatchTargetModel, WatchModel,
  SnapshotModel, DetectionEventModel, NotificationChannelModel, NotificationLogModel, SettingsModel,
  SystemLogModel,
}

pub record Db : Type 0 where
  pub users : List UserModel
  pub otp_challenges : List OtpChallengeModel
  pub retailers : List RetailerModel
  pub products : List ProductModel
  pub watch_targets : List WatchTargetModel
  pub watches : List WatchModel
  pub snapshots : List SnapshotModel
  pub detection_events : List DetectionEventModel
  pub notification_channels : List NotificationChannelModel
  pub notification_logs : List NotificationLogModel
  pub settings : List SettingsModel
  pub system_logs : List SystemLogModel

-- A message on a Redis channel, before it is encoded as JSON text.
pub record Message : Type 0 where
  pub channel : String
  pub payload : Dict Json

-- A Celery task by its name, with its arguments.
pub record Task : Type 0 where
  pub name : String
  pub args : List ℕ

pub record Sms : Type 0 where
  pub phone_number : String
  pub code : String

pub record World : Type 0 where
  pub db : Db
  pub open db use *
  pub now : Datetime
  pub published : List Message
  pub dispatched : List Task
  pub texts : List Sms

-- `datetime.now(timezone.utc)`. The clock stands still within one operation.
abbrev pub utcnow : Action World Datetime
utcnow w = gets (λ v. v.now) w
