-- ===== src/Storage/Rows.antt =====
-- backend/app/infrastructure/db/models.py: a row of each table. An enum is stored by its value.
use stock_monitoring.Common.{ℕ, String, Bool, Option, List}
use stock_monitoring.Common.Int.{ℤ}
use stock_monitoring.Common.Json.{Dict, Json}
use stock_monitoring.Domain.Entities.{Datetime, Float}

pub record UserModel : Type 0 where
  pub id : ℕ
  pub phone_number : String
  pub email : Option String
  pub created_at : Datetime

pub record OtpChallengeModel : Type 0 where
  pub id : ℕ
  pub phone_number : String
  pub code_hash : String
  pub expires_at : Datetime
  pub created_at : Datetime
  pub consumed : Bool
  pub attempt_count : ℕ

pub record RetailerModel : Type 0 where
  pub id : ℕ
  pub slug : String
  pub name : String
  pub is_active : Bool

pub record ProductModel : Type 0 where
  pub id : ℕ
  pub user_id : ℕ
  pub name : String
  pub keyword : String
  pub canonical_image_url : Option String

pub record WatchTargetModel : Type 0 where
  pub id : ℕ
  pub retailer_slug : String
  pub city : String
  pub pincode : String
  pub keyword : String
  pub interval_seconds : ℤ
  pub last_checked_at : Option Datetime

pub record WatchModel : Type 0 where
  pub id : ℕ
  pub user_id : ℕ
  pub product_id : ℕ
  pub watch_target_id : ℕ
  pub interval_seconds : ℤ
  pub is_active : Bool

pub record SnapshotModel : Type 0 where
  pub id : ℕ
  pub watch_target_id : ℕ
  pub timestamp : Datetime
  pub availability : String
  pub price : Option Float
  pub mrp : Option Float
  pub discount_pct : Option Float
  pub eta_minutes : Option ℕ
  pub store_name : Option String
  pub image_url : Option String
  pub quantity_label : Option String
  pub variants : List String
  pub product_url : Option String

pub record DetectionEventModel : Type 0 where
  pub id : ℕ
  pub watch_target_id : ℕ
  pub snapshot_id : ℕ
  pub previous_snapshot_id : Option ℕ
  pub event_type : String
  pub created_at : Datetime

pub record NotificationChannelModel : Type 0 where
  pub id : ℕ
  pub user_id : ℕ
  pub type : String
  pub config_json : Dict Json
  pub is_verified : Bool

pub record NotificationLogModel : Type 0 where
  pub id : ℕ
  pub user_id : ℕ
  pub detection_event_id : ℕ
  pub channel_id : ℕ
  pub status : String
  pub sent_at : Datetime
  pub dedup_key : String

pub record SettingsModel : Type 0 where
  pub id : ℕ
  pub user_id : Option ℕ
  pub key : String
  pub value_json : Json

pub record SystemLogModel : Type 0 where
  pub id : ℕ
  pub level : String
  pub message : String
  pub context : Dict Json
  pub created_at : Datetime
