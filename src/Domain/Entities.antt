-- ===== src/Domain/Entities.antt =====
-- backend/app/domain/entities.py. A datetime is the number of microseconds since `datetime.min`, a
-- float the number of its bit pattern (prices are finite and not negative, so two of them are
-- equal as floats where the patterns are).
use stock_monitoring.Common.{ℕ, String, Bool, Option, List}
use stock_monitoring.Common.Int.{ℤ}
use stock_monitoring.Common.Json.{Dict, Json}
use stock_monitoring.Domain.Enums.{Availability, EventType, NotificationChannelType}

abbrev pub Datetime : Type 0
Datetime = ℕ

abbrev pub Float : Type 0
Float = ℕ

pub record LocationContext : Type 0 where
  pub city : String
  pub pincode : String

pub record ProviderProductResult : Type 0 where
  pub retailer_slug : String
  pub keyword : String
  pub product_name : String
  pub availability : Availability
  pub price : Option Float
  pub mrp : Option Float
  pub discount_pct : Option Float
  pub eta_minutes : Option ℕ
  pub store_name : Option String
  pub image_url : Option String
  pub quantity_label : Option String
  pub variants : List String
  pub product_url : Option String
  pub scraped_at : Datetime

pub record WatchTarget : Type 0 where
  pub id : Option ℕ
  pub retailer_slug : String
  pub city : String
  pub pincode : String
  pub keyword : String
  pub interval_seconds : ℤ

pub record Snapshot : Type 0 where
  pub id : Option ℕ
  pub watch_target_id : ℕ
  pub timestamp : Datetime
  pub availability : Availability
  pub price : Option Float
  pub mrp : Option Float
  pub discount_pct : Option Float
  pub eta_minutes : Option ℕ
  pub store_name : Option String
  pub image_url : Option String
  pub quantity_label : Option String
  pub variants : List String
  pub product_url : Option String

pub record DetectionEvent : Type 0 where
  pub id : Option ℕ
  pub watch_target_id : ℕ
  pub snapshot_id : ℕ
  pub previous_snapshot_id : Option ℕ
  pub event_type : EventType
  pub created_at : Datetime

pub record Product : Type 0 where
  pub id : Option ℕ
  pub user_id : ℕ
  pub name : String
  pub keyword : String
  pub canonical_image_url : Option String

pub record Watch : Type 0 where
  pub id : Option ℕ
  pub user_id : ℕ
  pub product_id : ℕ
  pub watch_target_id : ℕ
  pub interval_seconds : ℤ
  pub is_active : Bool

pub record NotificationChannel : Type 0 where
  pub id : Option ℕ
  pub user_id : ℕ
  pub type : NotificationChannelType
  pub config : Dict Json
  pub is_verified : Bool

pub record NotificationLog : Type 0 where
  pub id : Option ℕ
  pub user_id : ℕ
  pub detection_event_id : ℕ
  pub channel_id : ℕ
  pub status : String
  pub sent_at : Datetime
  pub dedup_key : String

pub record User : Type 0 where
  pub id : Option ℕ
  pub phone_number : String
  pub email : Option String
  pub created_at : Datetime

pub record OtpChallenge : Type 0 where
  pub id : Option ℕ
  pub phone_number : String
  pub code_hash : String
  pub expires_at : Datetime
  pub created_at : Datetime
  pub consumed : Bool
  pub attempt_count : ℕ

pub record TokenPair : Type 0 where
  pub access_token : String
  pub refresh_token : String

pub record NotificationContext : Type 0 where
  pub keyword : String
  pub retailer_slug : String
  pub event_type : EventType
  pub snapshot : Snapshot

pub record Retailer : Type 0 where
  pub id : Option ℕ
  pub slug : String
  pub name : String
  pub is_active : Bool

pub record SystemLog : Type 0 where
  pub id : Option ℕ
  pub level : String
  pub message : String
  pub context : Dict Json
  pub created_at : Datetime

-- The snapshot that holds what a scrape of a target found.
abbrev pub snapshot_of : Option ℕ → ℕ → ProviderProductResult → Snapshot
snapshot_of id target result = record {
  id = id;
  watch_target_id = target;
  timestamp = result.scraped_at;
  availability = result.availability;
  price = result.price;
  mrp = result.mrp;
  discount_pct = result.discount_pct;
  eta_minutes = result.eta_minutes;
  store_name = result.store_name;
  image_url = result.image_url;
  quantity_label = result.quantity_label;
  variants = result.variants;
  product_url = result.product_url;
}
