-- ===== src/Api/Schemas.antt =====
-- The bodies of requests and responses: backend/app/api/schemas. A model raises a `ValueError` where
-- a required key is `None`.
use stock_monitoring.Common.{ℕ, String, Bool, Option, List}
use stock_monitoring.Common.Int.{ℤ}
use stock_monitoring.Common.Json.{Dict, Json}
use stock_monitoring.Domain.Entities.{
  Datetime, Float, Product, Watch, NotificationChannel, NotificationLog, Snapshot, DetectionEvent,
}
use stock_monitoring.Domain.Enums.{availability_value, event_type_value, channel_type_value}
use stock_monitoring.Domain.Errors.{Result, or_raise, map_result, value_error}

pub record WatchCreateSchema : Type 0 where
  pub product_id : ℕ
  pub retailer_slug : String
  pub city : String
  pub pincode : String
  pub interval_seconds : ℤ

pub record WatchSchema : Type 0 where
  pub id : ℕ
  pub product_id : ℕ
  pub watch_target_id : ℕ
  pub interval_seconds : ℤ
  pub is_active : Bool

pub record ProductCreateSchema : Type 0 where
  pub name : String
  pub keyword : String
  pub canonical_image_url : Option String

pub record ProductSchema : Type 0 where
  pub id : ℕ
  pub name : String
  pub keyword : String
  pub canonical_image_url : Option String

pub record ChannelCreateSchema : Type 0 where
  pub type : String
  pub config : Dict Json

pub record ChannelSchema : Type 0 where
  pub id : ℕ
  pub type : String
  pub config : Dict Json
  pub is_verified : Bool

-- `sent_at` is the time that `isoformat` would write out.
pub record NotificationLogEntrySchema : Type 0 where
  pub id : ℕ
  pub detection_event_id : ℕ
  pub channel_id : ℕ
  pub status : String
  pub sent_at : Datetime

pub record SnapshotSchema : Type 0 where
  pub availability : String
  pub price : Option Float
  pub mrp : Option Float
  pub discount_pct : Option Float
  pub eta_minutes : Option ℕ
  pub store_name : Option String
  pub image_url : Option String
  pub quantity_label : Option String
  pub variants : List String
  pub product_url : Option String

pub record HistoryEntrySchema : Type 0 where
  pub event_id : ℕ
  pub event_type : String
  pub created_at : Datetime
  pub snapshot : SnapshotSchema

pub record PricePointSchema : Type 0 where
  pub timestamp : Datetime
  pub price : Option Float

abbrev pub watch_schema : Watch → Result WatchSchema
watch_schema watch =
    map_result
      (λ id. record {
        id = id;
        product_id = watch.product_id;
        watch_target_id = watch.watch_target_id;
        interval_seconds = watch.interval_seconds;
        is_active = watch.is_active;
      })
      (or_raise value_error watch.id)

abbrev pub product_schema : Product → Result ProductSchema
product_schema product =
    map_result
      (λ id. record {
        id = id;
        name = product.name;
        keyword = product.keyword;
        canonical_image_url = product.canonical_image_url;
      })
      (or_raise value_error product.id)

abbrev pub channel_schema : NotificationChannel → Result ChannelSchema
channel_schema channel =
    map_result
      (λ id. record {
        id = id;
        type = channel_type_value channel.type;
        config = channel.config;
        is_verified = channel.is_verified;
      })
      (or_raise value_error channel.id)

abbrev pub log_entry_schema : NotificationLog → Result NotificationLogEntrySchema
log_entry_schema entry =
    map_result
      (λ id. record {
        id = id;
        detection_event_id = entry.detection_event_id;
        channel_id = entry.channel_id;
        status = entry.status;
        sent_at = entry.sent_at;
      })
      (or_raise value_error entry.id)

abbrev pub snapshot_schema : Snapshot → SnapshotSchema
snapshot_schema snapshot = record {
  availability = availability_value snapshot.availability;
  price = snapshot.price;
  mrp = snapshot.mrp;
  discount_pct = snapshot.discount_pct;
  eta_minutes = snapshot.eta_minutes;
  store_name = snapshot.store_name;
  image_url = snapshot.image_url;
  quantity_label = snapshot.quantity_label;
  variants = snapshot.variants;
  product_url = snapshot.product_url;
}

abbrev pub history_entry_schema : DetectionEvent → Snapshot → Result HistoryEntrySchema
history_entry_schema event snapshot =
    map_result
      (λ id. record {
        event_id = id;
        event_type = event_type_value event.event_type;
        created_at = event.created_at;
        snapshot = snapshot_schema snapshot;
      })
      (or_raise value_error event.id)

abbrev pub price_point_schema : Snapshot → PricePointSchema
price_point_schema snapshot = record { timestamp = snapshot.timestamp; price = snapshot.price }
