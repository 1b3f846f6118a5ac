-- ===== src/Storage/Schema/Models.antt =====
-- The tables that the classes of backend/app/infrastructure/db/models.py declare. A column is NOT NULL
-- unless its annotation is `T | None`.
use stock_monitoring.Common.{false, true, some, List, [], ◌∷◌, String}
use stock_monitoring.Storage.Schema.{ColumnType, Default, Column, Table, column, primary_key_column}

-- `Mapped[T]` and `Mapped[T | None]`
abbrev required : String → ColumnType → Column
required name type = record (column name type) { nullable = false }

abbrev optional : String → ColumnType → Column
optional name type = column name type

abbrev pub users_metadata : Table
users_metadata = record {
  name = "users";
  columns =
      primary_key_column "id"
      ∷ record (required "phone_number" ColumnType.string) { unique = true; index = true }
      ∷ record (optional "email" ColumnType.string) { nullable = true }
      ∷ required "created_at" ColumnType.datetime
      ∷ [];
  constraints = [];
}

abbrev pub otp_challenges_metadata : Table
otp_challenges_metadata = record {
  name = "otp_challenges";
  columns =
      primary_key_column "id"
      ∷ record (required "phone_number" ColumnType.string) { index = true }
      ∷ required "code_hash" ColumnType.string
      ∷ required "expires_at" ColumnType.datetime
      ∷ required "created_at" ColumnType.datetime
      ∷ record (required "consumed" ColumnType.boolean) { default = some (Default.of_bool false) }
      ∷ record (required "attempt_count" ColumnType.integer) { default = some (Default.of_int 0) }
      ∷ [];
  constraints = [];
}

abbrev pub retailers_metadata : Table
retailers_metadata = record {
  name = "retailers";
  columns =
      primary_key_column "id"
      ∷ record (required "slug" ColumnType.string) { unique = true }
      ∷ required "name" ColumnType.string
      ∷ record (required "is_active" ColumnType.boolean) { default = some (Default.of_bool true) }
      ∷ [];
  constraints = [];
}

abbrev pub products_metadata : Table
products_metadata = record {
  name = "products";
  columns =
      primary_key_column "id"
      ∷ record (required "user_id" ColumnType.integer) {
        foreign_key = some (record { table = "users"; column = "id" });
      }
      ∷ required "name" ColumnType.string
      ∷ required "keyword" ColumnType.string
      ∷ record (optional "canonical_image_url" ColumnType.string) { nullable = true }
      ∷ [];
  constraints = [];
}

abbrev pub watch_targets_metadata : Table
watch_targets_metadata = record {
  name = "watch_targets";
  columns =
      primary_key_column "id"
      ∷ required "retailer_slug" ColumnType.string
      ∷ required "city" ColumnType.string
      ∷ required "pincode" ColumnType.string
      ∷ required "keyword" ColumnType.string
      ∷ record (required "interval_seconds" ColumnType.integer) {
        default = some (Default.of_int 300);
      }
      ∷ record (optional "last_checked_at" ColumnType.datetime) { nullable = true }
      ∷ [];
  constraints =
      record {
        columns = "retailer_slug" ∷ "city" ∷ "pincode" ∷ "keyword" ∷ [];
        name = "uq_watch_target";
      }
      ∷ [];
}

abbrev pub watches_metadata : Table
watches_metadata = record {
  name = "watches";
  columns =
      primary_key_column "id"
      ∷ record (required "user_id" ColumnType.integer) {
        foreign_key = some (record { table = "users"; column = "id" });
      }
      ∷ record (required "product_id" ColumnType.integer) {
        foreign_key = some (record { table = "products"; column = "id" });
      }
      ∷ record (required "watch_target_id" ColumnType.integer) {
        foreign_key = some (record { table = "watch_targets"; column = "id" });
      }
      ∷ record (required "interval_seconds" ColumnType.integer) {
        default = some (Default.of_int 300);
      }
      ∷ record (required "is_active" ColumnType.boolean) { default = some (Default.of_bool true) }
      ∷ [];
  constraints = [];
}

abbrev pub snapshots_metadata : Table
snapshots_metadata = record {
  name = "snapshots";
  columns =
      primary_key_column "id"
      ∷ record (required "watch_target_id" ColumnType.integer) {
        foreign_key = some (record { table = "watch_targets"; column = "id" });
        index = true;
      }
      ∷ required "timestamp" ColumnType.datetime
      ∷ required "availability" ColumnType.string
      ∷ optional "price" ColumnType.float
      ∷ optional "mrp" ColumnType.float
      ∷ optional "discount_pct" ColumnType.float
      ∷ optional "eta_minutes" ColumnType.integer
      ∷ optional "store_name" ColumnType.string
      ∷ optional "image_url" ColumnType.string
      ∷ optional "quantity_label" ColumnType.string
      ∷ record (required "variants" ColumnType.json) { default = some (Default.empty_list) }
      ∷ optional "product_url" ColumnType.string
      ∷ [];
  constraints = [];
}

abbrev pub detection_events_metadata : Table
detection_events_metadata = record {
  name = "detection_events";
  columns =
      primary_key_column "id"
      ∷ record (required "watch_target_id" ColumnType.integer) {
        foreign_key = some (record { table = "watch_targets"; column = "id" });
        index = true;
      }
      ∷ record (required "snapshot_id" ColumnType.integer) {
        foreign_key = some (record { table = "snapshots"; column = "id" });
      }
      ∷ record (optional "previous_snapshot_id" ColumnType.integer) {
        foreign_key = some (record { table = "snapshots"; column = "id" });
        nullable = true;
      }
      ∷ required "event_type" ColumnType.string
      ∷ required "created_at" ColumnType.datetime
      ∷ [];
  constraints = [];
}

abbrev pub notification_channels_metadata : Table
notification_channels_metadata = record {
  name = "notification_channels";
  columns =
      primary_key_column "id"
      ∷ record (required "user_id" ColumnType.integer) {
        foreign_key = some (record { table = "users"; column = "id" });
      }
      ∷ required "type" ColumnType.string
      ∷ record (required "config_json" ColumnType.json) { default = some (Default.empty_dict) }
      ∷ record (required "is_verified" ColumnType.boolean) {
        default = some (Default.of_bool false);
      }
      ∷ [];
  constraints = [];
}

abbrev pub notification_logs_metadata : Table
notification_logs_metadata = record {
  name = "notification_logs";
  columns =
      primary_key_column "id"
      ∷ record (required "user_id" ColumnType.integer) {
        foreign_key = some (record { table = "users"; column = "id" });
      }
      ∷ record (required "detection_event_id" ColumnType.integer) {
        foreign_key = some (record { table = "detection_events"; column = "id" });
      }
      ∷ record (required "channel_id" ColumnType.integer) {
        foreign_key = some (record { table = "notification_channels"; column = "id" });
      }
      ∷ required "status" ColumnType.string
      ∷ required "sent_at" ColumnType.datetime
      ∷ record (required "dedup_key" ColumnType.string) { index = true }
      ∷ [];
  constraints = [];
}

abbrev pub settings_metadata : Table
settings_metadata = record {
  name = "settings";
  columns =
      primary_key_column "id"
      ∷ record (optional "user_id" ColumnType.integer) {
        foreign_key = some (record { table = "users"; column = "id" });
        nullable = true;
      }
      ∷ required "key" ColumnType.string
      ∷ record (required "value_json" ColumnType.json) { default = some (Default.empty_dict) }
      ∷ [];
  constraints = [];
}

abbrev pub system_logs_metadata : Table
system_logs_metadata = record {
  name = "system_logs";
  columns =
      primary_key_column "id"
      ∷ required "level" ColumnType.string
      ∷ required "message" ColumnType.string
      ∷ record (required "context" ColumnType.json) { default = some (Default.empty_dict) }
      ∷ required "created_at" ColumnType.datetime
      ∷ [];
  constraints = [];
}

-- `Base.metadata.tables`, in the order of the classes.
abbrev pub metadata_tables : List Table
metadata_tables =
    users_metadata ∷ otp_challenges_metadata ∷ retailers_metadata ∷ products_metadata
    ∷ watch_targets_metadata ∷ watches_metadata ∷ snapshots_metadata ∷ detection_events_metadata
    ∷ notification_channels_metadata ∷ notification_logs_metadata ∷ settings_metadata
    ∷ system_logs_metadata ∷ []
