-- ===== src/Storage/Schema/Initial/Recording.antt =====
-- backend/alembic/versions/0001_initial_schema.py: the tables of what is found, and of alerts, settings and logs.
use stock_monitoring.Common.{true, false, some, [], ◌∷◌}
use stock_monitoring.Storage.Schema.{ColumnType, Default, Table, column, primary_key_column}

abbrev pub snapshots : Table
snapshots = record {
  name = "snapshots";
  columns =
      primary_key_column "id"
      ∷ record (column "watch_target_id" ColumnType.integer) {
        foreign_key = some (record { table = "watch_targets"; column = "id" });
        nullable = false;
        index = true;
      }
      ∷ record (column "timestamp" ColumnType.datetime) { nullable = false }
      ∷ record (column "availability" ColumnType.string) { nullable = false }
      ∷ record (column "price" ColumnType.float) { nullable = true }
      ∷ record (column "mrp" ColumnType.float) { nullable = true }
      ∷ record (column "discount_pct" ColumnType.float) { nullable = true }
      ∷ record (column "eta_minutes" ColumnType.integer) { nullable = true }
      ∷ record (column "store_name" ColumnType.string) { nullable = true }
      ∷ record (column "image_url" ColumnType.string) { nullable = true }
      ∷ record (column "quantity_label" ColumnType.string) { nullable = true }
      ∷ record (column "variants" ColumnType.json) {
        nullable = false;
        default = some (Default.empty_list);
      }
      ∷ record (column "product_url" ColumnType.string) { nullable = true }
      ∷ [];
  constraints = [];
}

abbrev pub detection_events : Table
detection_events = record {
  name = "detection_events";
  columns =
      primary_key_column "id"
      ∷ record (column "watch_target_id" ColumnType.integer) {
        foreign_key = some (record { table = "watch_targets"; column = "id" });
        nullable = false;
        index = true;
      }
      ∷ record (column "snapshot_id" ColumnType.integer) {
        foreign_key = some (record { table = "snapshots"; column = "id" });
        nullable = false;
      }
      ∷ record (column "previous_snapshot_id" ColumnType.integer) {
        foreign_key = some (record { table = "snapshots"; column = "id" });
        nullable = true;
      }
      ∷ record (column "event_type" ColumnType.string) { nullable = false }
      ∷ record (column "created_at" ColumnType.datetime) { nullable = false }
      ∷ [];
  constraints = [];
}

abbrev pub notification_channels : Table
notification_channels = record {
  name = "notification_channels";
  columns =
      primary_key_column "id"
      ∷ record (column "user_id" ColumnType.integer) {
        foreign_key = some (record { table = "users"; column = "id" });
        nullable = false;
      }
      ∷ record (column "type" ColumnType.string) { nullable = false }
      ∷ record (column "config_json" ColumnType.json) {
        nullable = false;
        default = some (Default.empty_dict);
      }
      ∷ record (column "is_verified" ColumnType.boolean) {
        default = some (Default.of_bool false);
        nullable = false;
      }
      ∷ [];
  constraints = [];
}

abbrev pub notification_logs : Table
notification_logs = record {
  name = "notification_logs";
  columns =
      primary_key_column "id"
      ∷ record (column "user_id" ColumnType.integer) {
        foreign_key = some (record { table = "users"; column = "id" });
        nullable = false;
      }
      ∷ record (column "detection_event_id" ColumnType.integer) {
        foreign_key = some (record { table = "detection_events"; column = "id" });
        nullable = false;
      }
      ∷ record (column "channel_id" ColumnType.integer) {
        foreign_key = some (record { table = "notification_channels"; column = "id" });
        nullable = false;
      }
      ∷ record (column "status" ColumnType.string) { nullable = false }
      ∷ record (column "sent_at" ColumnType.datetime) { nullable = false }
      ∷ record (column "dedup_key" ColumnType.string) { nullable = false; index = true }
      ∷ [];
  constraints = [];
}

abbrev pub settings : Table
settings = record {
  name = "settings";
  columns =
      primary_key_column "id"
      ∷ record (column "user_id" ColumnType.integer) {
        foreign_key = some (record { table = "users"; column = "id" });
        nullable = true;
      }
      ∷ record (column "key" ColumnType.string) { nullable = false }
      ∷ record (column "value_json" ColumnType.json) {
        nullable = false;
        default = some (Default.empty_dict);
      }
      ∷ [];
  constraints = [];
}

abbrev pub system_logs : Table
system_logs = record {
  name = "system_logs";
  columns =
      primary_key_column "id"
      ∷ record (column "level" ColumnType.string) { nullable = false }
      ∷ record (column "message" ColumnType.string) { nullable = false }
      ∷ record (column "context" ColumnType.json) {
        nullable = false;
        default = some (Default.empty_dict);
      }
      ∷ record (column "created_at" ColumnType.datetime) { nullable = false }
      ∷ [];
  constraints = [];
}
