-- ===== src/Storage/Schema/Initial/Watching.antt =====
-- backend/alembic/versions/0001_initial_schema.py: the tables of users, products and watches.
use stock_monitoring.Common.{true, false, some, [], ◌∷◌}
use stock_monitoring.Storage.Schema.{ColumnType, Default, Table, column, primary_key_column}

abbrev pub users : Table
users = record {
  name = "users";
  columns =
      primary_key_column "id"
      ∷ record (column "phone_number" ColumnType.string) {
        unique = true;
        index = true;
        nullable = false;
      }
      ∷ record (column "email" ColumnType.string) { nullable = true }
      ∷ record (column "created_at" ColumnType.datetime) { nullable = false }
      ∷ [];
  constraints = [];
}

abbrev pub otp_challenges : Table
otp_challenges = record {
  name = "otp_challenges";
  columns =
      primary_key_column "id"
      ∷ record (column "phone_number" ColumnType.string) { index = true; nullable = false }
      ∷ record (column "code_hash" ColumnType.string) { nullable = false }
      ∷ record (column "expires_at" ColumnType.datetime) { nullable = false }
      ∷ record (column "created_at" ColumnType.datetime) { nullable = false }
      ∷ record (column "consumed" ColumnType.boolean) {
        default = some (Default.of_bool false);
        nullable = false;
      }
      ∷ record (column "attempt_count" ColumnType.integer) {
        default = some (Default.of_int 0);
        nullable = false;
      }
      ∷ [];
  constraints = [];
}

abbrev pub retailers : Table
retailers = record {
  name = "retailers";
  columns =
      primary_key_column "id"
      ∷ record (column "slug" ColumnType.string) { unique = true; nullable = false }
      ∷ record (column "name" ColumnType.string) { nullable = false }
      ∷ record (column "is_active" ColumnType.boolean) {
        default = some (Default.of_bool true);
        nullable = false;
      }
      ∷ [];
  constraints = [];
}

abbrev pub products : Table
products = record {
  name = "products";
  columns =
      primary_key_column "id"
      ∷ record (column "user_id" ColumnType.integer) {
        foreign_key = some (record { table = "users"; column = "id" });
        nullable = false;
      }
      ∷ record (column "name" ColumnType.string) { nullable = false }
      ∷ record (column "keyword" ColumnType.string) { nullable = false }
      ∷ record (column "canonical_image_url" ColumnType.string) { nullable = true }
      ∷ [];
  constraints = [];
}

abbrev pub watch_targets : Table
watch_targets = record {
  name = "watch_targets";
  columns =
      primary_key_column "id"
      ∷ record (column "retailer_slug" ColumnType.string) { nullable = false }
      ∷ record (column "city" ColumnType.string) { nullable = false }
      ∷ record (column "pincode" ColumnType.string) { nullable = false }
      ∷ record (column "keyword" ColumnType.string) { nullable = false }
      ∷ record (column "interval_seconds" ColumnType.integer) {
        default = some (Default.of_int 300);
        nullable = false;
      }
      ∷ record (column "last_checked_at" ColumnType.datetime) { nullable = true }
      ∷ [];
  constraints =
      record {
        columns = "retailer_slug" ∷ "city" ∷ "pincode" ∷ "keyword" ∷ [];
        name = "uq_watch_target";
      }
      ∷ [];
}

abbrev pub watches : Table
watches = record {
  name = "watches";
  columns =
      primary_key_column "id"
      ∷ record (column "user_id" ColumnType.integer) {
        foreign_key = some (record { table = "users"; column = "id" });
        nullable = false;
      }
      ∷ record (column "product_id" ColumnType.integer) {
        foreign_key = some (record { table = "products"; column = "id" });
        nullable = false;
      }
      ∷ record (column "watch_target_id" ColumnType.integer) {
        foreign_key = some (record { table = "watch_targets"; column = "id" });
        nullable = false;
      }
      ∷ record (column "interval_seconds" ColumnType.integer) {
        default = some (Default.of_int 300);
        nullable = false;
      }
      ∷ record (column "is_active" ColumnType.boolean) {
        default = some (Default.of_bool true);
        nullable = false;
      }
      ∷ [];
  constraints = [];
}
