-- ===== src/Storage/Schema/Initial.antt =====
-- backend/alembic/versions/0001_initial_schema.py: the tables that it creates and drops.
pub mod Watching
pub mod Recording
use stock_monitoring.Common.{String, List, [], ◌∷◌}
use stock_monitoring.Domain.Action.{Action}
use stock_monitoring.Storage.Schema.{Table, Op, create_all, drop_all}
use stock_monitoring.Storage.Schema.Initial.Watching.{
  users, otp_challenges, retailers, products, watch_targets, watches,
}
use stock_monitoring.Storage.Schema.Initial.Recording.{
  snapshots, detection_events, notification_channels, notification_logs, settings, system_logs,
}

-- The tables in the order of the calls of `upgrade`.
abbrev pub created_tables : List Table
created_tables =
    users ∷ otp_challenges ∷ retailers ∷ products ∷ watch_targets ∷ watches ∷ snapshots
    ∷ detection_events ∷ notification_channels ∷ notification_logs ∷ settings ∷ system_logs ∷ []

abbrev pub dropped_tables : List String
dropped_tables =
    "system_logs" ∷ "settings" ∷ "notification_logs" ∷ "notification_channels" ∷ "detection_events"
    ∷ "snapshots" ∷ "watches" ∷ "watch_targets" ∷ "products" ∷ "retailers" ∷ "otp_challenges"
    ∷ "users" ∷ []

module _ {S : Type 0} (op : Op S) where
  unfoldable pub upgrade : Action S (Unit {0})
  upgrade = create_all op created_tables

  unfoldable pub downgrade : Action S (Unit {0})
  downgrade = drop_all op dropped_tables
