-- ===== src/Api/Availability.antt =====
-- The availability summary of backend/app/api/routers/analytics.py.
use stock_monitoring.Common.{ℕ, some}
use stock_monitoring.Analytics.Summary.{Floats, AvailabilitySummary, compute_availability_summary}
use stock_monitoring.Api.Watches.{owned_watch}
use stock_monitoring.Api.History.{days_before}
use stock_monitoring.Domain.Action.{Action, pure, lift, ◌>>=◌}
use stock_monitoring.Domain.Entities.{Datetime, Float}
use stock_monitoring.Domain.Ports.{DetectionEventRepository, WatchRepository}

pub record AvailabilitySummarySchema : Type 0 where
  pub availability_pct : Float
  pub restock_count : ℕ
  pub total_downtime_minutes : Float
  pub average_downtime_minutes : Float

abbrev pub availability_schema : AvailabilitySummary → AvailabilitySummarySchema
availability_schema summary = record {
  availability_pct = summary.availability_pct;
  restock_count = summary.restock_count;
  total_downtime_minutes = summary.total_downtime_minutes;
  average_downtime_minutes = summary.average_downtime_minutes;
}

unfoldable pub availability_summary :
    {W : Type 0}
    → Floats
    → WatchRepository W
    → DetectionEventRepository W
    → Action W Datetime
    → ℕ
    → ℕ
    → ℕ
    → Action W AvailabilitySummarySchema
unfolding compute_availability_summary
availability_summary floats watch_repo event_repo utcnow watch_id trailing_days user_id = do
  watch ← owned_watch watch_repo watch_id user_id
  period_end ← utcnow
  period_start ← lift (days_before period_end trailing_days)
  events ← event_repo.list_for_watch_target watch.watch_target_id 1000 (some period_start)
  pure (availability_schema (compute_availability_summary floats events period_start period_end))
