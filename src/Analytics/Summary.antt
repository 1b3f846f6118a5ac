-- ===== src/Analytics/Summary.antt =====
-- The summary of `compute_availability_summary`. Python's float arithmetic is a parameter.
use stock_monitoring.Common.{ℕ, Bool, List, [], ◌∷◌, length, if◌then◌else◌}
use stock_monitoring.Analytics.{downtime_periods, restock_count}
use stock_monitoring.Domain.Entities.{Datetime, Float, DetectionEvent}

-- `total_seconds start end` is `(end - start).total_seconds()`, and `round` is to two places.
pub record Floats : Type 0 where
  pub of_int : ℕ → Float
  pub total_seconds : Datetime → Datetime → Float
  pub add : Float → Float → Float
  pub sub : Float → Float → Float
  pub mul : Float → Float → Float
  pub div : Float → Float → Float
  pub max : Float → Float → Float
  pub le : Float → Float → Bool
  pub round : Float → Float

pub record AvailabilitySummary : Type 0 where
  pub availability_pct : Float
  pub restock_count : ℕ
  pub total_downtime_minutes : Float
  pub average_downtime_minutes : Float

module _ (floats : Floats) where
  open floats use {of_int, total_seconds, add, sub, mul, div, max, le, round}

  -- `sum(...)`, from what is summed so far.
  abbrev pub sum_seconds : Float → List (Datetime × Datetime) → Float
  sum_seconds acc [] = acc
  sum_seconds acc ((start, end) ∷ periods) = sum_seconds (add acc (total_seconds start end)) periods

  abbrev pub average : Float → List (Datetime × Datetime) → Float
  average total [] = of_int 0
  average total (period ∷ periods) = div total (of_int (length (period ∷ periods)))

  unfoldable pub compute_availability_summary :
      List DetectionEvent → Datetime → Datetime → AvailabilitySummary
  unfolding downtime_periods restock_count
  compute_availability_summary events period_start period_end =
      let periods = downtime_periods events period_end in
      let total_downtime_minutes = div (sum_seconds (of_int 0) periods) (of_int 60) in
      let total_period_minutes = div (total_seconds period_start period_end) (of_int 60) in
      let available =
        max (of_int 0)
          (mul (of_int 100) (sub (of_int 1) (div total_downtime_minutes total_period_minutes))) in
      let availability_pct = if le total_period_minutes (of_int 0) then of_int 100 else available in
      record {
        availability_pct = round availability_pct;
        restock_count = restock_count events;
        total_downtime_minutes = round total_downtime_minutes;
        average_downtime_minutes = round (average total_downtime_minutes periods);
      }
