-- ===== src/Tests/Analytics.antt =====
-- The theorems on analytics, on concrete events.
use stock_monitoring.Common.{◌+◌, ◌≤◌, true, false, not, List, [], ◌∷◌, ◌≡◌, refl, arith}
use stock_monitoring.Analytics.{sorted_events, downtime_periods, restock_count, starts, ends}
use stock_monitoring.Analytics.Bounds.{IsChain, downtime_periods-bounded}
use stock_monitoring.Analytics.Downtime.{covers, stock_at, downtime_periods-covers}
use stock_monitoring.Domain.Entities.{Datetime, DetectionEvent}
use stock_monitoring.Domain.Enums.{EventType}
use stock_monitoring.Tests.Samples.{event}

abbrev at_time : EventType → Datetime → DetectionEvent
at_time type when = record event { event_type = type; created_at = when }

abbrev outages : List DetectionEvent
outages =
    at_time EventType.out_of_stock 60
    ∷ at_time EventType.stock_available 30
    ∷ at_time EventType.price_changed 20
    ∷ at_time EventType.out_of_stock 10
    ∷ []

periods : downtime_periods outages 100 ≡ (10, 30) ∷ (60, 100) ∷ []
unfolding downtime_periods sorted_events
periods = refl

restocks : restock_count outages ≡ 1
unfolding restock_count sorted_events
restocks = refl

downtime_periods-bounded_example :
    IsChain 0 (downtime_periods outages 100) 100
    × (starts (downtime_periods outages 100) ≤ ends (downtime_periods outages 100))
    × (ends (downtime_periods outages 100) + 0 ≤ starts (downtime_periods outages 100) + 100)
downtime_periods-bounded_example = downtime_periods-bounded outages 0 100 (omega arith) (
  (omega arith, omega arith),
  ((omega arith, omega arith), ((omega arith, omega arith), ((omega arith, omega arith), tt))),
)

downtime_periods-covers_example :
    covers (downtime_periods outages 100) 25 ≡ not (stock_at true (sorted_events outages) 25)
unfolding sorted_events
downtime_periods-covers_example =
    downtime_periods-covers outages 0 100 25 {final = false}
      (
        (omega arith, omega arith),
        (
          (omega arith, omega arith),
          ((omega arith, omega arith), ((omega arith, omega arith), tt)),
        ),
      )
      refl (omega arith) (omega arith)
