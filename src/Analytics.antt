-- ===== src/Analytics.antt =====
-- backend/app/application/analytics.py up to its floating-point arithmetic: the downtime windows of
-- a period, their total in microseconds, and the number of restocks.
pub mod Bounds
pub mod Downtime
pub mod Summary
use stock_monitoring.Common.{
  ℕ, ◌+◌, leb, Bool, Option, none, some, List, [], ◌∷◌, length, filter, if◌then◌else◌,
}
use stock_monitoring.Domain.Entities.{Datetime, DetectionEvent}
use stock_monitoring.Domain.Enums.{EventType, event_type_eq}

insert : DetectionEvent → List DetectionEvent → List DetectionEvent
insert event [] = event ∷ []
insert event (next ∷ events) =
    if leb event.created_at next.created_at
    then event ∷ next ∷ events
    else next ∷ insert event events

-- `sorted(events, key=lambda e: e.created_at)`, which keeps the order of events of one time.
unfoldable pub sorted_events : List DetectionEvent → List DetectionEvent
unfolding insert
sorted_events [] = []
sorted_events (event ∷ events) = insert event (sorted_events events)

-- The outage that is open at the end lasts until the end of the period.
abbrev pub close_outage : Option Datetime → Datetime → List (Datetime × Datetime)
close_outage none period_end = []
close_outage (some start) period_end = (start, period_end) ∷ []

-- The event after which the product is back: it closes the outage that is open, if one is.
abbrev pub close_at :
    Option Datetime → Datetime → List (Datetime × Datetime) → List (Datetime × Datetime)
close_at none when rest = rest
close_at (some start) when rest = (start, when) ∷ rest

-- The `if`/`elif` on the type of an event.
abbrev pub by_type : {A : Type 0} → EventType → A → A → A → A
by_type EventType.out_of_stock out restock other = out
by_type EventType.stock_available out restock other = restock
by_type EventType.low_stock out restock other = other
by_type EventType.price_changed out restock other = other
by_type EventType.new_variant out restock other = other
by_type EventType.eta_changed out restock other = other
by_type EventType.store_changed out restock other = other

-- The loop over the sorted events, with the start of the outage that is open.
unfoldable pub walk : Option Datetime → List DetectionEvent → Datetime → List (Datetime × Datetime)
walk open_outage_start [] period_end = close_outage open_outage_start period_end
walk open_outage_start (event ∷ events) period_end =
    by_type event.event_type (walk (some event.created_at) events period_end)
      (close_at open_outage_start event.created_at (walk none events period_end))
      (walk open_outage_start events period_end)

unfoldable pub downtime_periods : List DetectionEvent → Datetime → List (Datetime × Datetime)
unfolding walk
downtime_periods events period_end = walk none (sorted_events events) period_end

abbrev pub starts : List (Datetime × Datetime) → ℕ
starts [] = 0
starts ((start, end) ∷ periods) = start + starts periods

abbrev pub ends : List (Datetime × Datetime) → ℕ
ends [] = 0
ends ((start, end) ∷ periods) = end + ends periods

abbrev pub is_restock : DetectionEvent → Bool
is_restock event = event_type_eq event.event_type EventType.stock_available

unfoldable pub restock_count : List DetectionEvent → ℕ
restock_count events = length (filter is_restock (sorted_events events))
