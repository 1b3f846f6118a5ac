-- ===== src/Analytics/Downtime.antt =====
-- What a downtime window is: the time after an event that says "out of stock" and before the next
-- one that says "back in stock".
use stock_monitoring.Common.{
  ◌≤◌, ◌<◌, leb, ltb, Bool, true, false, not, ◌&&◌, any, Option, none, some, List, [], ◌∷◌, map,
  All, if◌then◌else◌, ◌≡◌, refl, arith,
}
use stock_monitoring.Analytics.{sorted_events, walk, by_type, downtime_periods}
use stock_monitoring.Analytics.Bounds.{
  from_open, IsOrdered, IsChain, IsWithin, sorted_events-IsOrdered, walk-IsChain,
}
use stock_monitoring.Domain.Entities.{Datetime, DetectionEvent}
use stock_monitoring.Domain.Enums.{EventType}
use stock_monitoring.Monitoring.Diffing.Histories.{track}

-- A time lies in one of the windows.
abbrev pub covers : List (Datetime × Datetime) → Datetime → Bool
covers periods t = any (λ (p : Datetime × Datetime). leb p.0 t && ltb t p.1) periods

-- The stock after the events up to a time, from the stock before them.
abbrev pub stock_at : Bool → List DetectionEvent → Datetime → Bool
stock_at s [] t = s
stock_at s (event ∷ events) t =
    stock_at (if leb event.created_at t then by_type event.event_type false true s else s) events t

abbrev pub types_of : List DetectionEvent → List EventType
types_of events = map (λ (e : DetectionEvent). e.event_type) events

-- Windows that begin later do not cover the time.
covers-later :
    (low high t : Datetime) (periods : List (Datetime × Datetime))
    → t < low
    → IsChain low periods high
    → covers periods t ≡ false
covers-later low high t [] lt h = refl
covers-later low high t ((start, end) ∷ periods) lt h =
    ground (arith, covers-later end high t periods (omega arith) h.2)

stock_at-later :
    (s : Bool) (low high t : Datetime) (events : List DetectionEvent)
    → t < low
    → IsOrdered low events high
    → stock_at s events t ≡ s
stock_at-later s low high t [] lt h = refl
stock_at-later s low high t (event ∷ events) lt h =
    ground (arith, stock_at-later s event.created_at high t events (omega arith) h.1)

-- One event while the product is in stock, and one while it is out of stock.
module _ (at t : Datetime) (events : List DetectionEvent)
    (when_none when_some : List (Datetime × Datetime)) {final : Bool} where
  step_in_stock :
      (ty : EventType)
      → (track true (types_of events) ≡ some final
          → covers when_none t ≡ not (stock_at true events t))
      → (at ≤ t
          → track false (types_of events) ≡ some final
          → covers when_some t ≡ not (stock_at false events t))
      → (t < at → covers when_some t ≡ false)
      → (t < at → stock_at true events t ≡ true)
      → track true (ty ∷ types_of events) ≡ some final
      → covers (by_type ty when_some when_none when_none) t
        ≡ not (stock_at (if leb at t then by_type ty false true true else true) events t)
  step_in_stock ty h k later stays turns = ground arith

  step_out_of_stock :
      (ty : EventType) (start : Datetime) (again : List (Datetime × Datetime))
      → start ≤ t
      → (track true (types_of events) ≡ some final
          → covers when_none t ≡ not (stock_at true events t))
      → (track false (types_of events) ≡ some final
          → covers when_some t ≡ not (stock_at false events t))
      → (t < at → covers when_none t ≡ false)
      → (t < at → stock_at false events t ≡ false)
      → track false (ty ∷ types_of events) ≡ some final
      → covers (by_type ty again ((start, at) ∷ when_none) when_some) t
        ≡ not (stock_at (if leb at t then by_type ty false true false else false) events t)
  step_out_of_stock ty start again le h k later stays turns = ground arith

-- While an outage is open the product is out of stock, and otherwise in stock.
abbrev in_stock_of : Option Datetime → Bool
in_stock_of none = true
in_stock_of (some start) = false

abbrev IsOpenBy : Option Datetime → Datetime → Type 0
IsOpenBy none t = Unit
IsOpenBy (some start) t = start ≤ t

walk-covers :
    (outage : Option Datetime) (events : List DetectionEvent) (low high t : Datetime) {final : Bool}
    → from_open outage low ≤ low
    → IsOpenBy outage t
    → t < high
    → IsOrdered low events high
    → track (in_stock_of outage) (types_of events) ≡ some final
    → covers (walk outage events high) t ≡ not (stock_at (in_stock_of outage) events t)
unfolding walk
walk-covers none [] low high t le since lt ordered turns = refl
walk-covers (some start) [] low high t le since lt ordered turns = ground arith
walk-covers none (event ∷ events) low high t le since lt ordered turns =
    let at = event.created_at in
    step_in_stock at t events (walk none events high) (walk (some at) events high) event.event_type
      (walk-covers none events at high t (omega arith) tt lt ordered.1)
      (λ l. walk-covers (some at) events at high t (omega arith) l lt ordered.1)
      (λ l.
        covers-later at high t (walk (some at) events high) l
          (walk-IsChain (some at) events at high (omega arith) ordered.1))
      (λ l. stock_at-later true at high t events l ordered.1) turns
walk-covers (some start) (event ∷ events) low high t le since lt ordered turns =
    let at = event.created_at in
    step_out_of_stock at t events (walk none events high) (walk (some start) events high)
      event.event_type start (walk (some at) events high) since
      (walk-covers none events at high t (omega arith) tt lt ordered.1)
      (walk-covers (some start) events at high t (omega (arith, le, ordered.0)) since lt ordered.1)
      (λ l.
        covers-later at high t (walk none events high) l
          (walk-IsChain none events at high (omega arith) ordered.1))
      (λ l. stock_at-later false at high t events l ordered.1) turns

-- If no event lies outside the period and the stock events take turns in the order of time,
-- beginning with an "out of stock", then a time of the period lies in a downtime window exactly if
-- the product is out of stock after the events up to that time.
pub downtime_periods-covers :
    (events : List DetectionEvent) (period_start period_end t : Datetime) {final : Bool}
    → All (IsWithin period_start period_end) events
    → track true (types_of (sorted_events events)) ≡ some final
    → period_start ≤ t
    → t < period_end
    → covers (downtime_periods events period_end) t ≡ not (stock_at true (sorted_events events) t)
unfolding downtime_periods
downtime_periods-covers events low high t within turns from lt =
    walk-covers none (sorted_events events) low high t (omega arith) tt lt
      (sorted_events-IsOrdered events (omega arith) within) turns
