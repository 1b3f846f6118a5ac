-- ===== src/Analytics/Bounds.antt =====
-- The downtime windows of a period lie in it, in order and apart.
use stock_monitoring.Common.{
  ◌+◌, ◌≤◌, leb, Bool-cases, inl, inr, Option, none, some, List, [], ◌∷◌, All, arith,
}
use stock_monitoring.Analytics.{
  insert, sorted_events, walk, by_type, downtime_periods, close_at, starts, ends,
}
use stock_monitoring.Domain.Entities.{Datetime, DetectionEvent}
use stock_monitoring.Domain.Enums.{EventType}

-- Events in the order of time, none before `low` and none after `high`.
abbrev pub IsOrdered : Datetime → List DetectionEvent → Datetime → Type 0
IsOrdered low [] high = low ≤ high
IsOrdered low (event ∷ events) high =
    (low ≤ event.created_at) × IsOrdered event.created_at events high

-- Windows that follow one another between `low` and `high`.
abbrev pub IsChain : Datetime → List (Datetime × Datetime) → Datetime → Type 0
IsChain low [] high = low ≤ high
IsChain low ((start, end) ∷ periods) high = (low ≤ start) × (start ≤ end) × IsChain end periods high

-- An event of the period.
abbrev pub IsWithin : Datetime → Datetime → DetectionEvent → Type 0
IsWithin low high event = (low ≤ event.created_at) × (event.created_at ≤ high)

insert-IsOrdered :
    (event : DetectionEvent) (events : List DetectionEvent) {low high : Datetime}
    → IsWithin low high event
    → IsOrdered low events high
    → IsOrdered low (insert event events) high
unfolding insert
insert-IsOrdered event [] within h = within
insert-IsOrdered event (next ∷ events) within h =
    elim (Bool-cases (leb event.created_at next.created_at)) [
      | inl e ↦ rw e (within.0, (ground arith, h.1))
      | inr e ↦ rw e (h.0, insert-IsOrdered event events (ground arith, within.1) h.1)
    ]

pub sorted_events-IsOrdered :
    (events : List DetectionEvent) {low high : Datetime}
    → low ≤ high
    → All (IsWithin low high) events
    → IsOrdered low (sorted_events events) high
unfolding sorted_events
sorted_events-IsOrdered [] le h = le
sorted_events-IsOrdered (event ∷ events) le h =
    insert-IsOrdered event (sorted_events events) h.0 (sorted_events-IsOrdered events le h.1)

IsChain-from :
    (low low' high : Datetime) (periods : List (Datetime × Datetime))
    → low ≤ low'
    → IsChain low' periods high
    → IsChain low periods high
IsChain-from low low' high [] le h = ground arith
IsChain-from low low' high ((start, end) ∷ periods) le h = (ground arith, h.1, h.2)

IsOrdered-le :
    (low high : Datetime) (events : List DetectionEvent) → IsOrdered low events high → low ≤ high
IsOrdered-le low high [] h = h
IsOrdered-le low high (event ∷ events) h =
    ground (arith, IsOrdered-le event.created_at high events h.1)

-- The windows that the loop finds follow one another from the open outage on, or from `low`.
abbrev pub from_open : Option Datetime → Datetime → Datetime
from_open none low = low
from_open (some start) low = start

by_type-cases :
    {A : Type 0} (P : A → Type 0) (t : EventType) {out restock other : A}
    → P out
    → P restock
    → P other
    → P (by_type t out restock other)
by_type-cases P EventType.out_of_stock h k l = h
by_type-cases P EventType.stock_available h k l = k
by_type-cases P _ h k l = l

close_at-IsChain :
    (outage : Option Datetime) (at low high : Datetime) (rest : List (Datetime × Datetime))
    → from_open outage low ≤ low
    → low ≤ at
    → IsChain at rest high
    → IsChain (from_open outage low) (close_at outage at rest) high
close_at-IsChain none at low high rest le le' h = IsChain-from low at high rest le' h
close_at-IsChain (some start) at low high rest le le' h = (omega arith, omega arith, h)

still_open :
    (outage : Option Datetime) (at low high : Datetime) (rest : List (Datetime × Datetime))
    → low ≤ at
    → IsChain (from_open outage at) rest high
    → IsChain (from_open outage low) rest high
still_open none at low high rest le h = IsChain-from low at high rest le h
still_open (some start) at low high rest le h = h

from_open_le :
    (outage : Option Datetime) (low at : Datetime)
    → from_open outage low ≤ low
    → low ≤ at
    → from_open outage at ≤ at
from_open_le none low at le le' = omega arith
from_open_le (some start) low at le le' = omega arith

pub walk-IsChain :
    (outage : Option Datetime) (events : List DetectionEvent) (low high : Datetime)
    → from_open outage low ≤ low
    → IsOrdered low events high
    → IsChain (from_open outage low) (walk outage events high) high
unfolding walk
walk-IsChain none [] low high le h = h
walk-IsChain (some start) [] low high le h = (omega arith, ground arith, omega arith)
walk-IsChain outage (event ∷ events) low high le h =
    let at = event.created_at in
    by_type-cases (λ periods. IsChain (from_open outage low) periods high) event.event_type
      (IsChain-from (from_open outage low) at high (walk (some at) events high)
        (omega (arith, le, h.0)) (walk-IsChain (some at) events at high (omega arith) h.1))
      (close_at-IsChain outage at low high (walk none events high) le h.0
        (walk-IsChain none events at high (omega arith) h.1))
      (still_open outage at low high (walk outage events high) h.0
        (walk-IsChain outage events at high (from_open_le outage low at le h.0) h.1))

total-IsChain :
    (low high : Datetime) (periods : List (Datetime × Datetime))
    → IsChain low periods high
    → (starts periods ≤ ends periods) × (ends periods + low ≤ starts periods + high)
total-IsChain low high [] h = (omega arith, omega arith)
total-IsChain low high ((start, end) ∷ periods) h =
    let rest = total-IsChain end high periods h.2 in (omega arith, omega arith)

-- If no event lies outside the period, the downtime windows follow one another within it, and the
-- sum of their ends less the sum of their starts, the total downtime, is not negative and no more
-- than the length of the period.
pub downtime_periods-bounded :
    (events : List DetectionEvent) (period_start period_end : Datetime)
    → period_start ≤ period_end
    → All (IsWithin period_start period_end) events
    → let periods = downtime_periods events period_end in
      IsChain period_start periods period_end
      × (starts periods ≤ ends periods)
      × (ends periods + period_start ≤ starts periods + period_end)
unfolding downtime_periods
downtime_periods-bounded events low high le within =
    let chain =
      walk-IsChain none (sorted_events events) low high (omega arith)
        (sorted_events-IsOrdered events le within) in
    let (below, above) = total-IsChain low high (walk none (sorted_events events) high) chain in
    (chain, below, above)
