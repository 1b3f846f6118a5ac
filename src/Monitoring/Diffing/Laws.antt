-- ===== src/Monitoring/Diffing/Laws.antt =====
-- An independent description of each event type, and that the comparison of diffing.py meets it.
use stock_monitoring.Common.{
  Bool, true, false, not, ◌&&◌, ◌==◌, str_eq, Option, none, some, option_eq, List, [], ◌∷◌, filter,
  ◌≡◌, arith,
}
use stock_monitoring.Domain.Entities.{Snapshot, ProviderProductResult}
use stock_monitoring.Domain.Enums.{Availability, availability_eq, EventType}
use stock_monitoring.Monitoring.Diffing.{diff_snapshots, has_new}

-- Something can be bought.
abbrev pub in_stock : Availability → Bool
in_stock Availability.available = true
in_stock Availability.out_of_stock = false
in_stock Availability.low_stock = true

-- The availability that a comparison starts from.
abbrev pub known_availability : Option Snapshot → Availability
known_availability none = Availability.out_of_stock
known_availability (some s) = s.availability

-- A field differs from a stored one; with nothing stored there is nothing to differ from.
abbrev changed : (Snapshot → Bool) → Option Snapshot → Bool
changed test none = false
changed test (some s) = test s

-- When an event of each type is due.
abbrev pub fires : Option Snapshot → ProviderProductResult → EventType → Bool
fires previous current EventType.stock_available =
    not (in_stock (known_availability previous)) && in_stock current.availability
fires previous current EventType.out_of_stock =
    in_stock (known_availability previous) && not (in_stock current.availability)
fires previous current EventType.low_stock =
    availability_eq (known_availability previous) Availability.available
    && availability_eq current.availability Availability.low_stock
fires previous current EventType.price_changed =
    changed (λ s. not (option_eq ◌==◌ s.price current.price)) previous
fires previous current EventType.new_variant =
    changed (λ s. has_new current.variants s.variants) previous
fires previous current EventType.eta_changed =
    changed (λ s. not (option_eq ◌==◌ s.eta_minutes current.eta_minutes)) previous
fires previous current EventType.store_changed =
    changed (λ s. not (option_eq str_eq s.store_name current.store_name)) previous

abbrev pub all_event_types : List EventType
all_event_types =
    EventType.stock_available ∷ EventType.out_of_stock ∷ EventType.low_stock
    ∷ EventType.price_changed ∷ EventType.new_variant ∷ EventType.eta_changed
    ∷ EventType.store_changed ∷ []

-- The events of a comparison are the event types that are due, each once, in the order in which
-- the enum declares them.
pub diff_snapshots-eq-filter :
    (previous : Option Snapshot) (current : ProviderProductResult)
    → diff_snapshots previous current ≡ filter (fires previous current) all_event_types
unfolding diff_snapshots
diff_snapshots-eq-filter none current = ground arith
diff_snapshots-eq-filter (some previous) current = ground arith
