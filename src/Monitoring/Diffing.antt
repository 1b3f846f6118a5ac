-- ===== src/Monitoring/Diffing.antt =====
-- backend/app/application/diffing.py: which changes lie between the stored snapshot and a scrape.
pub mod Laws
pub mod Histories
use stock_monitoring.Common.{
  ℕ, String, Bool, true, false, not, ◌&&◌, ◌||◌, ◌==◌, str_eq, Option, none, some, option_eq, List,
  [], ◌∷◌, ◌++◌, any, if◌then◌else◌,
}
use stock_monitoring.Domain.Entities.{Snapshot, ProviderProductResult}
use stock_monitoring.Domain.Enums.{Availability, availability_eq, EventType}

-- `x in xs`
abbrev pub contains : String → List String → Bool
contains x xs = any (str_eq x) xs

-- `set(xs) - set(ys)` is not empty
abbrev pub has_new : List String → List String → Bool
has_new xs ys = any (λ x. not (contains x ys)) xs

-- `if b: events.append(e)`
abbrev append_if : Bool → EventType → List EventType → List EventType
append_if b e events = if b then events ++ e ∷ [] else events

-- The `if`/`elif` ladder on the two availabilities.
pub availability_events : Availability → Availability → List EventType
availability_events previous current =
    if availability_eq previous Availability.out_of_stock
      && (availability_eq current Availability.available
          || availability_eq current Availability.low_stock)
    then EventType.stock_available ∷ []
    else if (availability_eq previous Availability.available
          || availability_eq previous Availability.low_stock)
        && availability_eq current Availability.out_of_stock
    then EventType.out_of_stock ∷ []
    else if availability_eq previous Availability.available
        && availability_eq current Availability.low_stock
    then EventType.low_stock ∷ []
    else []

unfoldable pub diff_snapshots : Option Snapshot → ProviderProductResult → List EventType
unfolding availability_events
diff_snapshots none current = availability_events Availability.out_of_stock current.availability
diff_snapshots (some previous) current =
    let events = availability_events previous.availability current.availability in
    let events =
      append_if (not (option_eq ◌==◌ previous.price current.price)) EventType.price_changed
        events in
    let events =
      append_if (has_new current.variants previous.variants) EventType.new_variant events in
    let events =
      append_if (not (option_eq ◌==◌ previous.eta_minutes current.eta_minutes))
        EventType.eta_changed events in
    append_if (not (option_eq str_eq previous.store_name current.store_name))
      EventType.store_changed events
