-- ===== src/Storage/DetectionEvents.antt =====
-- `SqlAlchemyDetectionEventRepository` of backend/app/infrastructure/db/repositories.py.
use stock_monitoring.Common.{
  ℕ, Bool, true, ◌&&◌, ◌==◌, leb, Option, none, some, List, [], ◌∷◌, ◌++◌, map, filter, take,
}
use stock_monitoring.Domain.Action.{Action, pure, gets, lift, when, ◌>>=◌}
use stock_monitoring.Domain.Errors.{or_raise, map_result, traverse, value_error, Result}
use stock_monitoring.Domain.Entities.{Datetime, DetectionEvent}
use stock_monitoring.Domain.Enums.{EventType, event_type_value, parse_event_type}
use stock_monitoring.Domain.Ports.{DetectionEventRepository}
use stock_monitoring.Storage.Rows.{DetectionEventModel}
use stock_monitoring.Storage.World.{World}
use stock_monitoring.Storage.Engine.{Engine}

-- The entity of a row; `EventType(...)` raises on a text that is no member's value.
unfoldable pub to_detection_event : DetectionEventModel → Result DetectionEvent
to_detection_event model =
    map_result
      (λ event_type. record {
        id = some model.id;
        watch_target_id = model.watch_target_id;
        snapshot_id = model.snapshot_id;
        previous_snapshot_id = model.previous_snapshot_id;
        event_type = event_type;
        created_at = model.created_at;
      })
      (or_raise value_error (parse_event_type model.event_type))

-- The list comprehension of `list_for_watch_target`.
to_detection_events : List DetectionEventModel → Result (List DetectionEvent)
unfolding to_detection_event
to_detection_events = traverse to_detection_event

abbrev pub event_row : ℕ → ℕ → ℕ → Option ℕ → EventType → Datetime → DetectionEventModel
event_row id watch_target_id snapshot_id previous_snapshot_id event_type when = record {
  id = id;
  watch_target_id = watch_target_id;
  snapshot_id = snapshot_id;
  previous_snapshot_id = previous_snapshot_id;
  event_type = event_type_value event_type;
  created_at = when;
}

unfoldable pub create :
    Engine → ℕ → ℕ → Option ℕ → EventType → Datetime → Action World DetectionEvent
unfolding to_detection_event
create E watch_target_id snapshot_id previous_snapshot_id event_type when w =
    let id = E.fresh (map (λ (m : DetectionEventModel). m.id) w.detection_events) in
    let model = event_row id watch_target_id snapshot_id previous_snapshot_id event_type when in
    (
      to_detection_event model,
      record w { db = record w.db { detection_events = w.detection_events ++ model ∷ [] } },
    )

unfoldable pub get_by_id : Engine → ℕ → Action World (Option DetectionEvent)
unfolding to_detection_event
get_by_id E event_id = do
  rows ← gets (λ w. filter (λ (m : DetectionEventModel). m.id == event_id) w.detection_events)
  model ← lift (E.scalar_one_or_none DetectionEventModel rows)
  elim model [ some m ↦ do e ← lift (to_detection_event m); pure (some e) | none ↦ pure none ]

-- `created_at >= since`, if a time is given
abbrev pub is_since : Option Datetime → DetectionEventModel → Bool
is_since none m = true
is_since (some since) m = leb since m.created_at

unfoldable pub list_for_watch_target :
    Engine → ℕ → ℕ → Option Datetime → Action World (List DetectionEvent)
unfolding to_detection_events
list_for_watch_target E watch_target_id limit since = do
  rows ← gets (λ w.
      filter (λ (m : DetectionEventModel). m.watch_target_id == watch_target_id && is_since since m)
        w.detection_events)
  lift (
      to_detection_events
        (take limit (E.order_by_desc DetectionEventModel (λ m. m.created_at) rows)))

abbrev pub detection_event_repository : Engine → DetectionEventRepository World
detection_event_repository E = record {
  create = create E;
  get_by_id = get_by_id E;
  list_for_watch_target = list_for_watch_target E;
}
