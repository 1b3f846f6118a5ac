-- ===== src/Monitoring/Recording.antt =====
-- What a check leaves behind: the events of the comparison, each stored, published and dispatched
-- once, in order.
use mathlib.Core.Option.{get_or}
use mathlib.Core.List.{map-map}
use stock_monitoring.Common.{
  refl, ◌∙◌, ap, ℕ, Option, some, List, [], ◌∷◌, ◌++◌, map, append_assoc, append-nil, map-append,
  ◌≡◌,
}
use stock_monitoring.Messaging.{event_message, event_task, publish, dispatch_detection_event}
use stock_monitoring.Domain.Entities.{Datetime, DetectionEvent}
use stock_monitoring.Domain.Enums.{EventType}
use stock_monitoring.Domain.Enums.Laws.{parse_event_type-value}
use stock_monitoring.Domain.Errors.{ok}
use stock_monitoring.Domain.Ports.{ProviderRegistry}
use stock_monitoring.Monitoring.Service.{record_events}
use stock_monitoring.Monitoring.Wiring.{monitoring_service}
use stock_monitoring.Storage.DetectionEvents
use stock_monitoring.Storage.DetectionEvents.{event_row}
use stock_monitoring.Storage.Engine.{Engine}
use stock_monitoring.Storage.Rows.{DetectionEventModel}
use stock_monitoring.Storage.World.{World, Task}

-- The event types with the keys that the database gives them one after the other.
abbrev pub numbered : Engine → List ℕ → List EventType → List (ℕ × EventType)
numbered E ids [] = []
numbered E ids (t ∷ ts) = (E.fresh ids, t) ∷ numbered E (ids ++ E.fresh ids ∷ []) ts

module _ (watch_target_id snapshot_id : ℕ) (previous : Option ℕ) (when : Datetime) where
  abbrev pub new_row : ℕ × EventType → DetectionEventModel
  new_row (id, t) = event_row id watch_target_id snapshot_id previous t when

  abbrev pub new_event : ℕ × EventType → DetectionEvent
  new_event (id, t) = record {
    id = some id;
    watch_target_id = watch_target_id;
    snapshot_id = snapshot_id;
    previous_snapshot_id = previous;
    event_type = t;
    created_at = when;
  }

  -- The world after the events have been recorded.
  abbrev pub with_events : List (ℕ × EventType) → World → World
  with_events ps w = record w {
    db = record w.db { detection_events = w.detection_events ++ map new_row ps };
    published = w.published ++ map (λ p. event_message watch_target_id (new_event p)) ps;
    dispatched = w.dispatched ++ map (λ (p : ℕ × EventType). event_task p.0) ps;
  }

abbrev pub event_ids : World → List ℕ
event_ids w = map (λ (m : DetectionEventModel). m.id) w.detection_events

module _ (E : Engine) (registry : ProviderRegistry World) where
  -- The loop of `check_watch_target` stores, publishes and dispatches one event for each type.
  pub record_events-eq :
      (t s : ℕ) (p : Option ℕ) (when : Datetime) (types : List EventType) (w : World)
      → record_events (monitoring_service E registry) t s p when types w ≡ (
        ok (map (new_event t s p when) (numbered E (event_ids w) types)),
        with_events t s p when (numbered E (event_ids w) types) w,
      )
  unfolding record_events DetectionEvents.create publish dispatch_detection_event
  record_events-eq t s p when [] w = simp append-nil
  record_events-eq t s p when (x ∷ xs) w =
      rw (parse_event_type-value x, record_events-eq t s p when xs)
        (simp (map-append, append_assoc))

-- The task that an event with a key is dispatched as.
abbrev pub task_of : DetectionEvent → Task
task_of e = event_task (get_or e.id 0)

numbered-types :
    (E : Engine) (ids : List ℕ) (types : List EventType)
    → map (λ (p : ℕ × EventType). p.1) (numbered E ids types) ≡ types
numbered-types E ids [] = refl
numbered-types E ids (t ∷ ts) = ap (λ l. t ∷ l) (numbered-types E (ids ++ E.fresh ids ∷ []) ts)

-- Events that are recorded bear the event types that they were recorded for.
pub types-numbered :
    (E : Engine) (ids : List ℕ) (t s : ℕ) (p : Option ℕ) (when : Datetime) (types : List EventType)
    → map (λ (e : DetectionEvent). e.event_type) (map (new_event t s p when) (numbered E ids types))
      ≡ types
types-numbered E ids t s p when types =
    map-map _ _ (numbered E ids types) ∙ numbered-types E ids types

-- The row that an event with a key is stored as.
abbrev pub row_of : DetectionEvent → DetectionEventModel
row_of e =
    event_row (get_or e.id 0) e.watch_target_id e.snapshot_id e.previous_snapshot_id e.event_type
      e.created_at

module _ (t s : ℕ) (p : Option ℕ) (when : Datetime) where
  pub tasks-new_event :
      (ps : List (ℕ × EventType))
      → map task_of (map (new_event t s p when) ps) ≡ map (λ (q : ℕ × EventType). event_task q.0) ps
  tasks-new_event ps = map-map _ _ ps

  pub messages-new_event :
      (ps : List (ℕ × EventType))
      → map (event_message t) (map (new_event t s p when) ps)
        ≡ map (λ (q : ℕ × EventType). event_message t (new_event t s p when q)) ps
  messages-new_event ps = map-map _ _ ps

  pub rows-new_event :
      (ps : List (ℕ × EventType))
      → map row_of (map (new_event t s p when) ps) ≡ map (new_row t s p when) ps
  rows-new_event ps = map-map _ _ ps
