-- ===== src/Monitor/Ledger.antt =====
-- What the monitor adds to the tables and to the queue as it goes: every task that it dispatches is
-- for an event with a new key.
use mathlib.Core.List.{map-append, map-map}
use stock_monitoring.Common.{
  All-append, ℕ, ◌==◌, Bool, false, Option, List, [], ◌∷◌, ◌++◌, map, any, any-append, All,
  append-nil, append_assoc, ◌≡◌, refl, sym, ap, ◌∙◌, arith,
}
use stock_monitoring.Domain.Enums.{EventType}
use stock_monitoring.Messaging.{event_task}
use stock_monitoring.Monitoring.Recording.{with_events, record_events-eq, numbered, event_ids}
use stock_monitoring.Domain.Action.{Action}
use stock_monitoring.Domain.Entities.{Datetime}
use stock_monitoring.Domain.Keeps.{Keeps, Preserves}
use stock_monitoring.Domain.Ports.{ProviderRegistry}
use stock_monitoring.Monitoring.Service.{record_events}
use stock_monitoring.Monitoring.Wiring.{monitoring_service}
use stock_monitoring.Storage.Engine.{Engine}
use stock_monitoring.Storage.World.{World, Task}

-- A task whose arguments are no keys of the known events.
abbrev pub IsUnknown : List ℕ → Task → Type 0
IsUnknown ids task = All (λ id. any (λ i. i == id) ids ≡ false) task.args

-- Since then, events may have been added, and tasks for new events.
pub record Added (before w : World) : Type 0 where
  pub ids : List ℕ
  pub tasks : List Task
  pub stored : event_ids w ≡ event_ids before ++ ids
  pub dispatched : w.dispatched ≡ before.dispatched ++ tasks
  pub unknown : All (IsUnknown (event_ids before)) tasks

any-left :
    {A : Type 0} (p : A → Bool) (xs ys : List A) → any p (xs ++ ys) ≡ false → any p xs ≡ false
any-left p xs ys h = ground (arith, sym (any-append p xs ys) ∙ h)

-- The keys that a database gives to new events are not among those of old ones.
numbered-IsUnknown :
    (E : Engine) (old extra : List ℕ) (types : List EventType)
    → All
        (IsUnknown old)
        (map (λ (p : ℕ × EventType). event_task p.0) (numbered E (old ++ extra) types))
numbered-IsUnknown E old extra [] = tt
numbered-IsUnknown E old extra (t ∷ ts) =
    let id = E.fresh (old ++ extra) in
    (
      (any-left (λ i. i == id) old extra (E.fresh-new (old ++ extra)), tt),
      rw (append_assoc old extra (id ∷ [])) (numbered-IsUnknown E old (extra ++ id ∷ []) ts),
    )

-- The keys of the events and the queue.
abbrev pub ledger : World → List ℕ × List Task
ledger w = (event_ids w, w.dispatched)

module _ (before : World) where
  pub Added-start : Added before before
  Added-start = record {
    ids = [];
    tasks = [];
    stored = sym (append-nil (event_ids before));
    dispatched = sym (append-nil before.dispatched);
    unknown = tt;
  }

  pub Keeps-Added : {A : Type 0} {m : Action World A} → Keeps ledger m → Preserves (Added before) m
  Keeps-Added km = record {
    at = λ w added. record {
      ids = added.ids;
      tasks = added.tasks;
      unknown = added.unknown;
      stored = ap (λ l. l.0) (km.at w) ∙ added.stored;
      dispatched = ap (λ l. l.1) (km.at w) ∙ added.dispatched;
    };
  }

  module _ (E : Engine) (registry : ProviderRegistry World) where
    with_events-Added :
        (t s : ℕ) (p : Option ℕ) (when : Datetime) (types : List EventType) (w : World)
        → Added before w
        → Added before (with_events t s p when (numbered E (event_ids w) types) w)
    with_events-Added t s p when types w added = record {
      ids = added.ids ++ map (λ (q : ℕ × EventType). q.0) (numbered E (event_ids w) types);
      tasks =
          added.tasks
          ++ map (λ (q : ℕ × EventType). event_task q.0) (numbered E (event_ids w) types);
      stored = rw (map-append, map-map, added.stored, append_assoc) refl;
      dispatched = rw (added.dispatched, append_assoc) refl;
      unknown =
          All-append _ added.tasks _ added.unknown
            (rw added.stored (numbered-IsUnknown E (event_ids before) added.ids types));
    }

    pub record_events-Preserves :
        (t s : ℕ) (p : Option ℕ) (when : Datetime) (types : List EventType)
        → Preserves (Added before) (record_events (monitoring_service E registry) t s p when types)
    record_events-Preserves t s p when types = record {
      at = λ w added.
          rw (record_events-eq E registry t s p when types w)
            (with_events-Added t s p when types w added);
    }
