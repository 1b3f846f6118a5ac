-- ===== src/Monitoring/Check/Effects.antt =====
-- What a check shows to the world: its events, and where each of them goes.
use stock_monitoring.Common.{
  ℕ, Option, some, List, [], ◌∷◌, ◌++◌, map, filter, append-nil, ◌≡◌, refl, sym,
}
use stock_monitoring.Messaging.{event_message}
use stock_monitoring.Domain.Entities.{
  LocationContext, ProviderProductResult, WatchTarget, Snapshot, DetectionEvent,
}
use stock_monitoring.Domain.Enums.{EventType}
use stock_monitoring.Domain.Errors.{ok}
use stock_monitoring.Domain.Ports.{ProviderRegistry, BaseRetailProvider}
use stock_monitoring.Monitoring.Check.{new_events, after_check, check_results-eq}
use stock_monitoring.Monitoring.Diffing.{diff_snapshots}
use stock_monitoring.Monitoring.Recording.{
  event_ids, task_of, types-numbered, tasks-new_event, rows-new_event, row_of, messages-new_event,
}
use stock_monitoring.Monitoring.Service.{check_watch_target, check_results, previous_id}
use stock_monitoring.Monitoring.Wiring.{monitoring_service}
use stock_monitoring.Storage.Engine.{Engine}
use stock_monitoring.Storage.Rows.{WatchTargetModel}
use stock_monitoring.Storage.Snapshots
use stock_monitoring.Storage.Snapshots.Latest.{next_snapshot}
use stock_monitoring.Storage.WatchTargets.Schedule.{has_id, checked, mark_checked-eq}
use stock_monitoring.Storage.World.{World}

-- The outcome of a check that found `result` first, in a world `w`.
pub record Recorded (id : ℕ) (types : List EventType) (result : ProviderProductResult) (w : World)
    (events : List DetectionEvent) (w' : World) : Type 0 where
  pub fired : map (λ (e : DetectionEvent). e.event_type) events ≡ types
  pub published : w'.published ≡ w.published ++ map (event_message id) events
  pub dispatched : w'.dispatched ≡ w.dispatched ++ map task_of events
  pub stored : w'.detection_events ≡ w.detection_events ++ map row_of events
  pub marked : w'.watch_targets ≡ (checked id result.scraped_at w).watch_targets

module _ (E : Engine) (id : ℕ) (result : ProviderProductResult) (previous : Option Snapshot)
    (w : World) where
  after_check-Recorded :
      (types : List EventType)
      → Recorded id types result w
          (new_events E id result previous types w)
          (after_check E id result previous types w)
  after_check-Recorded [] = record {
    fired = refl;
    published = sym (append-nil _);
    dispatched = sym (append-nil _);
    stored = sym (append-nil _);
    marked = refl;
  }
  after_check-Recorded (x ∷ xs) = record {
    fired =
        types-numbered E (event_ids w) id (next_snapshot E w) (previous_id previous)
          result.scraped_at (x ∷ xs);
    published = rw messages-new_event;
    dispatched = rw tasks-new_event;
    stored = rw rows-new_event;
    marked = refl;
  }

abbrev place : WatchTarget → LocationContext
place target = record { city = target.city; pincode = target.pincode }

module _ (E : Engine) (registry : ProviderRegistry World) (target : WatchTarget) {id : ℕ}
    {w₀ w₁ w₂ w : World} {provider : BaseRetailProvider World} where
  -- A check of a stored target whose provider can be set up and finds products, with the target's
  -- latest snapshot readable, does not raise. It returns one event for each event type of the
  -- comparison of the first product with that snapshot, in order, and stores, publishes and
  -- dispatches exactly those; the target is marked as checked at the time of the scrape.
  pub check_watch_target-Recorded :
      {m : WatchTargetModel} {result : ProviderProductResult} {rest : List ProviderProductResult}
      {previous : Option Snapshot}
      → target.id ≡ some id
      → registry.get target.retailer_slug w₀ ≡ (ok provider, w₁)
      → provider.initialize (place target) w₁ ≡ (ok tt, w₂)
      → provider.search_product target.keyword w₂ ≡ (ok (result ∷ rest), w)
      → Snapshots.get_latest E id w ≡ (ok previous, w)
      → filter (has_id id) w.watch_targets ≡ m ∷ []
      → (events : List DetectionEvent) × ((check_watch_target
            (monitoring_service E registry)
            target
            w₀).0
          ≡ ok events)
        × Recorded id
            (diff_snapshots previous result)
            result
            w
            events
            (check_watch_target (monitoring_service E registry) target w₀).1
  unfolding check_watch_target
  check_watch_target-Recorded {result} {rest} {previous} hid got set_up search latest found =
      rw
        (
          hid,
          got,
          set_up,
          search,
          check_results-eq E registry id w found result rest previous latest,
        )
        (
          new_events E id result previous (diff_snapshots previous result) w,
          refl,
          after_check-Recorded E id result previous w (diff_snapshots previous result),
        )

  -- If the search for a stored target, with a provider that can be set up, finds nothing, the check
  -- fires nothing and marks the target as checked now, and that is all it does.
  check_watch_target-nothing :
      {m : WatchTargetModel}
      → target.id ≡ some id
      → registry.get target.retailer_slug w₀ ≡ (ok provider, w₁)
      → provider.initialize (place target) w₁ ≡ (ok tt, w₂)
      → provider.search_product target.keyword w₂ ≡ (ok [], w)
      → filter (has_id id) w.watch_targets ≡ m ∷ []
      → check_watch_target (monitoring_service E registry) target w₀ ≡ (ok [], checked id w.now w)
  unfolding check_watch_target check_results
  check_watch_target-nothing hid got set_up search found =
      rw (hid, got, set_up, search, mark_checked-eq E id w.now w found)
