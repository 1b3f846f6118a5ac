-- ===== src/Api/Isolation/Reads.antt =====
-- The routes that only read leave the state as it is, whichever part of it is looked at.
use stock_monitoring.Common.{ℕ, refl, ◌==◌, Option, none, some, List, [], ◌∷◌, filter}
use stock_monitoring.Analytics.Summary.{Floats}
use stock_monitoring.Api.Availability.{availability_summary}
use stock_monitoring.Api.History.{days_before, get_history, history_entries, price_history}
use stock_monitoring.Api.Reference.{list_retailers, list_logs}
use stock_monitoring.Api.Routers.{ReadRoute, handle_read}
use stock_monitoring.Api.Schemas.{history_entry_schema}
use stock_monitoring.Api.Watches.{require_watch, owned_watch}
use stock_monitoring.Domain.Action.{lift}
use stock_monitoring.Domain.Entities.{Datetime, DetectionEvent, Watch}
use stock_monitoring.Domain.Keeps.{
  Keeps, Keeps-pure, Keeps-lift, Keeps-raise, Keeps-bind, Keeps-query, Keeps-find, Keeps-option,
  Keeps-if,
}
use stock_monitoring.Storage.DetectionEvents
use stock_monitoring.Storage.Engine.{Engine}
use stock_monitoring.Storage.Retailers.{list_all}
use stock_monitoring.Storage.Rows.{WatchModel, SnapshotModel}
use stock_monitoring.Storage.Snapshots
use stock_monitoring.Storage.Snapshots.{snapshot_repository}
use stock_monitoring.Storage.SystemLogs.{list_recent}
use stock_monitoring.Storage.Watches
use stock_monitoring.Storage.Watches.{watch_repository}
use stock_monitoring.Storage.World.{World}

module _ {X : Type 0} {view : World → X} (E : Engine) where
  pub require_watch-Keeps :
      (user : ℕ) (found : Option Watch) → Keeps view (require_watch {W = World} user found)
  unfolding require_watch
  require_watch-Keeps user none = Keeps-raise _
  require_watch-Keeps user (some watch) =
      Keeps-if (watch.user_id == user) (Keeps-pure watch) (Keeps-raise _)

  watch-Keeps : (id : ℕ) → Keeps view (Watches.get_by_id E id)
  unfolding Watches.get_by_id
  watch-Keeps id =
      Keeps-find (λ w. filter (λ (m : WatchModel). m.id == id) w.watches)
        (E.scalar_one_or_none WatchModel) _ (Keeps-pure _) (λ m. Keeps-pure _)

  pub owned_watch-Keeps : (id user : ℕ) → Keeps view (owned_watch (watch_repository E) id user)
  unfolding owned_watch
  owned_watch-Keeps id user =
      Keeps-bind (Watches.get_by_id E id) _ (watch-Keeps id) (require_watch-Keeps user)

  snapshot-Keeps : (id : ℕ) → Keeps view (Snapshots.get_by_id E id)
  unfolding Snapshots.get_by_id
  snapshot-Keeps id =
      Keeps-query (λ w. filter (λ (m : SnapshotModel). m.id == id) w.snapshots) _
        (λ rows.
          Keeps-bind (lift (E.scalar_one_or_none SnapshotModel rows)) _ (Keeps-lift _)
            (λ m. Keeps-lift (Snapshots.to_snapshot_option m)))

  events-Keeps :
      (id limit : ℕ) (since : Option Datetime)
      → Keeps view (DetectionEvents.list_for_watch_target E id limit since)
  unfolding DetectionEvents.list_for_watch_target
  events-Keeps id limit since = record { at = λ w. refl }

  snapshots-Keeps : (id : ℕ) (since : Datetime) → Keeps view (Snapshots.list_since E id since)
  unfolding Snapshots.list_since
  snapshots-Keeps id since = record { at = λ w. refl }

  history_entries-Keeps :
      (events : List DetectionEvent)
      → Keeps view (history_entries (watch_repository E) (snapshot_repository E) events)
  unfolding history_entries
  history_entries-Keeps [] = Keeps-pure _
  history_entries-Keeps (event ∷ events) =
      Keeps-bind (Snapshots.get_by_id E event.snapshot_id) _ (snapshot-Keeps event.snapshot_id) (
        Keeps-option _ (history_entries-Keeps events) (λ s.
          Keeps-bind (lift (history_entry_schema event s)) _ (Keeps-lift _) (λ entry.
            Keeps-bind (history_entries (watch_repository E) (snapshot_repository E) events) _
              (history_entries-Keeps events) (λ rest. Keeps-pure _))))

  pub handle_read-Keeps :
      (floats : Floats) (route : ReadRoute) (user : ℕ)
      → Keeps view (handle_read E floats route user)
  unfolding handle_read list_retailers list_logs get_history price_history availability_summary
      list_all list_recent
  handle_read-Keeps floats ReadRoute.list_retailers_route user = record { at = λ w. refl }
  handle_read-Keeps floats ReadRoute.list_logs_route user = record { at = λ w. refl }
  handle_read-Keeps floats (ReadRoute.get_history_route id) user =
      Keeps-bind (owned_watch (watch_repository E) id user) _ (owned_watch-Keeps id user) (λ watch.
        Keeps-bind (DetectionEvents.list_for_watch_target E watch.watch_target_id 50 none) _
          (events-Keeps watch.watch_target_id 50 none) history_entries-Keeps)
  handle_read-Keeps floats (ReadRoute.price_history_route id days) user =
      Keeps-bind (owned_watch (watch_repository E) id user) _ (owned_watch-Keeps id user) (λ watch.
        Keeps-query (λ w. w.now) _
          (λ now. Keeps-bind (lift (days_before now days)) _ (Keeps-lift _) (λ since.
            Keeps-bind (Snapshots.list_since E watch.watch_target_id since) _
              (snapshots-Keeps watch.watch_target_id since) (λ rows. Keeps-pure _))))
  handle_read-Keeps floats (ReadRoute.availability_summary_route id days) user =
      Keeps-bind (owned_watch (watch_repository E) id user) _ (owned_watch-Keeps id user) (λ watch.
        Keeps-query (λ w. w.now) _
          (λ now. Keeps-bind (lift (days_before now days)) _ (Keeps-lift _) (λ since.
            Keeps-bind
              (DetectionEvents.list_for_watch_target E watch.watch_target_id 1000 (some since)) _
              (events-Keeps watch.watch_target_id 1000 (some since)) (λ events. Keeps-pure _))))
