-- ===== src/Api/History.antt =====
-- backend/app/api/routers/history.py and the price history of backend/app/api/routers/analytics.py,
-- for the user of the request.
use stock_monitoring.Common.{ℕ, leb, if◌then◌else◌, ◌-◌, none, some, List, [], ◌∷◌, map}
use stock_monitoring.Auth.Service.{days}
use stock_monitoring.Api.Schemas.{
  HistoryEntrySchema, PricePointSchema, history_entry_schema, price_point_schema,
}
use stock_monitoring.Api.Watches.{owned_watch}
use stock_monitoring.Domain.Action.{Action, pure, lift, ◌>>=◌}
use stock_monitoring.Domain.Entities.{Datetime, DetectionEvent}
use stock_monitoring.Domain.Errors.{Result, ok, err, other}
use stock_monitoring.Domain.Ports.{DetectionEventRepository, SnapshotRepository, WatchRepository}

-- `now - timedelta(days=days)`; before `datetime.min` Python raises an `OverflowError`.
abbrev pub days_before : Datetime → ℕ → Result Datetime
days_before now trailing_days =
    if leb (days trailing_days) now
    then ok (now - days trailing_days)
    else err (other "OverflowError")

module _ {W : Type 0} (watch_repo : WatchRepository W) (snapshot_repo : SnapshotRepository W) where
  -- The loop over the events; an event without its snapshot is left out.
  unfoldable pub history_entries : List DetectionEvent → Action W (List HistoryEntrySchema)
  history_entries [] = pure []
  history_entries (event ∷ events) = do
    snapshot ← snapshot_repo.get_by_id event.snapshot_id
    elim snapshot [
      | none ↦ history_entries events
      | some s ↦ do
        entry ← lift (history_entry_schema event s)
        rest ← history_entries events
        pure (entry ∷ rest)
    ]

  -- The port's default limit is 50 events.
  unfoldable pub get_history :
      DetectionEventRepository W → ℕ → ℕ → Action W (List HistoryEntrySchema)
  get_history event_repo watch_id user_id = do
    watch ← owned_watch watch_repo watch_id user_id
    events ← event_repo.list_for_watch_target watch.watch_target_id 50 none
    history_entries events

  unfoldable pub price_history : Action W Datetime → ℕ → ℕ → ℕ → Action W (List PricePointSchema)
  price_history utcnow watch_id trailing_days user_id = do
    watch ← owned_watch watch_repo watch_id user_id
    now ← utcnow
    since ← lift (days_before now trailing_days)
    snapshots ← snapshot_repo.list_since watch.watch_target_id since
    pure (map price_point_schema snapshots)
