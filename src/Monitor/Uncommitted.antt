-- ===== src/Monitor/Uncommitted.antt =====
-- What the rest of the system sees of a run of the monitor, whose session is never committed.
use stock_monitoring.Common.{
  filter-eq-nil, any-map, All-map, sym, subst, false, ◌∙◌, ℕ, String, List, [], ◌∷◌, ◌++◌, All,
  filter, ◌==◌, any, map, ◌≡◌, refl,
}
use stock_monitoring.Domain.Action.{Action}
use stock_monitoring.Domain.Errors.{ok}
use stock_monitoring.Domain.Keeps.{Keeps, Preserves, Preserves-pure, Preserves-bind}
use stock_monitoring.Domain.Ports.{ProviderRegistry}
use stock_monitoring.Monitor.{Runtime, main, without_commit, run_task, shut_down, close_providers}
use stock_monitoring.Scheduling.{run_forever}
use stock_monitoring.Storage.WatchTargets.{watch_target_repository}
use stock_monitoring.Notification.Service.{process_event}
use stock_monitoring.Storage.DetectionEvents
use stock_monitoring.Storage.Rows.{DetectionEventModel}
use stock_monitoring.Monitor.Ledger.{Added, Added-start, ledger, Keeps-Added}
use stock_monitoring.Monitor.Passes.{IsQuiet, run_forever-Preserves}
use stock_monitoring.Monitoring.Recording.{event_ids}
use stock_monitoring.Monitoring.Wiring.{monitoring_service}
use stock_monitoring.Notification.Wiring.{Senders, process_detection_event}
use stock_monitoring.Storage.Session.{in_session}
use stock_monitoring.Storage.Engine.{Engine}
use stock_monitoring.Storage.World.{World, Task, utcnow}

module _ (before : World) (E : Engine) (registry : ProviderRegistry World)
    (quiet : IsQuiet registry) where
  close_providers-Preserves :
      (slugs : List String) → Preserves (Added before) (close_providers registry slugs)
  unfolding close_providers
  close_providers-Preserves [] = Preserves-pure tt
  close_providers-Preserves (slug ∷ slugs) =
      Preserves-bind (registry.get slug) _ (Keeps-Added before (quiet.get-quiet slug))
        (λ provider w got.
          Preserves-bind provider.close _
            (Keeps-Added before (quiet.provider-quiet slug provider w got).close-quiet)
            (λ _ _ _. close_providers-Preserves slugs))

  run_task-Preserves :
      (m : Action World (Unit {0}))
      → Preserves (Added before) m
      → Preserves (Added before) (run_task m)
  unfolding run_task
  run_task-Preserves m pm = record { at = pm.at }

  module _ (runtime : Runtime) (aclose : Keeps ledger runtime.aclose)
      (dispose : Keeps ledger runtime.dispose) (sleep : Keeps ledger runtime.sleep) where
    shut_down-Preserves : Preserves (Added before) (shut_down E registry runtime)
    unfolding shut_down
    shut_down-Preserves =
        Preserves-bind registry.list_active_slugs _ (Keeps-Added before quiet.slugs-quiet)
          (λ slugs _ _.
            Preserves-bind (close_providers registry slugs) _ (close_providers-Preserves slugs)
              (λ _ _ _.
                Preserves-bind runtime.aclose _ (Keeps-Added before aclose)
                  (λ _ _ _. Keeps-Added before dispose)))

-- The worker finds no event under a key that no stored event has, and does nothing.
process_detection_event-unknown :
    (E : Engine) (senders : Senders) (event_id : ℕ) (v : World)
    → any (λ i. i == event_id) (event_ids v) ≡ false
    → process_detection_event E senders event_id v ≡ (ok tt, v)
unfolding process_detection_event process_event in_session DetectionEvents.get_by_id
process_detection_event-unknown E senders event_id v unknown =
    let gone : filter (λ (m : DetectionEventModel). m.id == event_id) v.detection_events ≡ [] =
      filter-eq-nil (λ (m : DetectionEventModel). m.id == event_id) v.detection_events
        (sym (any-map (λ i. i == event_id) (λ (m : DetectionEventModel). m.id) v.detection_events)
          ∙ unknown) in
    rw (gone, E.scalar_one_or_none-eq DetectionEventModel) refl

-- A task alerts nobody: whoever runs it where the stored events are those of before succeeds and
-- changes nothing.
abbrev pub IsIdle : Engine → Senders → World → Task → Type 0
IsIdle E senders before task =
    All
      (λ event_id.
        (v : World)
        → v.detection_events ≡ before.detection_events
        → process_detection_event E senders event_id v ≡ (ok tt, v))
      task.args

-- For providers and a runtime that store no event and dispatch no task themselves: a run of the
-- monitor, of however many passes, leaves the tables as they were before it. Every task that it
-- dispatched stays in the queue, and each of them, run by a worker that sees the events of the
-- tables as they were before the run, sends nothing, logs nothing and succeeds.
pub main-IsIdle :
    (before : World) (E : Engine) (registry : ProviderRegistry World) (runtime : Runtime)
    (senders : Senders) (turns : ℕ)
    → IsQuiet registry
    → Keeps ledger runtime.aclose
    → Keeps ledger runtime.dispose
    → Keeps ledger runtime.sleep
    → ((main E registry runtime turns before).1.db ≡ before.db)
      × (tasks : List Task) × ((main E registry runtime turns before).1.dispatched
          ≡ before.dispatched ++ tasks)
      × All (IsIdle E senders before) tasks
unfolding main without_commit
main-IsIdle before E registry runtime senders turns quiet aclose dispose sleep =
    let run : Action World (Unit {0}) =
      run_forever (monitoring_service E registry) (watch_target_repository E) utcnow runtime.sleep
        turns in
    let added =
      (Preserves-bind (run_task run) _
          (run_task-Preserves before E registry quiet run
            (run_forever-Preserves before E registry quiet runtime.sleep turns sleep))
          (λ _ _ _. shut_down-Preserves before E registry quiet runtime aclose dispose sleep)).at
        before (Added-start before) in
    (
      refl,
      added.tasks,
      added.dispatched,
      All-map added.tasks
          (λ task unknown.
            All-map task.args
              (λ event_id new v same. process_detection_event-unknown E senders event_id v (
                subst
                  (λ rows.
                    any (λ i. i == event_id) (map (λ (m : DetectionEventModel). m.id) rows) ≡ false)
                  (sym same) new))
              unknown)
          added.unknown,
    )
