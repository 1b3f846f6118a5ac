-- ===== src/Monitoring/Check/Series.antt =====
-- A series of checks through the database is a series of comparisons: what a check leaves stored is
-- what the next one compares with.
use stock_monitoring.Common.{
  ℕ, ◌+◌, ◌≤◌, ◌<◌, Option, some, List, [], ◌∷◌, ◌++◌, map, filter, filter-append, filter-update_if,
  ==_refl, All, All-append, All-imp, ◌≡◌, refl, ap, ◌∙◌, arith,
}
use stock_monitoring.Domain.Action.{Action, pure, ◌>>=◌}
use stock_monitoring.Domain.Entities.{ProviderProductResult, Snapshot, DetectionEvent}
use stock_monitoring.Domain.Enums.{EventType}
use stock_monitoring.Domain.Errors.{ok}
use stock_monitoring.Domain.Ports.{ProviderRegistry}
use stock_monitoring.Monitoring.Check.{previous_id, new_events, after_check, check_results-eq}
use stock_monitoring.Monitoring.Diffing.{diff_snapshots}
use stock_monitoring.Monitoring.Diffing.Histories.{
  observe_all, store_after, store_after-quiet, store_after-fires, track, track-observe_all,
  last_status,
}
use stock_monitoring.Monitoring.Diffing.Laws.{in_stock, known_availability}
use stock_monitoring.Monitoring.Service.{check_results}
use stock_monitoring.Monitoring.Recording.{types-numbered, event_ids}
use stock_monitoring.Monitoring.Wiring.{monitoring_service}
use stock_monitoring.Storage.Engine.{Engine}
use stock_monitoring.Storage.Rows.{WatchTargetModel, SnapshotModel}
use stock_monitoring.Storage.Snapshots.Latest.{
  next_snapshot, is_snapshot_of, latest_of, latest_of-newest, get_latest-eq,
}
use stock_monitoring.Storage.WatchTargets.Schedule.{id_of_found, has_id, checked}
use stock_monitoring.Storage.World.{World}

-- Checks of one target, one after the other; each found these products. The event types that fired.
unfoldable pub run_checks :
    Engine → ProviderRegistry World → ℕ → List ProviderProductResult → Action World (List EventType)
run_checks E registry id [] = pure []
run_checks E registry id (result ∷ results) = do
  events ← check_results (monitoring_service E registry) id (result ∷ [])
  rest ← run_checks E registry id results
  pure (map (λ (e : DetectionEvent). e.event_type) events ++ rest)

-- Each scrape is later than the one before it; the first is not before `bound`.
abbrev pub IsLater : ℕ → List ProviderProductResult → Type 0
IsLater bound [] = Unit
IsLater bound (result ∷ results) =
    (bound ≤ result.scraped_at) × IsLater (result.scraped_at + 1) results

-- What a check needs of the world: the target is stored once, its latest snapshot can be read, and
-- its snapshots are from before `bound`.
pub record IsReady (E : Engine) (id : ℕ) (previous : Option Snapshot) (bound : ℕ) (w : World)
    : Type 0 where
  pub target : WatchTargetModel
  pub found : filter (has_id id) w.watch_targets ≡ target ∷ []
  pub latest : latest_of E id w.snapshots ≡ ok previous
  pub older :
      All (λ (m : SnapshotModel). m.timestamp < bound) (filter (is_snapshot_of id) w.snapshots)

module _ (E : Engine) (id : ℕ) (result : ProviderProductResult) (previous : Option Snapshot)
    {bound : ℕ} {w : World} (ready : IsReady E id previous bound w)
    (later : bound ≤ result.scraped_at) where
  newer :
      All
        (λ (m : SnapshotModel). m.timestamp < result.scraped_at)
        (filter (is_snapshot_of id) w.snapshots)
  newer =
      All-imp (λ (m : SnapshotModel). m.timestamp < bound) (λ m. m.timestamp < result.scraped_at)
        (λ m h. omega arith) _ ready.older

  newer_yet :
      All
        (λ (m : SnapshotModel). m.timestamp < result.scraped_at + 1)
        (filter (is_snapshot_of id) w.snapshots)
  newer_yet =
      All-imp (λ (m : SnapshotModel). m.timestamp < bound)
        (λ m. m.timestamp < result.scraped_at + 1) (λ m h. omega arith) _ ready.older

  found_checked :
      filter (has_id id) (checked id result.scraped_at w).watch_targets
      ≡ record ready.target { last_checked_at = some result.scraped_at } ∷ []
  found_checked = rw (
    filter-update_if (has_id id) (has_id id)
        (λ m. record m { last_checked_at = some result.scraped_at }) w.watch_targets (λ x. refl),
    ready.found,
    id_of_found id w.watch_targets ready.target ready.found,
    ==_refl id,
  )

  -- After the check the world is ready for a later one.
  after_check-IsReady :
      (types : List EventType)
      → diff_snapshots previous result ≡ types
      → IsReady E id
          (store_after previous (some (next_snapshot E w)) id result)
          (result.scraped_at + 1)
          (after_check E id result previous types w)
  after_check-IsReady [] quiet = record {
    target = record ready.target { last_checked_at = some result.scraped_at };
    found = found_checked;
    latest =
        rw (store_after-quiet previous (some (next_snapshot E w)) id result quiet) ready.latest;
    older = newer_yet;
  }
  after_check-IsReady (x ∷ xs) fires = record {
    target = record ready.target { last_checked_at = some result.scraped_at };
    found = found_checked;
    latest =
        rw (store_after-fires previous (some (next_snapshot E w)) id result fires)
          (latest_of-newest E id result w newer);
    older =
        rw (filter-append (is_snapshot_of id) w.snapshots, ==_refl id)
          (All-append (λ (m : SnapshotModel). m.timestamp < result.scraped_at + 1)
            (filter (is_snapshot_of id) w.snapshots) _ newer_yet (omega arith, tt));
  }

  check_results-types :
      (registry : ProviderRegistry World)
      → check_results (monitoring_service E registry) id (result ∷ []) w ≡ (
        ok (new_events E id result previous (diff_snapshots previous result) w),
        after_check E id result previous (diff_snapshots previous result) w,
      )
  check_results-types registry =
      check_results-eq E registry id w ready.found result [] previous
        (rw (get_latest-eq, ready.latest))

module _ (E : Engine) (registry : ProviderRegistry World) (id : ℕ) where
  -- Where a target is stored once, its latest snapshot can be read and all its snapshots are from
  -- before the first of the scrapes, a series of ever later scrapes, with one product each, is
  -- recorded through the database without raising, and fires what the series of comparisons fires
  -- that starts from the same latest snapshot.
  pub run_checks-observe_all :
      (results : List ProviderProductResult) {previous : Option Snapshot} {bound : ℕ} (w : World)
      → IsReady E id previous bound w
      → IsLater bound results
      → (keyed : List (Option ℕ × ProviderProductResult)) × (map
            (λ (p : Option ℕ × ProviderProductResult). p.1)
            keyed
          ≡ results)
        × ((run_checks E registry id results w).0 ≡ ok (observe_all id previous keyed))
  unfolding run_checks observe_all
  run_checks-observe_all [] w ready later = ([], refl, refl)
  run_checks-observe_all (result ∷ results) {previous} {bound} w ready later =
      let step =
        after_check-IsReady E id result previous ready later.0 (diff_snapshots previous result)
          refl in
      let (keyed, same, ran) =
        run_checks-observe_all results
          (after_check E id result previous (diff_snapshots previous result) w) step later.1 in
      (
        (some (next_snapshot E w), result) ∷ keyed,
        ap (λ l. result ∷ l) same,
        rw
            (
              check_results-types E id result previous ready later.0 registry,
              types-numbered E (event_ids w) id (next_snapshot E w) (previous_id previous)
                  result.scraped_at (diff_snapshots previous result),
            )
            (rw ran),
      )

  -- Where a target is stored once, its latest snapshot can be read and all its snapshots are from
  -- before the first scrape: whoever follows the events of ever later checks of it, knowing whether its latest
  -- snapshot was in stock, is never told "back in stock" while in stock, "out of stock" while out
  -- of stock or "running low" while out of stock, and in the end knows whether the last scrape was
  -- in stock.
  pub run_checks-track :
      (results : List ProviderProductResult) {previous : Option Snapshot} {bound : ℕ} (w : World)
      → IsReady E id previous bound w
      → IsLater bound results
      → (types : List EventType) × ((run_checks E registry id results w).0 ≡ ok types)
        × (track (in_stock (known_availability previous)) types
            ≡ some (last_status (in_stock (known_availability previous)) results))
  run_checks-track results {previous} w ready later =
      let (keyed, same, ran) = run_checks-observe_all results w ready later in
      (
        observe_all id previous keyed,
        ran,
        track-observe_all id previous keyed
            ∙ ap (λ l. some (last_status (in_stock (known_availability previous)) l)) same,
      )
