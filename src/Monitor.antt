-- ===== src/Monitor.antt =====
-- `main` of backend/app/monitor/main.py: the scheduler over the SQL repositories of one session, until
-- a signal stops it.
pub mod Ledger
pub mod Passes
pub mod Uncommitted
use stock_monitoring.Common.{ℕ, String, List, [], ◌∷◌}
use stock_monitoring.Domain.Action.{Action, pure, ◌>>=◌, ◌>>◌}
use stock_monitoring.Domain.Errors.{Result}
use stock_monitoring.Domain.Ports.{ProviderRegistry}
use stock_monitoring.Monitoring.Wiring.{monitoring_service}
use stock_monitoring.Scheduling.{run_forever}
use stock_monitoring.Storage.Engine.{Engine}
use stock_monitoring.Storage.WatchTargets.{watch_target_repository}
use stock_monitoring.Storage.World.{World, utcnow}

-- `async with session_factory() as session` with no commit in its block: however the block ends,
-- closing the session rolls the tables back.
unfoldable pub without_commit : {A : Type 0} → Action World A → Action World A
without_commit block before = let (r, w) = block before in (r, record w { db = before.db })

-- The result of the task that runs the scheduler is read by nobody, nor is what it raises.
unfoldable pub run_task : {A : Type 0} → Action World A → Action World (Unit {0})
run_task scheduler w = let (r, w') = scheduler w in pure tt w'

-- The loop over the active slugs that closes their providers.
unfoldable pub close_providers : ProviderRegistry World → List String → Action World (Unit {0})
close_providers provider_registry [] = pure tt
close_providers provider_registry (slug ∷ slugs) = do
  provider ← provider_registry.get slug
  provider.close
  close_providers provider_registry slugs

-- What `main` calls of redis-py, SQLAlchemy and asyncio: `redis_client.aclose`, `engine.dispose` and
-- the sleep between two passes.
pub record Runtime : Type 0 where
  pub aclose : Action World (Unit {0})
  pub dispose : Action World (Unit {0})
  pub sleep : Action World (Unit {0})

module _ (E : Engine) (provider_registry : ProviderRegistry World) (runtime : Runtime) where
  -- What follows the signal, once the scheduler is cancelled.
  unfoldable pub shut_down : Action World (Unit {0})
  unfolding close_providers
  shut_down = do
    slugs ← provider_registry.list_active_slugs
    close_providers provider_registry slugs
    runtime.aclose
    runtime.dispose

  -- A run that is stopped after a number of passes.
  unfoldable pub main : ℕ → Action World (Unit {0})
  unfolding without_commit run_task shut_down
  main turns = without_commit (
      run_task (
        run_forever (monitoring_service E provider_registry) (watch_target_repository E) utcnow
          runtime.sleep turns)
      >> shut_down)
