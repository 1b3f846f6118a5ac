-- ===== src/Api/Lifespan.antt =====
-- `lifespan` of backend/app/api/main.py: what the application does before its first request and after
-- its last.
use stock_monitoring.Domain.Action.{Action, pure, ◌>>◌}
use stock_monitoring.Storage.Engine.{Engine}
use stock_monitoring.Storage.Retailers.{ensure_retailers_seeded}
use stock_monitoring.Storage.Session.{in_session}
use stock_monitoring.Storage.World.{World}

-- `except Exception` with a warning in the log: the application starts without.
unfoldable pub or_warn : Action World (Unit {0}) → Action World (Unit {0})
or_warn seed w = let (r, w') = seed w in pure tt w'

-- The session of the startup; the seeding commits it at its own end.
unfoldable pub start_up : Engine → Action World (Unit {0})
unfolding or_warn
start_up E = or_warn (in_session (ensure_retailers_seeded E))

-- The application runs at the `yield`; then the Redis client is closed and the engine disposed of.
unfoldable pub lifespan :
    Engine
    → Action World (Unit {0})
    → Action World (Unit {0})
    → Action World (Unit {0})
    → Action World (Unit {0})
unfolding start_up
lifespan E aclose dispose application = do start_up E; application; aclose; dispose
