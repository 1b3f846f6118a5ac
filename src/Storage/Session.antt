-- ===== src/Storage/Session.antt =====
-- A session that is committed after its block and closed at its end: `get_session` of
-- backend/app/api/deps.py and the `async with` of backend/app/tasks/notifications.py.
use stock_monitoring.Domain.Action.{Action}
use stock_monitoring.Domain.Errors.{Result, ok, err}
use stock_monitoring.Storage.World.{World}

-- How the session ends: a raise goes past the `commit`, and closing rolls the tables back.
abbrev pub close_session : {A : Type 0} → World → Result A → World → World
close_session before (ok a) w = w
close_session before (err e) w = record w { db = before.db }

unfoldable pub in_session : {A : Type 0} → Action World A → Action World A
in_session block before = let (r, w) = block before in (r, close_session before r w)
