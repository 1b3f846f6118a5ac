-- ===== src/Storage/SystemLogs.antt =====
-- `SqlAlchemySystemLogRepository` of backend/app/infrastructure/db/repositories.py.
use stock_monitoring.Common.{ℕ, String, some, List, [], ◌∷◌, ◌++◌, map, take}
use stock_monitoring.Common.Json.{Dict, Json}
use stock_monitoring.Domain.Action.{Action, gets}
use stock_monitoring.Domain.Errors.{ok}
use stock_monitoring.Domain.Entities.{Datetime, SystemLog}
use stock_monitoring.Domain.Ports.{SystemLogRepository}
use stock_monitoring.Storage.Rows.{SystemLogModel}
use stock_monitoring.Storage.World.{World}
use stock_monitoring.Storage.Engine.{Engine}

abbrev pub to_system_log : SystemLogModel → SystemLog
to_system_log model = record {
  id = some model.id;
  level = model.level;
  message = model.message;
  context = model.context;
  created_at = model.created_at;
}

unfoldable pub create : Engine → String → String → Dict Json → Datetime → Action World SystemLog
create E level message context at w =
    let model : SystemLogModel = record {
      id = E.fresh (map (λ (m : SystemLogModel). m.id) w.system_logs);
      level = level;
      message = message;
      context = context;
      created_at = at;
    } in
    (
      ok (to_system_log model),
      record w { db = record w.db { system_logs = w.system_logs ++ model ∷ [] } },
    )

unfoldable pub list_recent : Engine → ℕ → Action World (List SystemLog)
list_recent E limit = gets (λ w.
    map to_system_log
      (take limit (E.order_by_desc SystemLogModel (λ m. m.created_at) w.system_logs)))

abbrev pub system_log_repository : Engine → SystemLogRepository World
system_log_repository E = record { create = create E; list_recent = list_recent E }
