-- ===== src/Api/Reference.antt =====
-- The read-only routes of backend/app/api/routers/retailers.py and logs.py, with their schemas.
use stock_monitoring.Common.{ℕ, String, Bool, List, map}
use stock_monitoring.Common.Json.{Dict, Json}
use stock_monitoring.Domain.Action.{Action, pure, lift, ◌>>=◌}
use stock_monitoring.Domain.Entities.{Datetime, Retailer, SystemLog}
use stock_monitoring.Domain.Errors.{Result, map_result, or_raise, traverse, value_error}
use stock_monitoring.Domain.Ports.{RetailerRepository, SystemLogRepository}

pub record RetailerSchema : Type 0 where
  pub slug : String
  pub name : String
  pub is_active : Bool

pub record SystemLogSchema : Type 0 where
  pub id : ℕ
  pub level : String
  pub message : String
  pub context : Dict Json
  pub created_at : Datetime

abbrev pub retailer_schema : Retailer → RetailerSchema
retailer_schema r = record { slug = r.slug; name = r.name; is_active = r.is_active }

abbrev pub system_log_schema : SystemLog → Result SystemLogSchema
system_log_schema log =
    map_result
      (λ id. record {
        id = id;
        level = log.level;
        message = log.message;
        context = log.context;
        created_at = log.created_at;
      })
      (or_raise value_error log.id)

module _ {W : Type 0} where
  unfoldable pub list_retailers : RetailerRepository W → ℕ → Action W (List RetailerSchema)
  list_retailers repo user_id = do retailers ← repo.list_all; pure (map retailer_schema retailers)

  -- The port's default limit is 100 entries.
  unfoldable pub list_logs : SystemLogRepository W → ℕ → Action W (List SystemLogSchema)
  list_logs repo user_id = do logs ← repo.list_recent 100; lift (traverse system_log_schema logs)
