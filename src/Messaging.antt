-- ===== src/Messaging.antt =====
-- The adapters that hand events on: backend/app/infrastructure/cache/redis_publisher.py and
-- backend/app/infrastructure/tasks_dispatch.py. What Redis and Celery are given
-- is kept in order. Both are taken to be up: a connection error of theirs is not modelled.
use Prim.Native.String.{◌++◌}
use stock_monitoring.Common.{ℕ, String, Option, none, some, [], ◌∷◌}
use stock_monitoring.Common.{◌++◌ as append}
use stock_monitoring.Common.Decimal.{str}
use stock_monitoring.Common.Int.{pos}
use stock_monitoring.Common.Json.{Json, null, int}
use stock_monitoring.Domain.Action.{Action, modify}
use stock_monitoring.Domain.Entities.{DetectionEvent}
use stock_monitoring.Domain.Enums.{event_type_value}
use stock_monitoring.Domain.Ports.{EventPublisher, TaskDispatcher}
use stock_monitoring.Storage.World.{World, Message, Task}

-- `f"events:{watch_target_id}"`
unfoldable pub events_channel : ℕ → String
unfolding str
events_channel watch_target_id = "events:" ++ str watch_target_id

-- A number in a payload, or `None`.
abbrev optional : Option ℕ → Json
optional none = null
optional (some n) = int (pos n)

-- The payload of an event; `created_at` is the count that `isoformat` would write out.
abbrev pub event_message : ℕ → DetectionEvent → Message
event_message watch_target_id event = record {
  channel = events_channel watch_target_id;
  payload =
      ("event_id", optional event.id)
      ∷ ("watch_target_id", int (pos watch_target_id))
      ∷ ("event_type", Json.str (event_type_value event.event_type))
      ∷ ("snapshot_id", int (pos event.snapshot_id))
      ∷ ("created_at", int (pos event.created_at))
      ∷ [];
}

unfoldable pub publish : ℕ → DetectionEvent → Action World (Unit {0})
publish watch_target_id event =
    modify
      (λ w. record w { published = append w.published (event_message watch_target_id event ∷ []) })

abbrev pub event_task : ℕ → Task
event_task event_id = record {
  name = "app.tasks.notifications.process_detection_event";
  args = event_id ∷ [];
}

unfoldable pub dispatch_detection_event : ℕ → Action World (Unit {0})
dispatch_detection_event event_id =
    modify (λ w. record w { dispatched = append w.dispatched (event_task event_id ∷ []) })

abbrev pub redis_event_publisher : EventPublisher World
redis_event_publisher = record { publish = publish }

abbrev pub celery_task_dispatcher : TaskDispatcher World
celery_task_dispatcher = record { dispatch_detection_event = dispatch_detection_event }
