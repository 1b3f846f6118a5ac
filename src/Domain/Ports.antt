-- ===== src/Domain/Ports.antt =====
-- The abstract ports of backend/app/domain/ports. A port is a record of actions over a state `W`
-- that it does not know; the services take ports, the adapters build them.
use stock_monitoring.Common.{ℕ, String, Bool, Option, List}
use stock_monitoring.Common.Int.{ℤ}
use stock_monitoring.Common.Json.{Dict, Json}
use stock_monitoring.Domain.Action.{Action}
use stock_monitoring.Domain.Entities.{
  Datetime, LocationContext, ProviderProductResult, WatchTarget, Snapshot, DetectionEvent, Product,
  Watch, NotificationChannel, NotificationLog, User, OtpChallenge, NotificationContext, Retailer,
  SystemLog,
}
use stock_monitoring.Domain.Enums.{Availability, EventType, NotificationChannelType}

pub record UserRepository (W : Type 0) : Type 0 where
  pub get_or_create_by_phone : String → Action W User
  pub get_by_id : ℕ → Action W (Option User)

pub record OtpChallengeRepository (W : Type 0) : Type 0 where
  pub create : String → String → Datetime → Datetime → Action W OtpChallenge
  pub get_latest : String → Action W (Option OtpChallenge)
  pub count_recent : String → ℕ → Action W ℕ
  pub mark_consumed : ℕ → Action W (Unit {0})
  pub increment_attempt : ℕ → Action W (Unit {0})

pub record WatchTargetRepository (W : Type 0) : Type 0 where
  pub get_or_create : String → String → String → String → ℤ → Action W WatchTarget
  pub get_by_id : ℕ → Action W (Option WatchTarget)
  pub list_due : Datetime → Action W (List WatchTarget)
  pub mark_checked : ℕ → Datetime → Action W (Unit {0})

pub record SnapshotRepository (W : Type 0) : Type 0 where
  pub get_latest : ℕ → Action W (Option Snapshot)
  pub get_by_id : ℕ → Action W (Option Snapshot)
  pub create : ℕ → ProviderProductResult → Action W Snapshot
  pub list_since : ℕ → Datetime → Action W (List Snapshot)

pub record DetectionEventRepository (W : Type 0) : Type 0 where
  pub create : ℕ → ℕ → Option ℕ → EventType → Datetime → Action W DetectionEvent
  pub get_by_id : ℕ → Action W (Option DetectionEvent)
  pub list_for_watch_target : ℕ → ℕ → Option Datetime → Action W (List DetectionEvent)

pub record WatchRepository (W : Type 0) : Type 0 where
  pub create : ℕ → ℕ → ℕ → ℤ → Action W Watch
  pub list_by_watch_target : ℕ → Action W (List Watch)
  pub list_by_product : ℕ → Action W (List Watch)
  pub list_for_user : ℕ → Action W (List Watch)
  pub get_by_id : ℕ → Action W (Option Watch)
  pub deactivate : ℕ → Action W (Unit {0})

pub record ProductRepository (W : Type 0) : Type 0 where
  pub create : ℕ → String → String → Option String → Action W Product
  pub list_for_user : ℕ → Action W (List Product)
  pub get_by_id : ℕ → Action W (Option Product)
  pub delete : ℕ → Action W (Unit {0})

pub record RetailerRepository (W : Type 0) : Type 0 where
  pub list_all : Action W (List Retailer)

pub record NotificationChannelRepository (W : Type 0) : Type 0 where
  pub create : ℕ → NotificationChannelType → Dict Json → Bool → Action W NotificationChannel
  pub list_for_user : ℕ → Action W (List NotificationChannel)
  pub get_by_id : ℕ → Action W (Option NotificationChannel)
  pub delete : ℕ → Action W (Unit {0})
  pub mark_verified : ℕ → Action W (Unit {0})

pub record NotificationLogRepository (W : Type 0) : Type 0 where
  pub exists_recent : String → ℕ → Action W Bool
  pub create : ℕ → ℕ → ℕ → String → String → Action W NotificationLog
  pub list_for_user : ℕ → ℕ → Action W (List NotificationLog)

pub record SettingsRepository (W : Type 0) : Type 0 where
  pub get_for_user : ℕ → Action W (Dict Json)
  pub set_for_user : ℕ → String → Json → Action W (Unit {0})

pub record SystemLogRepository (W : Type 0) : Type 0 where
  pub create : String → String → Dict Json → Datetime → Action W SystemLog
  pub list_recent : ℕ → Action W (List SystemLog)

-- The provider methods that the services call; extraction from a page is the adapters' own.
pub record BaseRetailProvider (W : Type 0) : Type 0 where
  pub initialize : LocationContext → Action W (Unit {0})
  pub search_product : String → Action W (List ProviderProductResult)
  pub get_product : String → Action W ProviderProductResult
  pub check_availability : String → Action W Availability
  pub health_check : Action W Bool
  pub close : Action W (Unit {0})

pub record ProviderRegistry (W : Type 0) : Type 0 where
  pub get : String → Action W (BaseRetailProvider W)
  pub list_active_slugs : Action W (List String)

pub record EventPublisher (W : Type 0) : Type 0 where
  pub publish : ℕ → DetectionEvent → Action W (Unit {0})

pub record TaskDispatcher (W : Type 0) : Type 0 where
  pub dispatch_detection_event : ℕ → Action W (Unit {0})

pub record NotificationSender (W : Type 0) : Type 0 where
  pub send : NotificationChannel → DetectionEvent → NotificationContext → Action W Bool

pub record OtpProvider (W : Type 0) : Type 0 where
  pub send_otp : String → String → Action W (Unit {0})
