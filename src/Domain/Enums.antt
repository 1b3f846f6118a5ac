-- ===== src/Domain/Enums.antt =====
-- backend/app/domain/enums.py. An enum member is a constructor; `.value` and the call of the class
-- on a text are functions.
pub mod Laws
use stock_monitoring.Common.{ℕ, String, Bool, str_eq, ◌==◌, Option, none, some, if◌then◌else◌}

pub data Availability : Type 0 where
  available out_of_stock low_stock : Availability

pub data EventType : Type 0 where
  stock_available out_of_stock low_stock price_changed new_variant eta_changed store_changed :
      EventType

pub data NotificationChannelType : Type 0 where
  telegram discord email push : NotificationChannelType

-- `a.value`
unfoldable pub availability_value : Availability → String
availability_value Availability.available = "available"
availability_value Availability.out_of_stock = "out_of_stock"
availability_value Availability.low_stock = "low_stock"

unfoldable pub event_type_value : EventType → String
event_type_value EventType.stock_available = "stock_available"
event_type_value EventType.out_of_stock = "out_of_stock"
event_type_value EventType.low_stock = "low_stock"
event_type_value EventType.price_changed = "price_changed"
event_type_value EventType.new_variant = "new_variant"
event_type_value EventType.eta_changed = "eta_changed"
event_type_value EventType.store_changed = "store_changed"

unfoldable pub channel_type_value : NotificationChannelType → String
channel_type_value NotificationChannelType.telegram = "telegram"
channel_type_value NotificationChannelType.discord = "discord"
channel_type_value NotificationChannelType.email = "email"
channel_type_value NotificationChannelType.push = "push"

-- `Availability(text)`; `none` where the call raises `ValueError`.
unfoldable pub parse_availability : String → Option Availability
parse_availability s =
    if str_eq s "available"
    then some Availability.available
    else if str_eq s "out_of_stock"
    then some Availability.out_of_stock
    else if str_eq s "low_stock"
    then some Availability.low_stock
    else none

unfoldable pub parse_event_type : String → Option EventType
parse_event_type s =
    if str_eq s "stock_available"
    then some EventType.stock_available
    else if str_eq s "out_of_stock"
    then some EventType.out_of_stock
    else if str_eq s "low_stock"
    then some EventType.low_stock
    else if str_eq s "price_changed"
    then some EventType.price_changed
    else if str_eq s "new_variant"
    then some EventType.new_variant
    else if str_eq s "eta_changed"
    then some EventType.eta_changed
    else if str_eq s "store_changed"
    then some EventType.store_changed
    else none

unfoldable pub parse_channel_type : String → Option NotificationChannelType
parse_channel_type s =
    if str_eq s "telegram"
    then some NotificationChannelType.telegram
    else if str_eq s "discord"
    then some NotificationChannelType.discord
    else if str_eq s "email"
    then some NotificationChannelType.email
    else if str_eq s "push"
    then some NotificationChannelType.push
    else none

-- Members are compared by the place at which they are declared.
abbrev availability_index : Availability → ℕ
availability_index Availability.available = 0
availability_index Availability.out_of_stock = 1
availability_index Availability.low_stock = 2

abbrev pub availability_eq : Availability → Availability → Bool
availability_eq a b = availability_index a == availability_index b

abbrev event_index : EventType → ℕ
event_index EventType.stock_available = 0
event_index EventType.out_of_stock = 1
event_index EventType.low_stock = 2
event_index EventType.price_changed = 3
event_index EventType.new_variant = 4
event_index EventType.eta_changed = 5
event_index EventType.store_changed = 6

abbrev pub event_type_eq : EventType → EventType → Bool
event_type_eq a b = event_index a == event_index b

abbrev channel_index : NotificationChannelType → ℕ
channel_index NotificationChannelType.telegram = 0
channel_index NotificationChannelType.discord = 1
channel_index NotificationChannelType.email = 2
channel_index NotificationChannelType.push = 3

abbrev pub channel_type_eq : NotificationChannelType → NotificationChannelType → Bool
channel_type_eq a b = channel_index a == channel_index b
