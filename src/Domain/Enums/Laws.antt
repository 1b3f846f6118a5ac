-- ===== src/Domain/Enums/Laws.antt =====
-- The stored text of an enum member stands for that member and no other.
use stock_monitoring.Common.{String, some, ◌≡◌, refl, arith, str_eq_iff}
use stock_monitoring.Domain.Enums.{
  Availability, availability_value, parse_availability, EventType, event_type_value,
  parse_event_type, NotificationChannelType, channel_type_value, parse_channel_type,
}

pub parse_availability-value :
    (a : Availability) → parse_availability (availability_value a) ≡ some a
unfolding parse_availability availability_value
parse_availability-value Availability.available = refl
parse_availability-value _ = refl

pub parse_event_type-value : (e : EventType) → parse_event_type (event_type_value e) ≡ some e
unfolding parse_event_type event_type_value
parse_event_type-value EventType.stock_available = refl
parse_event_type-value _ = refl

pub parse_channel_type-value :
    (c : NotificationChannelType) → parse_channel_type (channel_type_value c) ≡ some c
unfolding parse_channel_type channel_type_value
parse_channel_type-value NotificationChannelType.telegram = refl
parse_channel_type-value _ = refl

-- A text that is read as a member is that member's value.
value-parse_event_type :
    (s : String) (e : EventType) → parse_event_type s ≡ some e → s ≡ event_type_value e
unfolding parse_event_type event_type_value
value-parse_event_type s e h = ground (
  arith,
  str_eq_iff s "stock_available",
  str_eq_iff s "out_of_stock",
  str_eq_iff s "low_stock",
  str_eq_iff s "price_changed",
  str_eq_iff s "new_variant",
  str_eq_iff s "eta_changed",
  str_eq_iff s "store_changed",
)
