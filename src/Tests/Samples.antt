-- ===== src/Tests/Samples.antt =====
-- Concrete rows, worlds and external parts.
use stock_monitoring.Common.{if◌then◌else◌, str_eq, ℕ, true, false, none, some, List, [], ◌∷◌}
use Prim.Native.String.{◌++◌ as str_append}
use stock_monitoring.Common.Int.{ℤ}
use stock_monitoring.Domain.Action.{pure, raise}
use stock_monitoring.Domain.Entities.{
  ProviderProductResult, Snapshot, WatchTarget, DetectionEvent, NotificationChannel,
}
use stock_monitoring.Domain.Enums.{Availability, EventType, NotificationChannelType}
use stock_monitoring.Domain.Errors.{not_implemented}
use stock_monitoring.Domain.Ports.{ProviderRegistry, BaseRetailProvider, NotificationSender}
use stock_monitoring.Auth.Service.{Jwt, Hash}
use stock_monitoring.Notification.Wiring.{Senders}
use stock_monitoring.Storage.Rows.{WatchTargetModel, OtpChallengeModel, NotificationChannelModel}
use stock_monitoring.Storage.World.{Db, World}

abbrev pub empty_db : Db
empty_db = record {
  users = [];
  otp_challenges = [];
  retailers = [];
  products = [];
  watch_targets = [];
  watches = [];
  snapshots = [];
  detection_events = [];
  notification_channels = [];
  notification_logs = [];
  settings = [];
  system_logs = [];
}

abbrev pub target_row : WatchTargetModel
target_row = record {
  id = 1;
  retailer_slug = "blinkit";
  city = "Pune";
  pincode = "411001";
  keyword = "milk";
  interval_seconds = ℤ.pos 60;
  last_checked_at = none;
}

abbrev pub target : WatchTarget
target = record {
  id = some 1;
  retailer_slug = "blinkit";
  city = "Pune";
  pincode = "411001";
  keyword = "milk";
  interval_seconds = ℤ.pos 60;
}

abbrev pub challenge_row : OtpChallengeModel
challenge_row = record {
  id = 4;
  phone_number = "+911";
  code_hash = "#123456";
  expires_at = 300_000_000;
  created_at = 0;
  consumed = false;
  attempt_count = 0;
}

abbrev pub older_challenge_row : OtpChallengeModel
older_challenge_row = record challenge_row { id = 3; code_hash = "#000000" }

abbrev pub telegram_row : NotificationChannelModel
telegram_row = record {
  id = 1;
  user_id = 7;
  type = "telegram";
  config_json = [];
  is_verified = true;
}

abbrev pub discord_row : NotificationChannelModel
discord_row = record {
  id = 2;
  user_id = 7;
  type = "discord";
  config_json = [];
  is_verified = false;
}

abbrev pub telegram : NotificationChannel
telegram = record {
  id = some 1;
  user_id = 7;
  type = NotificationChannelType.telegram;
  config = [];
  is_verified = true;
}

abbrev pub discord : NotificationChannel
discord = record {
  id = some 2;
  user_id = 7;
  type = NotificationChannelType.discord;
  config = [];
  is_verified = false;
}

abbrev pub world : World
world = record {
  db = record empty_db {
    watch_targets = target_row ∷ [];
    otp_challenges = challenge_row ∷ [];
    notification_channels = telegram_row ∷ discord_row ∷ [];
  };
  now = 1_000_000;
  published = [];
  dispatched = [];
  texts = [];
}

abbrev pub milk : Availability → ℕ → ProviderProductResult
milk availability scraped_at = record {
  retailer_slug = "blinkit";
  keyword = "milk";
  product_name = "Milk 500 ml";
  availability = availability;
  price = none;
  mrp = none;
  discount_pct = none;
  eta_minutes = some 8;
  store_name = none;
  image_url = none;
  quantity_label = none;
  variants = "500 ml" ∷ [];
  product_url = none;
  scraped_at = scraped_at;
}

abbrev pub low_milk : Snapshot
low_milk = record {
  id = some 1;
  watch_target_id = 1;
  timestamp = 0;
  availability = Availability.low_stock;
  price = none;
  mrp = none;
  discount_pct = none;
  eta_minutes = some 8;
  store_name = none;
  image_url = none;
  quantity_label = none;
  variants = "500 ml" ∷ [];
  product_url = none;
}

-- A provider that finds these products.
abbrev pub finds : List ProviderProductResult → BaseRetailProvider World
finds results = record {
  initialize = λ context. pure tt;
  search_product = λ keyword. pure results;
  get_product = λ keyword. raise not_implemented;
  check_availability = λ keyword. pure Availability.available;
  health_check = pure true;
  close = pure tt;
}

-- A provider whose search fails.
abbrev pub broken : BaseRetailProvider World
broken = record (finds []) { search_product = λ keyword. raise not_implemented }

abbrev pub only : BaseRetailProvider World → ProviderRegistry World
only provider = record { get = λ slug. pure provider; list_active_slugs = pure ("blinkit" ∷ []) }

-- A hash that marks its text, and tokens that are their subject; the only one that is decoded is
-- the refresh token of user 7.
abbrev pub hash : Hash
hash = record { hexdigest = λ code. str_append "#" code }

abbrev pub jwt : Jwt
jwt = record {
  encode = λ p. str_append p.type p.sub;
  decode = λ now token.
      if str_eq token "refresh7"
      then some (record { sub = some "7"; type = some "refresh" })
      else none;
}

-- One token of user 7.
abbrev pub token_jwt : Jwt
token_jwt = record jwt {
  decode = λ now token.
      if str_eq token "access7"
      then some (record { sub = some "7"; type = some "access" })
      else none;
}

abbrev pub event : DetectionEvent
event = record {
  id = some 9;
  watch_target_id = 1;
  snapshot_id = 1;
  previous_snapshot_id = none;
  event_type = EventType.stock_available;
  created_at = 0;
}

-- Telegram and Discord answer; the others have no sender.
abbrev pub answers : NotificationSender World
answers = record { send = λ channel event context. pure channel.is_verified }

abbrev pub senders : Senders
senders NotificationChannelType.telegram = some answers
senders NotificationChannelType.discord = some answers
senders NotificationChannelType.email = none
senders NotificationChannelType.push = none
