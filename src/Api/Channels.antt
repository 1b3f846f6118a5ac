-- ===== src/Api/Channels.antt =====
-- backend/app/api/routers/notifications.py, for the user of the request.
use stock_monitoring.Common.{ℕ, false, ◌==◌, Option, none, some, List, if◌then◌else◌}
use stock_monitoring.Api.Schemas.{
  ChannelCreateSchema, ChannelSchema, NotificationLogEntrySchema, channel_schema, log_entry_schema,
}
use stock_monitoring.Domain.Action.{Action, pure, raise, lift, require, ◌>>=◌, ◌>>◌}
use stock_monitoring.Domain.Entities.{NotificationChannel}
use stock_monitoring.Domain.Enums.{parse_channel_type}
use stock_monitoring.Domain.Errors.{traverse, http_exception, value_error}
use stock_monitoring.Domain.Ports.{NotificationChannelRepository, NotificationLogRepository}

-- `channel is None or channel.user_id != user_id`
unfoldable pub require_channel :
    {W : Type 0} → ℕ → Option NotificationChannel → Action W NotificationChannel
require_channel user_id none = raise (http_exception 404)
require_channel user_id (some channel) =
    if channel.user_id == user_id then pure channel else raise (http_exception 404)

module _ {W : Type 0} (repo : NotificationChannelRepository W) where
  -- The port's default leaves a new channel unverified.
  unfoldable pub create_channel : ChannelCreateSchema → ℕ → Action W ChannelSchema
  create_channel body user_id = do
    type ← require value_error (parse_channel_type body.type)
    channel ← repo.create user_id type body.config false
    lift (channel_schema channel)

  unfoldable pub list_channels : ℕ → Action W (List ChannelSchema)
  list_channels user_id = do
    channels ← repo.list_for_user user_id
    lift (traverse channel_schema channels)

  -- The answer is always "verified".
  unfoldable pub verify_channel : ℕ → ℕ → Action W (Unit {0})
  verify_channel channel_id user_id = do
    found ← repo.get_by_id channel_id
    require_channel user_id found
    repo.mark_verified channel_id

  unfoldable pub delete_channel : ℕ → ℕ → Action W (Unit {0})
  delete_channel channel_id user_id = do
    found ← repo.get_by_id channel_id
    require_channel user_id found
    repo.delete channel_id

-- The port's default limit is 50 entries.
unfoldable pub list_notification_log :
    {W : Type 0} → NotificationLogRepository W → ℕ → Action W (List NotificationLogEntrySchema)
list_notification_log repo user_id = do
  entries ← repo.list_for_user user_id 50
  lift (traverse log_entry_schema entries)
