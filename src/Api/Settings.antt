-- ===== src/Api/Settings.antt =====
-- backend/app/api/routers/settings.py, for the user of the request.
use stock_monitoring.Common.{ℕ, String}
use stock_monitoring.Common.Json.{Dict, Json}
use stock_monitoring.Domain.Action.{Action, ◌>>◌}
use stock_monitoring.Domain.Ports.{SettingsRepository}

module _ {W : Type 0} (repo : SettingsRepository W) where
  unfoldable pub get_settings_for_user : ℕ → Action W (Dict Json)
  get_settings_for_user user_id = repo.get_for_user user_id

  unfoldable pub update_setting : String → Json → ℕ → Action W (Dict Json)
  update_setting key value user_id = do
    repo.set_for_user user_id key value
    repo.get_for_user user_id
