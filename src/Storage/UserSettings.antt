-- ===== src/Storage/UserSettings.antt =====
-- `SqlAlchemySettingsRepository` of backend/app/infrastructure/db/repositories.py.
use stock_monitoring.Common.{
  ℕ, String, Bool, ◌&&◌, ◌==◌, str_eq, option_eq, none, some, List, [], ◌∷◌, ◌++◌, map, filter,
  update_if,
}
use stock_monitoring.Common.Json.{Dict, Json, insert}
use stock_monitoring.Domain.Action.{Action, gets, lift, modify, ◌>>=◌}
use stock_monitoring.Domain.Ports.{SettingsRepository}
use stock_monitoring.Storage.Rows.{SettingsModel}
use stock_monitoring.Storage.World.{World}
use stock_monitoring.Storage.Engine.{Engine}

-- The dict comprehension: a later row of a key replaces an earlier one's value.
abbrev pub collect : List SettingsModel → Dict Json → Dict Json
collect [] d = d
collect (m ∷ models) d = collect models (insert m.key m.value_json d)

abbrev pub is_of : ℕ → SettingsModel → Bool
is_of user_id m = option_eq ◌==◌ m.user_id (some user_id)

unfoldable pub get_for_user : ℕ → Action World (Dict Json)
get_for_user user_id = gets (λ w. collect (filter (is_of user_id) w.settings) [])

unfoldable pub set_for_user : Engine → ℕ → String → Json → Action World (Unit {0})
set_for_user E user_id key value = do
  rows ← gets (λ w. filter (λ (m : SettingsModel). is_of user_id m && str_eq m.key key) w.settings)
  existing ← lift (E.scalar_one_or_none SettingsModel rows)
  elim existing [
    | some found ↦ modify (λ w. record w {
      db = record w.db {
        settings =
            update_if (λ (m : SettingsModel). m.id == found.id)
              (λ m. record m { value_json = value }) w.settings;
      };
    })
    | none ↦ modify (λ w. record w {
      db = record w.db {
        settings =
            w.settings
            ++ record {
              id = E.fresh (map (λ (m : SettingsModel). m.id) w.settings);
              user_id = some user_id;
              key = key;
              value_json = value;
            }
              ∷ [];
      };
    })
  ]

abbrev pub settings_repository : Engine → SettingsRepository World
settings_repository E = record { get_for_user = get_for_user; set_for_user = set_for_user E }
