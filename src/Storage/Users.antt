-- ===== src/Storage/Users.antt =====
-- `SqlAlchemyUserRepository` of backend/app/infrastructure/db/repositories.py.
use stock_monitoring.Common.{
  ℕ, String, ◌==◌, str_eq, Option, none, some, [], ◌∷◌, ◌++◌, map, filter,
}
use stock_monitoring.Domain.Action.{Action, pure, gets, lift, ◌>>=◌}
use stock_monitoring.Domain.Errors.{ok}
use stock_monitoring.Domain.Entities.{Datetime, User}
use stock_monitoring.Domain.Ports.{UserRepository}
use stock_monitoring.Storage.Rows.{UserModel}
use stock_monitoring.Storage.World.{World, utcnow}
use stock_monitoring.Storage.Engine.{Engine}

abbrev pub to_user : UserModel → User
to_user model = record {
  id = some model.id;
  phone_number = model.phone_number;
  email = model.email;
  created_at = model.created_at;
}

-- `session.add` and `flush`
add_user : Engine → String → Datetime → Action World User
add_user E phone_number now w =
    let model : UserModel = record {
      id = E.fresh (map (λ (m : UserModel). m.id) w.users);
      phone_number = phone_number;
      email = none;
      created_at = now;
    } in
    (ok (to_user model), record w { db = record w.db { users = w.users ++ model ∷ [] } })

unfoldable pub get_or_create_by_phone : Engine → String → Action World User
unfolding add_user
get_or_create_by_phone E phone_number = do
  rows ← gets (λ w. filter (λ (m : UserModel). str_eq m.phone_number phone_number) w.users)
  existing ← lift (E.scalar_one_or_none UserModel rows)
  elim existing [
    | some model ↦ pure (to_user model)
    | none ↦ do now ← utcnow; add_user E phone_number now
  ]

unfoldable pub get_by_id : Engine → ℕ → Action World (Option User)
get_by_id E user_id = do
  rows ← gets (λ w. filter (λ (m : UserModel). m.id == user_id) w.users)
  model ← lift (E.scalar_one_or_none UserModel rows)
  elim model [ some m ↦ pure (some (to_user m)) | none ↦ pure none ]

abbrev pub user_repository : Engine → UserRepository World
user_repository E = record {
  get_or_create_by_phone = get_or_create_by_phone E;
  get_by_id = get_by_id E;
}
