-- ===== src/Storage/OtpChallenges.antt =====
-- `SqlAlchemyOtpChallengeRepository` of backend/app/infrastructure/db/repositories.py.
pub mod Latest
use stock_monitoring.Common.{
  ℕ, ◌+◌, ◌-◌, ◌*◌, String, true, false, ◌&&◌, ◌==◌, leb, str_eq, Option, none, some, [], ◌∷◌, ◌++◌,
  map, filter, take, length, update_if,
}
use stock_monitoring.Domain.Action.{Action, pure, gets, lift, modify, ◌>>=◌}
use stock_monitoring.Domain.Errors.{ok}
use stock_monitoring.Domain.Entities.{Datetime, OtpChallenge}
use stock_monitoring.Domain.Ports.{OtpChallengeRepository}
use stock_monitoring.Storage.Rows.{OtpChallengeModel}
use stock_monitoring.Storage.World.{World, utcnow}
use stock_monitoring.Storage.Engine.{Engine}

abbrev pub to_otp_challenge : OtpChallengeModel → OtpChallenge
to_otp_challenge model = record {
  id = some model.id;
  phone_number = model.phone_number;
  code_hash = model.code_hash;
  expires_at = model.expires_at;
  created_at = model.created_at;
  consumed = model.consumed;
  attempt_count = model.attempt_count;
}

abbrev pub microseconds : ℕ → ℕ
microseconds seconds = seconds * 1_000_000

unfoldable pub create : Engine → String → String → Datetime → Datetime → Action World OtpChallenge
create E phone_number code_hash expires_at created_at w =
    let model : OtpChallengeModel = record {
      id = E.fresh (map (λ (m : OtpChallengeModel). m.id) w.otp_challenges);
      phone_number = phone_number;
      code_hash = code_hash;
      expires_at = expires_at;
      created_at = created_at;
      consumed = false;
      attempt_count = 0;
    } in
    (
      ok (to_otp_challenge model),
      record w { db = record w.db { otp_challenges = w.otp_challenges ++ model ∷ [] } },
    )

unfoldable pub get_latest : Engine → String → Action World (Option OtpChallenge)
get_latest E phone_number = do
  rows ←
      gets (λ w.
        filter (λ (m : OtpChallengeModel). str_eq m.phone_number phone_number) w.otp_challenges)
  model ← lift (
      E.scalar_one_or_none OtpChallengeModel
        (take 1 (E.order_by_desc OtpChallengeModel (λ m. m.created_at) rows)))
  elim model [ some m ↦ pure (some (to_otp_challenge m)) | none ↦ pure none ]

-- Times are counted from `datetime.min`, so a cutoff before it is that time.
unfoldable pub count_recent : Engine → String → ℕ → Action World ℕ
count_recent E phone_number window_seconds = do
  now ← utcnow
  let cutoff = now - microseconds window_seconds
  gets (λ w. length (
      filter
        (λ (m : OtpChallengeModel). str_eq m.phone_number phone_number && leb cutoff m.created_at)
        w.otp_challenges))

-- The row that `scalar_one` returns is changed in place.
unfoldable pub change :
    Engine → (OtpChallengeModel → OtpChallengeModel) → ℕ → Action World (Unit {0})
change E f challenge_id = do
  rows ← gets (λ w. filter (λ (m : OtpChallengeModel). m.id == challenge_id) w.otp_challenges)
  model ← lift (E.scalar_one OtpChallengeModel rows)
  modify (λ w. record w {
    db = record w.db {
      otp_challenges = update_if (λ (m : OtpChallengeModel). m.id == model.id) f w.otp_challenges;
    };
  })

unfoldable pub mark_consumed : Engine → ℕ → Action World (Unit {0})
unfolding change
mark_consumed E = change E (λ m. record m { consumed = true })

unfoldable pub increment_attempt : Engine → ℕ → Action World (Unit {0})
unfolding change
increment_attempt E = change E (λ m. record m { attempt_count = m.attempt_count + 1 })

abbrev pub otp_challenge_repository : Engine → OtpChallengeRepository World
otp_challenge_repository E = record {
  create = create E;
  get_latest = get_latest E;
  count_recent = count_recent E;
  mark_consumed = mark_consumed E;
  increment_attempt = increment_attempt E;
}
