-- ===== src/Storage/OtpChallenges/Latest.antt =====
-- The newest challenge of a phone number, and what the updates do to it.
use stock_monitoring.Common.{
  sym, ℕ, ◌<◌, ◌==◌, ==_refl, String, str_eq, Bool, some, List, [], ◌∷◌, ◌++◌, filter,
  filter-update_if, update_if-append, All-update_if, update_if, All, ◌≡◌, subst,
}
use stock_monitoring.Domain.Errors.{ok}
use stock_monitoring.Storage.Engine.{Engine}
use stock_monitoring.Storage.Engine.Orders.{take-order_by_desc_newest}
use stock_monitoring.Storage.OtpChallenges.{get_latest, change, to_otp_challenge}
use stock_monitoring.Storage.Rows.{OtpChallengeModel}
use stock_monitoring.Storage.World.{World}

abbrev pub of_phone : String → OtpChallengeModel → Bool
of_phone phone m = str_eq m.phone_number phone

abbrev pub has_id : ℕ → OtpChallengeModel → Bool
has_id id m = m.id == id

-- A row is the newest challenge of its phone number and the only one with its key.
pub record IsLatest (phone : String) (c : OtpChallengeModel) (rows : List OtpChallengeModel)
    : Type 0 where
  pub before : List OtpChallengeModel
  pub after : List OtpChallengeModel
  pub placed : filter (of_phone phone) rows ≡ before ++ c ∷ after
  pub before_older : All (λ (m : OtpChallengeModel). m.created_at < c.created_at) before
  pub after_older : All (λ (m : OtpChallengeModel). m.created_at < c.created_at) after
  pub only : filter (has_id c.id) rows ≡ c ∷ []

pub get_latest-eq :
    (E : Engine) {phone : String} {c : OtpChallengeModel} (w : World)
    → IsLatest phone c w.otp_challenges
    → get_latest E phone w ≡ (ok (some (to_otp_challenge c)), w)
unfolding get_latest
get_latest-eq E {c} w latest = rw (
  latest.placed,
  take-order_by_desc_newest E OtpChallengeModel (λ m. m.created_at) c latest.before latest.after
      latest.before_older latest.after_older,
  E.scalar_one_or_none-eq OtpChallengeModel,
)

abbrev pub with_challenges : List OtpChallengeModel → World → World
with_challenges rows w = record w { db = record w.db { otp_challenges = rows } }

module _ (f : OtpChallengeModel → OtpChallengeModel) (c : OtpChallengeModel) where
  abbrev pub changed : List OtpChallengeModel → List OtpChallengeModel
  changed rows = update_if (has_id c.id) f rows

  pub change-eq :
      (E : Engine) {phone : String} (w : World)
      → IsLatest phone c w.otp_challenges
      → change E f c.id w ≡ (ok tt, with_challenges (changed w.otp_challenges) w)
  unfolding change
  change-eq E w latest = rw (latest.only, E.scalar_one-eq OtpChallengeModel)

  -- An update of the newest challenge that leaves its key, phone number and time alone leaves it
  -- the newest.
  pub changed-IsLatest :
      {phone : String} {rows : List OtpChallengeModel}
      → ((m : OtpChallengeModel) → (f m).id ≡ m.id)
      → ((m : OtpChallengeModel) → (f m).phone_number ≡ m.phone_number)
      → ((m : OtpChallengeModel) → (f m).created_at ≡ m.created_at)
      → IsLatest phone c rows
      → IsLatest phone (f c) (changed rows)
  changed-IsLatest {phone} {rows} same_id same_phone same_time latest = record {
    before = changed latest.before;
    after = changed latest.after;
    placed = rw (
      filter-update_if (of_phone phone) (has_id c.id) f rows (λ m. rw same_phone),
      latest.placed,
      update_if-append (has_id c.id) f latest.before,
      ==_refl c.id,
    );
    before_older = older latest.before latest.before_older;
    after_older = older latest.after latest.after_older;
    only =
        subst (λ i. filter (has_id i) (changed rows) ≡ f c ∷ []) (sym (same_id c))
          (rw (
            filter-update_if (has_id c.id) (has_id c.id) f rows (λ m. rw same_id),
            latest.only,
            ==_refl c.id,
          ));
  }
    where
      older :
          (xs : List OtpChallengeModel)
          → All (λ (m : OtpChallengeModel). m.created_at < c.created_at) xs
          → All (λ (m : OtpChallengeModel). m.created_at < (f c).created_at) (changed xs)
      older xs h = rw (same_time c) (
          All-update_if (λ (m : OtpChallengeModel). m.created_at < c.created_at) (has_id c.id) f xs
            (λ m k. rw (same_time m) k) h)
