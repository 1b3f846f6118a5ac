-- ===== src/Api/Ownership/Channels.antt =====
-- Verifying and deleting a notification channel: whose it may be.
use stock_monitoring.Common.{
  any, ℕ, ◌==◌, ==_iff, Bool, true, false, not, Bool-cases, inl, inr, some, List, [], ◌∷◌, filter,
  filter-update_if, update_if-none, filter-not_none, filter-filter_none, filter-filter_comm,
  List-cases, Option-cases, update_if, if◌then◌else◌, filter-holds, All, ◌⊎◌, ◌≡◌, refl, subst,
}
use stock_monitoring.Api.Channels.{verify_channel, delete_channel, require_channel}
use stock_monitoring.Domain.Enums.{NotificationChannelType, parse_channel_type}
use stock_monitoring.Domain.Errors.{integrity_error, ok, err, http_exception}
use stock_monitoring.Storage.Channels
use stock_monitoring.Storage.Channels.{notification_channel_repository, to_notification_channel}
use stock_monitoring.Storage.Engine.{Engine}
use stock_monitoring.Storage.Private.{is_unreadable}
use stock_monitoring.Storage.Rows.{NotificationLogModel, NotificationChannelModel}
use stock_monitoring.Storage.World.{World}

abbrev pub has_id : ℕ → NotificationChannelModel → Bool
has_id id m = m.id == id

abbrev pub of_user : ℕ → NotificationChannelModel → Bool
of_user user m = m.user_id == user

abbrev pub verified : NotificationChannelModel → NotificationChannelModel
verified m = record m { is_verified = true }

-- The world with a channel marked as verified, and without it.
abbrev pub with_verified : ℕ → World → World
with_verified id w = record w {
  db = record w.db {
    notification_channels = update_if (has_id id) verified w.notification_channels;
  };
}

abbrev pub without : ℕ → World → World
without id w = record w {
  db = record w.db {
    notification_channels = filter (λ m. not (has_id id m)) w.notification_channels;
  };
}

-- A notification log refers to the channel.
abbrev is_logged : ℕ → World → Bool
is_logged id w = any (λ (m : NotificationLogModel). m.channel_id == id) w.notification_logs

id_of_found :
    (id : ℕ) (rows : List NotificationChannelModel) (m : NotificationChannelModel)
    → filter (has_id id) rows ≡ m ∷ []
    → m.id ≡ id
id_of_found id rows m found =
    (==_iff m.id id).0
      (subst (All (λ x. has_id id x ≡ true)) found (filter-holds (has_id id) rows)).0

-- Rows that the one of a key is not among: verifying that one and deleting it leave them.
module _ (id : ℕ) (p : NotificationChannelModel → Bool) (w : World) {m : NotificationChannelModel}
    (found : filter (has_id id) w.notification_channels ≡ m ∷ []) (apart : p m ≡ false) where
  pub others-verified :
      ((x : NotificationChannelModel) → p (verified x) ≡ p x)
      → filter p (with_verified id w).notification_channels ≡ filter p w.notification_channels
  others-verified blind =
      rw (filter-update_if p (has_id id) verified w.notification_channels blind) (
        update_if-none (has_id id) verified (filter p w.notification_channels)
          (filter-filter_none p (has_id id) w.notification_channels found apart))

  pub others-without :
      filter p (without id w).notification_channels ≡ filter p w.notification_channels
  others-without = rw (filter-filter_comm p (λ m. not (has_id id m))) (
      filter-not_none (has_id id) (filter p w.notification_channels)
        (filter-filter_none p (has_id id) w.notification_channels found apart))

module _ (E : Engine) (id user : ℕ) (w : World) where
  module _ (m : NotificationChannelModel)
      (found : filter (has_id id) w.notification_channels ≡ m ∷ []) where
    -- A stored channel of a known type is verified if it is the user's; otherwise the request is
    -- answered with 404 and changes nothing.
    pub verify_channel-found :
        {t : NotificationChannelType}
        → parse_channel_type m.type ≡ some t
        → verify_channel (notification_channel_repository E) id user w ≡ (
            if m.user_id == user
            then (ok tt, with_verified id w)
            else (err (http_exception 404), w))
    unfolding verify_channel require_channel Channels.get_by_id Channels.mark_verified
        to_notification_channel
    verify_channel-found known = elim (Bool-cases (m.user_id == user)) [
      | inl e ↦ rw (
        found,
        E.scalar_one_or_none-eq NotificationChannelModel,
        known,
        e,
        found,
        E.scalar_one-eq NotificationChannelModel,
        id_of_found id w.notification_channels m found,
      )
      | inr e ↦ rw (found, E.scalar_one_or_none-eq NotificationChannelModel, known, e)
    ]

    pub delete_channel-found :
        {t : NotificationChannelType}
        → parse_channel_type m.type ≡ some t
        → delete_channel (notification_channel_repository E) id user w ≡ (
            if m.user_id == user
            then (if is_logged id w then (err integrity_error, w) else (ok tt, without id w))
            else (err (http_exception 404), w))
    unfolding delete_channel require_channel Channels.get_by_id Channels.delete
        to_notification_channel
    delete_channel-found known = elim (Bool-cases (m.user_id == user)) [
      | inl e ↦ elim (Bool-cases (is_logged id w)) [
        | inl b ↦ rw (
          found,
          E.scalar_one_or_none-eq NotificationChannelModel,
          known,
          e,
          found,
          E.scalar_one_or_none-eq NotificationChannelModel,
          id_of_found id w.notification_channels m found,
          b,
        )
        | inr b ↦ rw (
          found,
          E.scalar_one_or_none-eq NotificationChannelModel,
          known,
          e,
          found,
          E.scalar_one_or_none-eq NotificationChannelModel,
          id_of_found id w.notification_channels m found,
          b,
        )
      ]
      | inr e ↦ rw (found, E.scalar_one_or_none-eq NotificationChannelModel, known, e)
    ]

  -- Either a request to verify a channel changes nothing, or it verifies one of the user's.
  pub verify_channel-outcome :
      ((verify_channel (notification_channel_repository E) id user w).1 ≡ w)
      ⊎ ((m : NotificationChannelModel) × (filter (has_id id) w.notification_channels ≡ m ∷ [])
          × ((m.user_id == user) ≡ true)
          × (is_unreadable m ≡ false)
          × ((verify_channel (notification_channel_repository E) id user w).1 ≡ with_verified id w))
  unfolding verify_channel require_channel Channels.get_by_id to_notification_channel
  verify_channel-outcome = elim (List-cases (filter (has_id id) w.notification_channels)) [
    | inl nobody ↦ inl (rw (nobody, E.scalar_one_or_none-eq NotificationChannelModel) refl)
    | inr (inl (m, found)) ↦ elim (Option-cases (parse_channel_type m.type)) [
      | inl unknown ↦
          inl (rw (found, E.scalar_one_or_none-eq NotificationChannelModel, unknown) refl)
      | inr (t, known) ↦ elim (Bool-cases (m.user_id == user)) [
        | inl e ↦ inr (m, found, e, rw known refl, rw (verify_channel-found m found known, e) refl)
        | inr e ↦ inl (rw (verify_channel-found m found known, e) refl)
      ]
    ]
    | inr (inr (m, m', ms, found)) ↦
        inl (rw (found, E.scalar_one_or_none-eq NotificationChannelModel) refl)
  ]

  -- Either a request to delete a channel changes nothing, or it deletes one of the user's.
  pub delete_channel-outcome :
      ((delete_channel (notification_channel_repository E) id user w).1 ≡ w)
      ⊎ ((m : NotificationChannelModel) × (filter (has_id id) w.notification_channels ≡ m ∷ [])
          × ((m.user_id == user) ≡ true)
          × (is_unreadable m ≡ false)
          × ((delete_channel (notification_channel_repository E) id user w).1 ≡ without id w))
  unfolding delete_channel require_channel Channels.get_by_id to_notification_channel
  delete_channel-outcome = elim (List-cases (filter (has_id id) w.notification_channels)) [
    | inl nobody ↦ inl (rw (nobody, E.scalar_one_or_none-eq NotificationChannelModel) refl)
    | inr (inl (m, found)) ↦ elim (Option-cases (parse_channel_type m.type)) [
      | inl unknown ↦
          inl (rw (found, E.scalar_one_or_none-eq NotificationChannelModel, unknown) refl)
      | inr (t, known) ↦ elim (Bool-cases (m.user_id == user)) [
        | inl e ↦ elim (Bool-cases (is_logged id w)) [
          | inl b ↦ inl (rw (delete_channel-found m found known, e, b) refl)
          | inr b ↦
              inr (m, found, e, rw known refl, rw (delete_channel-found m found known, e, b) refl)
        ]
        | inr e ↦ inl (rw (delete_channel-found m found known, e) refl)
      ]
    ]
    | inr (inr (m, m', ms, found)) ↦
        inl (rw (found, E.scalar_one_or_none-eq NotificationChannelModel) refl)
  ]
