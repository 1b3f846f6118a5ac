-- ===== src/Notification/Everyone.antt =====
-- What a whole event leads to: everyone who watches the product is alerted on every channel.
use stock_monitoring.Common.{
  ℕ, Bool, true, false, ◌==◌, ==_refl, ◌&&◌, any, any-append, Bool-cases, some, Option-cases, inl,
  inr, List, [], ◌∷◌, ◌++◌, map, filter, filter-append, All, append-nil, append_assoc, ◌≡◌, refl,
  sym, ap, ◌∙◌, subst, arith,
}
use stock_monitoring.Domain.Entities.{DetectionEvent, NotificationChannel, NotificationContext}
use stock_monitoring.Domain.Errors.{ok}
use stock_monitoring.Notification.Cooldown.{AllStale, has_sender, notify_user-fresh}
use stock_monitoring.Notification.Delivery.{
  AreQuiet, IsStored, with_logs, new_logs, new_log, log_ids,
}
use stock_monitoring.Notification.Keys.{dedup_key-other}
use stock_monitoring.Notification.Service.{dedup_key}
use stock_monitoring.Notification.Watchers.{is_in, HasNoRepeats, notify_each}
use stock_monitoring.Notification.Wiring.{Senders, notification_service}
use stock_monitoring.Storage.Channels
use stock_monitoring.Storage.Engine.{Engine}
use stock_monitoring.Storage.NotificationLogs.{is_recent}
use stock_monitoring.Storage.Rows.{NotificationLogModel}
use stock_monitoring.Storage.World.{World}

is_in-differ : (us : List ℕ) (u v : ℕ) → is_in us u ≡ false → is_in us v ≡ true → (u == v) ≡ false
is_in-differ us u v h i = elim (Bool-cases (u == v)) [
  | inl e ↦ absurd (ground (arith, sym h ∙ (ap (is_in us) {x = u} {y = v} (ground (arith, e)) ∙ i)))
  | inr e ↦ e
]

-- A row of the log for a user, an event and a channel.
abbrev pub is_alert : ℕ → ℕ → ℕ → NotificationLogModel → Bool
is_alert user_id event_id channel_id m =
    m.user_id == user_id && m.detection_event_id == event_id && m.channel_id == channel_id

-- There is a row for each of a user's channels that has a sender.
abbrev pub AllAlerted :
    Senders → ℕ → ℕ → List (NotificationChannel × ℕ) → List NotificationLogModel → Type 0
AllAlerted senders event_id user_id cs rows =
    All
      (λ (c : NotificationChannel × ℕ).
        has_sender (senders c.0.type) ≡ true → any (is_alert user_id event_id c.1) rows ≡ true)
      cs

AllAlerted-append :
    (senders : Senders) (event_id u : ℕ) (cs : List (NotificationChannel × ℕ))
    (xs ys : List NotificationLogModel)
    → AllAlerted senders event_id u cs ys
    → AllAlerted senders event_id u cs (xs ++ ys)
AllAlerted-append senders event_id u [] xs ys h = tt
AllAlerted-append senders event_id u (c ∷ cs) xs ys h = (
  λ s. rw (any-append (is_alert u event_id c.1) xs ys, h.0 s) (ground arith),
  AllAlerted-append senders event_id u cs xs ys h.1,
)

AllAlerted-before :
    (senders : Senders) (event_id u : ℕ) (cs : List (NotificationChannel × ℕ))
    (xs ys : List NotificationLogModel)
    → AllAlerted senders event_id u cs xs
    → AllAlerted senders event_id u cs (xs ++ ys)
AllAlerted-before senders event_id u [] xs ys h = tt
AllAlerted-before senders event_id u (c ∷ cs) xs ys h = (
  λ s. rw (any-append (is_alert u event_id c.1) xs ys, h.0 s) refl,
  AllAlerted-before senders event_id u cs xs ys h.1,
)

module _ (E : Engine) (senders : Senders) (accepts : NotificationChannel → Bool)
    (event : DetectionEvent) (event_id : ℕ) where
  abbrev logs_for : World → ℕ → List ℕ → List (NotificationChannel × ℕ) → List NotificationLogModel
  logs_for w u ids cs = new_logs E senders accepts event u event_id w ids cs

  -- The rows of a user's alert name each of the user's channels that has a sender.
  new_logs-AllAlerted :
      (w : World) (u : ℕ) (ids : List ℕ) (cs : List (NotificationChannel × ℕ))
      → AllAlerted senders event_id u cs (new_logs E senders accepts event u event_id w ids cs)
  new_logs-AllAlerted w u ids [] = tt
  new_logs-AllAlerted w u ids (c ∷ cs) = elim (Option-cases (senders c.0.type)) [
    | inl e ↦
        subst (AllAlerted senders event_id u (c ∷ cs)) {x = logs_for w u ids cs}
          {y = logs_for w u ids (c ∷ cs)} (rw e refl)
          (λ s. absurd (ground (arith, sym s ∙ ap has_sender e)), new_logs-AllAlerted w u ids cs)
    | inr (_, e) ↦
        subst (AllAlerted senders event_id u (c ∷ cs))
          {x = new_log E senders accepts event u event_id w (E.fresh ids) c
            ∷ logs_for w u (ids ++ E.fresh ids ∷ []) cs}
          {y = logs_for w u ids (c ∷ cs)} (rw e refl)
          (
            λ s. rw (==_refl u, ==_refl event_id, ==_refl c.1) refl,
            AllAlerted-append senders event_id u cs
                (new_log E senders accepts event u event_id w (E.fresh ids) c ∷ []) _
                (new_logs-AllAlerted w u (ids ++ E.fresh ids ∷ []) cs),
          )
  ]

  -- The rows of one user's alert are not recent ones of another user.
  new_logs-other :
      (u v : ℕ) (w : World) (now : ℕ) (ids : List ℕ) (cs : List (NotificationChannel × ℕ))
      → (u == v) ≡ false
      → filter
          (is_recent (dedup_key v event) 900 now)
          (new_logs E senders accepts event u event_id w ids cs)
        ≡ []
  new_logs-other u v w now ids [] h = refl
  new_logs-other u v w now ids (c ∷ cs) h = elim (Option-cases (senders c.0.type)) [
    | inl e ↦ rw e (new_logs-other u v w now ids cs h)
    | inr (_, e) ↦
        rw (e, dedup_key-other u v event h)
          (new_logs-other u v w now (ids ++ E.fresh ids ∷ []) cs h)
  ]

  module _ (context : NotificationContext) (channels : ℕ → List (NotificationChannel × ℕ)) where
    -- A user's channels are the ones that are stored.
    abbrev pub IsListed : World → ℕ → Type 0
    IsListed w u =
        (Channels.list_for_user u w
          ≡ (ok (map (λ (c : NotificationChannel × ℕ). c.0) (channels u)), w))
        × All IsStored (channels u)

    -- The rows for a list of users, in order.
    abbrev pub all_logs : World → List ℕ → List NotificationLogModel
    all_logs w [] = []
    all_logs w (u ∷ us) =
        let rows = new_logs E senders accepts event u event_id w (log_ids w) (channels u) in
        rows ++ all_logs (with_logs rows w) us

    pub all_logs-AllAlerted :
        (us : List ℕ) (w : World) (u : ℕ)
        → is_in us u ≡ true
        → AllAlerted senders event_id u (channels u) (all_logs w us)
    all_logs-AllAlerted [] w u h = absurd (ground (arith, h))
    all_logs-AllAlerted (v ∷ us) w u h = elim (Bool-cases (v == u)) [
      | inl e ↦
          subst (λ x. AllAlerted senders event_id x (channels x) (all_logs w (v ∷ us)))
            (ground (arith, e))
            (AllAlerted-before senders event_id v (channels v) _ _
              (new_logs-AllAlerted w v (log_ids w) (channels v)))
      | inr e ↦
          AllAlerted-append senders event_id u (channels u) _ _
            (all_logs-AllAlerted us _ u (ground (arith, h, e)))
    ]

    -- An alert of one user leaves the next ones as they were.
    later :
        (u v : ℕ) (w : World)
        → (u == v) ≡ false
        → IsListed w v × AllStale (dedup_key v event) w
        → let w' =
            with_logs (new_logs E senders accepts event u event_id w (log_ids w) (channels u)) w in
          IsListed w' v × AllStale (dedup_key v event) w'
    unfolding Channels.list_for_user
    later u v w h (listed, stale) =
        let w' =
          with_logs (new_logs E senders accepts event u event_id w (log_ids w) (channels u)) w in
        (
          (ap (λ r. (r.0, w')) listed.0, listed.1),
          rw (filter-append, stale) (new_logs-other u v w w.now (log_ids w) (channels u) h),
        )

    pub notify_each-eq :
        (us : List ℕ) (w : World)
        → AreQuiet senders accepts
        → event.id ≡ some event_id
        → HasNoRepeats us
        → ((u : ℕ) → is_in us u ≡ true → IsListed w u × AllStale (dedup_key u event) w)
        → notify_each (notification_service E senders) event context us w
          ≡ (ok tt, with_logs (all_logs w us) w)
    unfolding notify_each
    notify_each-eq [] w quiet has_event distinct h = rw append-nil refl
    notify_each-eq (u ∷ us) w quiet has_event distinct h =
        let (listed, stale) = h u (rw (==_refl u) refl) in
        rw
          (
            notify_user-fresh E senders accepts event u event_id context (channels u) w quiet
                has_event listed.1 listed.0 stale,
            notify_each-eq us _ quiet has_event distinct.1
                (λ v i. later u v w (is_in-differ us u v distinct.0 i) (h v (rw i (ground arith)))),
          )
          (rw append_assoc refl)
