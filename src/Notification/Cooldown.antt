-- ===== src/Notification/Cooldown.antt =====
-- The deduplication of alerts: what a second event of the same kind does within the cooldown.
use stock_monitoring.Common.{
  zero, ◌-◌, suc, inr, inl, Option-cases, ℕ, ◌+◌, ◌≤◌, String, Bool, true, false, le→leb, Option,
  none, some, List, [], ◌∷◌, ◌++◌, map, filter, filter-append, length, All, append-nil, str_eq_refl,
  ◌≡◌, refl, ap, sym, ◌∙◌, arith,
}
use stock_monitoring.Domain.Entities.{
  DetectionEvent, NotificationChannel, NotificationContext, Datetime,
}
use stock_monitoring.Domain.Errors.{Result, ok, err, multiple_results_found}
use stock_monitoring.Domain.Ports.{NotificationSender}
use stock_monitoring.Notification.Delivery.{
  AreQuiet, IsStored, with_logs, new_logs, log_ids, send_all-eq,
}
use stock_monitoring.Notification.Service.{notify_user, dedup_key}
use stock_monitoring.Notification.Wiring.{Senders, notification_service}
use stock_monitoring.Storage.Channels
use stock_monitoring.Storage.Engine.{Engine}
use stock_monitoring.Storage.NotificationLogs.{is_recent, exists_recent}
use stock_monitoring.Storage.Rows.{NotificationLogModel}
use stock_monitoring.Storage.World.{World}

abbrev pub has_sender : Option (NotificationSender World) → Bool
has_sender none = false
has_sender (some _) = true

-- How many of the channels have a sender.
abbrev pub reachable : Senders → List (NotificationChannel × ℕ) → ℕ
reachable senders cs =
    length (filter (λ (c : NotificationChannel × ℕ). has_sender (senders c.0.type)) cs)

-- The world at another time.
abbrev pub at : Datetime → World → World
at t w = record w { now = t }

-- No row of the key is within the cooldown.
abbrev pub AllStale : String → World → Type 0
AllStale key w = filter (is_recent key 900 w.now) w.notification_logs ≡ []

-- A repeated alert is dropped if the log holds one row of its key, goes out if it holds none, and
-- raises if it holds more.
abbrev pub repeat_outcome : ℕ → Result (Unit {0})
repeat_outcome zero = ok tt
repeat_outcome (suc zero) = ok tt
repeat_outcome (suc (suc n)) = err multiple_results_found

empty_of_length : {A : Type 0} (xs : List A) → length xs ≡ 0 → xs ≡ []
empty_of_length [] h = refl
empty_of_length (x ∷ xs) h = ground arith

stale_later :
    (key : String) (now t : Datetime) (rows : List NotificationLogModel)
    → now ≤ t
    → filter (is_recent key 900 now) rows ≡ []
    → filter (is_recent key 900 t) rows ≡ []
stale_later key now t [] le h = refl
stale_later key now t (m ∷ rows) le h = ground (arith, stale_later key now t rows le)

module _ (E : Engine) (senders : Senders) (accepts : NotificationChannel → Bool)
    (event : DetectionEvent) (user_id event_id : ℕ) where
  abbrev key : String
  key = dedup_key user_id event

  length-new_logs :
      (w : World) (ids : List ℕ) (cs : List (NotificationChannel × ℕ))
      → length (new_logs E senders accepts event user_id event_id w ids cs) ≡ reachable senders cs
  length-new_logs w ids [] = refl
  length-new_logs w ids (c ∷ cs) = elim (Option-cases (senders c.0.type)) [
    | inl e ↦ rw e (length-new_logs w ids cs)
    | inr (_, e) ↦ rw e (ap suc (length-new_logs w (ids ++ E.fresh ids ∷ []) cs))
  ]

  new_logs-recent :
      (w : World) (t : Datetime) (ids : List ℕ) (cs : List (NotificationChannel × ℕ))
      → t ≤ w.now + 900_000_000
      → filter (is_recent key 900 t) (new_logs E senders accepts event user_id event_id w ids cs)
        ≡ new_logs E senders accepts event user_id event_id w ids cs
  new_logs-recent w t ids [] le = refl
  new_logs-recent w t ids (c ∷ cs) le = elim (Option-cases (senders c.0.type)) [
    | inl e ↦ rw e (new_logs-recent w t ids cs le)
    | inr (_, e) ↦ rw (
      e,
      str_eq_refl key,
      le→leb (t - 900_000_000) w.now (omega arith),
      new_logs-recent w t (ids ++ E.fresh ids ∷ []) cs le,
    )
  ]

  module _ (context : NotificationContext) where
    abbrev notify : World → Result (Unit {0}) × World
    notify w = notify_user (notification_service E senders) event context user_id w

    module _ (cs : List (NotificationChannel × ℕ)) (w : World) (quiet : AreQuiet senders accepts)
        (has_event : event.id ≡ some event_id) (stored : All IsStored cs)
        (listed : Channels.list_for_user user_id w
          ≡ (ok (map (λ (c : NotificationChannel × ℕ). c.0) cs), w)) where
      -- Where the senders answer and leave the world alone, the alert of an event to a user without
      -- a recent one succeeds, and adds to the log one row for each of the user's channels that has
      -- a sender, in order, with the answer of the sender and the time, and does nothing else.
      pub notify_user-fresh :
          AllStale key w
          → notify w ≡ (
            ok tt,
            with_logs (new_logs E senders accepts event user_id event_id w (log_ids w) cs) w,
          )
      unfolding notify_user exists_recent
      notify_user-fresh stale =
          rw (stale, E.scalar_one_or_none-eq NotificationLogModel, listed)
            (send_all-eq E senders accepts event user_id event_id context cs w quiet has_event
              stored)

    notify_user-found :
        (w : World) (m : NotificationLogModel) (rows : List NotificationLogModel)
        → filter (is_recent key 900 w.now) w.notification_logs ≡ m ∷ rows
        → notify w ≡ (repeat_outcome (suc (length rows)), w)
    unfolding notify_user exists_recent
    notify_user-found w m [] found = rw (found, E.scalar_one_or_none-eq NotificationLogModel) refl
    notify_user-found w m (x ∷ rows) found =
        rw (found, E.scalar_one_or_none-eq NotificationLogModel) refl

    -- Where the senders answer and leave the world alone, the alert of an event to a user without a
    -- recent one, repeated at a later time within the cooldown, changes nothing. It is dropped in
    -- silence if at most one of the user's channels has a sender, and raises if two or more have.
    pub notify_user-repeat :
        (cs : List (NotificationChannel × ℕ)) (w : World) (t : Datetime)
        → AreQuiet senders accepts
        → event.id ≡ some event_id
        → All IsStored cs
        → Channels.list_for_user user_id w ≡ (ok (map (λ (c : NotificationChannel × ℕ). c.0) cs), w)
        → AllStale key w
        → w.now ≤ t
        → t ≤ w.now + 900_000_000
        → let later = at t (notify w).1 in
          notify later ≡ (repeat_outcome (reachable senders cs), later)
    unfolding Channels.list_for_user
    notify_user-repeat cs w t quiet has_event stored listed stale le ge =
        rw
          (
            notify_user-fresh cs w quiet has_event stored listed stale,
            sym (length-new_logs w (log_ids w) cs),
          )
          (go (new_logs E senders accepts event user_id event_id w (log_ids w) cs) refl)
      where
        logs : World → List NotificationLogModel
        logs v = new_logs E senders accepts event user_id event_id v (log_ids v) cs

        recent :
            (rows : List NotificationLogModel)
            → logs w ≡ rows
            → filter (is_recent key 900 t) (w.notification_logs ++ rows) ≡ rows
        recent rows e =
            rw (filter-append, stale_later key w.now t w.notification_logs le stale, sym e)
              (new_logs-recent w t (log_ids w) cs ge)

        go :
            (rows : List NotificationLogModel)
            → logs w ≡ rows
            → notify (at t (with_logs rows w))
              ≡ (repeat_outcome (length rows), at t (with_logs rows w))
        go [] e =
            let v = at t (with_logs [] w) in
            notify_user-fresh cs v quiet has_event stored (ap (λ r. (r.0, v)) listed) (recent [] e)
            ∙ rw
                (empty_of_length (logs v) (
                  length-new_logs v (log_ids v) cs
                  ∙ sym (length-new_logs w (log_ids w) cs)
                  ∙ ap length e))
                (simp append-nil)
        go (m ∷ rows) e =
            notify_user-found (at t (with_logs (m ∷ rows) w)) m rows (recent (m ∷ rows) e)
