-- ===== src/Notification/Watchers.antt =====
-- The loop over the watches: who is notified.
use stock_monitoring.Common.{
  ==_refl, ℕ, Bool, true, false, any, ◌==◌, List, [], ◌∷◌, map, if◌then◌else◌, Bool-cases, inl, inr,
  ◌≡◌, refl, ap, arith,
}
use stock_monitoring.Domain.Action.{Action, pure, ◌>>◌}
use stock_monitoring.Domain.Entities.{DetectionEvent, NotificationContext, Watch}
use stock_monitoring.Notification.Service.{NotificationService, notify_user, notify_watchers}

abbrev pub is_in : List ℕ → ℕ → Bool
is_in us u = any (λ v. v == u) us

abbrev pub HasNoRepeats : List ℕ → Type 0
HasNoRepeats [] = Unit
HasNoRepeats (u ∷ us) = (is_in us u ≡ false) × HasNoRepeats us

-- The users in order, without those seen before.
distinct : List ℕ → List ℕ → List ℕ
distinct seen [] = []
distinct seen (u ∷ us) = if is_in seen u then distinct seen us else u ∷ distinct (u ∷ seen) us

distinct-seen :
    (seen us : List ℕ) (v : ℕ) → is_in seen v ≡ true → is_in (distinct seen us) v ≡ false
unfolding distinct
distinct-seen seen [] v h = refl
distinct-seen seen (u ∷ us) v h =
    ground (arith, distinct-seen seen us v h, distinct-seen (u ∷ seen) us v)

distinct-HasNoRepeats : (seen us : List ℕ) → HasNoRepeats (distinct seen us)
unfolding distinct
distinct-HasNoRepeats seen [] = tt
distinct-HasNoRepeats seen (u ∷ us) = elim (Bool-cases (is_in seen u)) [
  | inl e ↦ rw e (distinct-HasNoRepeats seen us)
  | inr e ↦
      rw e
        (distinct-seen (u ∷ seen) us u (rw (==_refl u) refl), distinct-HasNoRepeats (u ∷ seen) us)
]

distinct-is_in :
    (seen us : List ℕ) (v : ℕ) → is_in seen v ≡ false → is_in (distinct seen us) v ≡ is_in us v
unfolding distinct
distinct-is_in seen [] v h = refl
distinct-is_in seen (u ∷ us) v h =
    ground (arith, distinct-is_in seen us v h, distinct-is_in (u ∷ seen) us v)

module _ {W : Type 0} (service : NotificationService W) (event : DetectionEvent)
    (context : NotificationContext) where
  -- One notification after the other.
  unfoldable pub notify_each : List ℕ → Action W (Unit {0})
  notify_each [] = pure tt
  notify_each (u ∷ us) = notify_user service event context u >> notify_each us

  notify_watchers-distinct :
      (seen : List ℕ) (watches : List Watch)
      → notify_watchers service event context seen watches
        ≡ notify_each (distinct seen (map (λ (x : Watch). x.user_id) watches))
  unfolding notify_watchers distinct notify_each
  notify_watchers-distinct seen [] = refl
  notify_watchers-distinct seen (x ∷ xs) = elim (Bool-cases (is_in seen x.user_id)) [
    | inl e ↦ rw e (notify_watchers-distinct seen xs)
    | inr e ↦ rw e (
        ap (λ k. notify_user service event context x.user_id >> k)
          (notify_watchers-distinct (x.user_id ∷ seen) xs))
  ]

  -- The loop over the watches notifies every user who has one of them once, and nobody else: it is
  -- the sequence of the notifications of a list of users without repeats that holds exactly them.
  pub notify_watchers-once :
      (watches : List Watch)
      → (users : List ℕ) × (notify_watchers service event context [] watches ≡ notify_each users)
        × HasNoRepeats users
        × ((u : ℕ) → is_in users u ≡ is_in (map (λ (x : Watch). x.user_id) watches) u)
  notify_watchers-once watches =
      let ids = map (λ (x : Watch). x.user_id) watches in
      (
        distinct [] ids,
        notify_watchers-distinct [] watches,
        distinct-HasNoRepeats [] ids,
        λ u. distinct-is_in [] ids u refl,
      )
