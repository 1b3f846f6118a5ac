-- ===== src/Api/Ownership/Watches.antt =====
-- Deleting a watch: whose it may be, and what it does to alerts.
use stock_monitoring.Common.{
  ℕ, ◌==◌, ==_iff, ==_refl, Bool, true, false, not, ◌&&◌, Bool-cases, inl, inr, List, [], ◌∷◌, map,
  filter, filter-update_if, update_if-none, filter-filter_none, List-cases, update_if,
  if◌then◌else◌, filter-holds, All, ◌≡◌, refl, subst, arith,
}
use stock_monitoring.Api.Watches.{delete_watch, require_watch}
use stock_monitoring.Domain.Errors.{ok, err, http_exception}
use stock_monitoring.Storage.Engine.{Engine}
use stock_monitoring.Storage.Rows.{WatchModel}
use stock_monitoring.Storage.Watches
use stock_monitoring.Storage.Watches.{watch_repository, to_watch, list_by_watch_target}
use stock_monitoring.Storage.World.{World}

abbrev pub has_id : ℕ → WatchModel → Bool
has_id id m = m.id == id

abbrev pub of_user : ℕ → WatchModel → Bool
of_user user m = m.user_id == user

abbrev inactive : WatchModel → WatchModel
inactive m = record m { is_active = false }

-- The world with a watch deactivated.
abbrev pub deactivated : ℕ → World → World
deactivated id w = record w {
  db = record w.db { watches = update_if (has_id id) inactive w.watches };
}

id_of_found :
    (id : ℕ) (rows : List WatchModel) (m : WatchModel)
    → filter (has_id id) rows ≡ m ∷ []
    → m.id ≡ id
id_of_found id rows m found =
    (==_iff m.id id).0
      (subst (All (λ x. has_id id x ≡ true)) found (filter-holds (has_id id) rows)).0

-- Deactivating a watch leaves the watches of the users that it is not of.
pub others-deactivated :
    (id other : ℕ) (w : World) {m : WatchModel}
    → filter (has_id id) w.watches ≡ m ∷ []
    → (m.user_id == other) ≡ false
    → filter (of_user other) (deactivated id w).watches ≡ filter (of_user other) w.watches
others-deactivated id other w found apart =
    rw (filter-update_if (of_user other) (has_id id) inactive w.watches (λ x. refl)) (
      update_if-none (has_id id) inactive (filter (of_user other) w.watches)
        (filter-filter_none (of_user other) (has_id id) w.watches found apart))

module _ (E : Engine) (id user : ℕ) (w : World) where
  -- A stored watch is deactivated if it is the user's; otherwise the request is answered with 404 and
  -- changes nothing.
  pub delete_watch-found :
      (m : WatchModel)
      → filter (has_id id) w.watches ≡ m ∷ []
      → delete_watch (watch_repository E) id user w
        ≡ (if m.user_id == user then (ok tt, deactivated id w) else (err (http_exception 404), w))
  unfolding delete_watch require_watch Watches.get_by_id Watches.deactivate
  delete_watch-found m found = elim (Bool-cases (m.user_id == user)) [
    | inl e ↦ rw (
      found,
      E.scalar_one_or_none-eq WatchModel,
      e,
      found,
      E.scalar_one_or_none-eq WatchModel,
      id_of_found id w.watches m found,
    )
    | inr e ↦ rw (found, E.scalar_one_or_none-eq WatchModel, e)
  ]

  pub delete_watch-absent :
      filter (has_id id) w.watches ≡ []
      → delete_watch (watch_repository E) id user w ≡ (err (http_exception 404), w)
  unfolding delete_watch require_watch Watches.get_by_id
  delete_watch-absent found = rw (found, E.scalar_one_or_none-eq WatchModel)

  pub delete_watch-many :
      (m m' : WatchModel) (ms : List WatchModel)
      → filter (has_id id) w.watches ≡ m ∷ m' ∷ ms
      → (delete_watch (watch_repository E) id user w).1 ≡ w
  unfolding delete_watch require_watch Watches.get_by_id
  delete_watch-many m m' ms found = rw (found, E.scalar_one_or_none-eq WatchModel) refl

  -- A request to delete a watch leaves every other user's watches as they are, whatever key it names.
  delete_watch-isolated :
      (other : ℕ)
      → (user == other) ≡ false
      → filter (of_user other) (delete_watch (watch_repository E) id user w).1.watches
        ≡ filter (of_user other) w.watches
  delete_watch-isolated other apart = elim (List-cases (filter (has_id id) w.watches)) [
    | inl nobody ↦ rw (delete_watch-absent nobody) refl
    | inr (inl (m, found)) ↦
        rw (delete_watch-found m found) (elim (Bool-cases (m.user_id == user)) [
          | inl e ↦ rw e (others-deactivated id other w found (ground arith))
          | inr e ↦ rw e refl
        ])
    | inr (inr (m, m', ms, found)) ↦ rw (delete_watch-many m m' ms found) refl
  ]

alerted-inactive :
    (id t : ℕ) (rows : List WatchModel)
    → filter
        (λ (m : WatchModel). m.watch_target_id == t && m.is_active)
        (update_if (has_id id) inactive rows)
      ≡ filter
          (λ m. not (has_id id m))
          (filter (λ (m : WatchModel). m.watch_target_id == t && m.is_active) rows)
alerted-inactive id t [] = refl
alerted-inactive id t (m ∷ rows) = ground (arith, alerted-inactive id t rows)

-- After its user has deleted a stored watch, the watches that the notification service is given for
-- any target are those from before without it.
pub list_by_watch_target-delete_watch :
    (E : Engine) (id t : ℕ) (w : World) {m : WatchModel}
    → filter (has_id id) w.watches ≡ m ∷ []
    → (list_by_watch_target t (delete_watch (watch_repository E) id m.user_id w).1).0
      ≡ ok (
          map to_watch (
            filter
              (λ x. not (has_id id x))
              (filter (λ (x : WatchModel). x.watch_target_id == t && x.is_active) w.watches)))
unfolding list_by_watch_target
list_by_watch_target-delete_watch E id t w {m} found = rw (
  delete_watch-found E id m.user_id w m found,
  ==_refl m.user_id,
  alerted-inactive id t w.watches,
)
