-- ===== src/Storage/WatchTargets/Sharing.antt =====
-- A watch target is shared: there is one row for each retailer, place and keyword, and it is
-- scraped as often as the most impatient of its watchers asks.
use stock_monitoring.Common.{
  ◌&&◌, str_eq, str_eq, ◌≤◌, ◌==◌, ==_refl, String, str_eq_iff, str_eq_refl, Bool, true, none, List,
  [], ◌∷◌, ◌++◌, map, filter, filter-append, filter-update_if, update_if, length, length-update_if,
  length-append, ◌⊎◌, inl, inr, if◌then◌else◌, ◌≡◌, refl, arith,
}
use stock_monitoring.Common.Int.{ℤ, ◌≤ℤ◌, ltb_ℤ}
use stock_monitoring.Domain.Errors.{ok}
use stock_monitoring.Storage.Engine.{Engine}
use stock_monitoring.Storage.Rows.{WatchTargetModel}
use stock_monitoring.Storage.WatchTargets.{get_or_create, is_target, to_watch_target}
use stock_monitoring.Storage.World.{World}

-- The row has these four columns.
abbrev pub has_columns : String → String → String → String → WatchTargetModel → Bool
has_columns r c p k m =
    str_eq m.retailer_slug r && str_eq m.city c && str_eq m.pincode p && str_eq m.keyword k

-- The unique constraint of models.py: no retailer, city, pincode and keyword has two rows.
abbrev pub IsShared : List WatchTargetModel → Type 0
IsShared rows = (r c p k : String) → length (filter (has_columns r c p k) rows) ≤ 1

module _ (E : Engine) (r c p k : String) (i : ℤ) (w : World) where
  abbrev is_this : WatchTargetModel → Bool
  is_this = is_target r c p k

  -- The row that a new target becomes.
  abbrev created : WatchTargetModel
  created = record {
    id = E.fresh (map (λ (m : WatchTargetModel). m.id) w.watch_targets);
    retailer_slug = r;
    city = c;
    pincode = p;
    keyword = k;
    interval_seconds = i;
    last_checked_at = none;
  }

  -- The row that was found, as the call leaves it.
  abbrev shortened : WatchTargetModel → WatchTargetModel
  shortened m = if ltb_ℤ i m.interval_seconds then record m { interval_seconds = i } else m

  is_this-created : is_this created ≡ true
  is_this-created = ground (arith, str_eq_refl r, str_eq_refl c, str_eq_refl p, str_eq_refl k)

  pub get_or_create-new :
      filter is_this w.watch_targets ≡ []
      → get_or_create E r c p k i w ≡ (
        ok (to_watch_target created),
        record w { db = record w.db { watch_targets = w.watch_targets ++ created ∷ [] } },
      )
  unfolding get_or_create
  get_or_create-new e = rw (e, E.scalar_one_or_none-eq WatchTargetModel)

  abbrev with_interval : WatchTargetModel → World
  with_interval m = record w {
    db = record w.db {
      watch_targets =
          update_if (λ (x : WatchTargetModel). x.id == m.id)
            (λ x. record x { interval_seconds = (shortened m).interval_seconds }) w.watch_targets;
    };
  }

  pub get_or_create-old :
      (m : WatchTargetModel)
      → filter is_this w.watch_targets ≡ m ∷ []
      → get_or_create E r c p k i w ≡ (ok (to_watch_target (shortened m)), with_interval m)
  unfolding get_or_create
  get_or_create-old m e = rw (e, E.scalar_one_or_none-eq WatchTargetModel)

  -- No row or one row, where at most one is allowed.
  one_or_none :
      (rows : List WatchTargetModel)
      → length rows ≤ 1
      → (rows ≡ []) ⊎ ((m : WatchTargetModel) × (rows ≡ m ∷ []))
  one_or_none [] h = inl refl
  one_or_none (m ∷ []) h = inr (m, refl)
  one_or_none (m ∷ m' ∷ rows) h = absurd (omega arith)

  filter-same :
      (r' c' p' k' : String)
      → filter is_this w.watch_targets ≡ []
      → r ≡ r'
      → c ≡ c'
      → p ≡ p'
      → k ≡ k'
      → length (filter (is_target r' c' p' k') w.watch_targets) ≡ 0
  filter-same r' c' p' k' e er ec ep ek = rw (← er, ← ec, ← ep, ← ek, e)

  -- Two rows would share all four columns only if they were the same row.
  created-fits :
      filter is_this w.watch_targets ≡ []
      → IsShared w.watch_targets
      → IsShared (w.watch_targets ++ created ∷ [])
  created-fits e h r' c' p' k' = ground (
    arith,
    filter-append (is_target r' c' p' k') w.watch_targets (created ∷ []),
    length-append (filter (is_target r' c' p' k') w.watch_targets)
        (filter (is_target r' c' p' k') (created ∷ [])),
    filter-same r' c' p' k' e,
    h r' c' p' k',
    str_eq_iff r r',
    str_eq_iff c c',
    str_eq_iff p p',
    str_eq_iff k k',
  )

  interval-fits :
      (m : WatchTargetModel) → IsShared w.watch_targets → IsShared (with_interval m).watch_targets
  interval-fits m h r' c' p' k' =
      rw
        (
          filter-update_if (is_target r' c' p' k') (λ (x : WatchTargetModel). x.id == m.id)
              (λ x. record x { interval_seconds = (shortened m).interval_seconds }) w.watch_targets
              (λ x. refl),
          length-update_if (λ (x : WatchTargetModel). x.id == m.id)
              (λ x. record x { interval_seconds = (shortened m).interval_seconds }),
        )
        (h r' c' p' k')

  found-shortened :
      (m : WatchTargetModel)
      → filter is_this w.watch_targets ≡ m ∷ []
      → filter is_this (with_interval m).watch_targets ≡ shortened m ∷ []
  found-shortened m e =
      rw
        (
          filter-update_if is_this (λ (x : WatchTargetModel). x.id == m.id)
              (λ x. record x { interval_seconds = (shortened m).interval_seconds }) w.watch_targets
              (λ x. refl),
          e,
          ==_refl m.id,
        )
        (ground arith)

  shortened-le : (m : WatchTargetModel) → (shortened m).interval_seconds ≤ℤ i
  shortened-le m = ground arith

  shortened-old :
      (m old : WatchTargetModel)
      → m ∷ [] ≡ old ∷ []
      → ((shortened m).id ≡ old.id) × ((shortened m).interval_seconds ≤ℤ old.interval_seconds)
  shortened-old m old e = ground arith

  get_or_create-fits :
      IsShared w.watch_targets → IsShared (get_or_create E r c p k i w).1.watch_targets
  get_or_create-fits h = elim (one_or_none (filter is_this w.watch_targets) (h r c p k)) [
    | inl e ↦ rw (get_or_create-new e) (created-fits e h)
    | inr (m, e) ↦ rw (get_or_create-old m e) (interval-fits m h)
  ]

  -- Where no retailer, city, pincode and keyword has two rows, the call never raises: it answers
  -- with the one row that then stands for those asked for, whose interval is no longer than the one
  -- asked for.
  pub get_or_create-answer :
      IsShared w.watch_targets
      → (m : WatchTargetModel) × ((get_or_create E r c p k i w).0 ≡ ok (to_watch_target m))
        × (filter (has_columns r c p k) (get_or_create E r c p k i w).1.watch_targets ≡ m ∷ [])
        × (m.interval_seconds ≤ℤ i)
  get_or_create-answer h = elim (one_or_none (filter is_this w.watch_targets) (h r c p k)) [
    | inl e ↦ rw (get_or_create-new e) (
      created,
      refl,
      rw (filter-append is_this w.watch_targets, e, is_this-created) refl,
      omega arith,
    )
    | inr (m, e) ↦
        rw (get_or_create-old m e) (shortened m, refl, found-shortened m e, shortened-le m)
  ]

  -- Where no retailer, city, pincode and keyword has two rows, none has two after the call; the call
  -- answers, and its answer is the one row that then has the retailer, city, pincode and keyword
  -- asked for, with an interval no longer than the one asked for.
  pub get_or_create-IsShared :
      IsShared w.watch_targets
      → IsShared (get_or_create E r c p k i w).1.watch_targets
        × ((m : WatchTargetModel) × ((get_or_create E r c p k i w).0 ≡ ok (to_watch_target m))
            × (filter (has_columns r c p k) (get_or_create E r c p k i w).1.watch_targets ≡ m ∷ [])
            × (m.interval_seconds ≤ℤ i))
  get_or_create-IsShared h = (get_or_create-fits h, get_or_create-answer h)

  -- If one row stood for the retailer, place and keyword, one row stands for them after the call;
  -- it is the answer, and has the same key and no longer an interval than before.
  get_or_create-known :
      (old : WatchTargetModel)
      → filter is_this w.watch_targets ≡ old ∷ []
      → (m : WatchTargetModel) × ((get_or_create E r c p k i w).0 ≡ ok (to_watch_target m))
        × (filter is_this (get_or_create E r c p k i w).1.watch_targets ≡ m ∷ [])
        × (m.id ≡ old.id)
        × (m.interval_seconds ≤ℤ old.interval_seconds)
  get_or_create-known old e = rw (get_or_create-old old e) (
    shortened old,
    refl,
    found-shortened old e,
    (shortened-old old old refl).0,
    (shortened-old old old refl).1,
  )
