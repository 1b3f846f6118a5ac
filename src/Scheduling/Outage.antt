-- ===== src/Scheduling/Outage.antt =====
-- A pass of the scheduler while every retailer is down.
use stock_monitoring.Common.{
  String, List, [], ◌∷◌, map, filter, ◌++◌, subst, Option-cases, inl, inr, ◌≡◌, refl, ap, ◌∙◌,
}
use stock_monitoring.Domain.Action.{Action, continue, ◌>>=◌, ◌>>◌}
use stock_monitoring.Domain.Entities.{
  ProviderProductResult, Datetime, DetectionEvent, LocationContext, WatchTarget,
}
use stock_monitoring.Domain.Errors.{Result, ok, err}
use stock_monitoring.Domain.Ports.{BaseRetailProvider, ProviderRegistry}
use stock_monitoring.Monitoring.Service.{check_watch_target, check_results}
use stock_monitoring.Monitoring.Wiring.{monitoring_service}
use stock_monitoring.Scheduling.{no_events, tick}
use stock_monitoring.Scheduling.Passes.{check_each, tick-check_each}
use stock_monitoring.Storage.Engine.{Engine}
use stock_monitoring.Storage.WatchTargets.{
  list_due, is_due, to_watch_target, watch_target_repository,
}
use stock_monitoring.Storage.World.{Db, World, utcnow}

abbrev pub IsError : {A : Type 0} → Result A → Type 0
IsError (ok a) = ⊥
IsError (err e) = Unit

-- A provider whose searches all raise. It does not touch the tables.
pub record IsDown (provider : BaseRetailProvider World) : Type 0 where
  pub initialize-db :
      (place : LocationContext) (w : World) → (provider.initialize place w).1.db ≡ w.db
  pub search_product-IsError : (k : String) (w : World) → IsError (provider.search_product k w).0
  pub search_product-db : (k : String) (w : World) → (provider.search_product k w).1.db ≡ w.db

abbrev pub IsDownOrError : Result (BaseRetailProvider World) → Type 0
IsDownOrError (ok provider) = IsDown provider
IsDownOrError (err e) = Unit

-- A registry that has no provider that is not down.
pub record IsOut (registry : ProviderRegistry World) : Type 0 where
  pub get-db : (slug : String) (w : World) → (registry.get slug w).1.db ≡ w.db
  pub get-IsDown : (slug : String) (w : World) → IsDownOrError (registry.get slug w).0

-- An action that raises and leaves the tables as they were.
abbrev pub Fails : {A : Type 0} → Db → Result A × World → Type 0
Fails db (r, w) = IsError r × (w.db ≡ db)

continue-IsError :
    {A B : Type 0} (r : Result A) (f : A → Action World B) (w : World)
    → IsError r
    → Fails w.db (continue r f w)
continue-IsError (ok a) f w h = absurd h
continue-IsError (err e) f w h = (tt, refl)

continue-Fails :
    {A B : Type 0} (r : Result A) (f : A → Action World B) (w : World)
    → ((a : A) → r ≡ ok a → Fails w.db (f a w))
    → Fails w.db (continue r f w)
continue-Fails (ok a) f w h = h a refl
continue-Fails (err e) f w h = (tt, refl)

module _ (provider : BaseRetailProvider World) (down : IsDown provider) where
  search-Fails :
      {B : Type 0} (k : String) (f : List ProviderProductResult → Action World B) (w : World)
      → Fails w.db ((provider.search_product k >>= f) w)
  search-Fails k f w =
      let h =
        continue-IsError (provider.search_product k w).0 f (provider.search_product k w).1
          (down.search_product-IsError k w) in
      (h.0, h.1 ∙ down.search_product-db k w)

  visit-Fails :
      {B : Type 0} (place : LocationContext) (k : String)
      (f : List ProviderProductResult → Action World B) (w : World)
      → Fails w.db ((provider.initialize place >> (provider.search_product k >>= f)) w)
  visit-Fails place k f w =
      let w' = (provider.initialize place w).1 in
      let h =
        continue-Fails (provider.initialize place w).0 (λ _. provider.search_product k >>= f) w'
          (λ _ _. search-Fails k f w') in
      (h.0, h.1 ∙ down.initialize-db place w)

module _ (E : Engine) (registry : ProviderRegistry World) (out : IsOut registry) where
  check_watch_target-Fails :
      (target : WatchTarget) (w : World)
      → Fails w.db (check_watch_target (monitoring_service E registry) target w)
  unfolding check_watch_target
  check_watch_target-Fails target w = elim (Option-cases target.id) [
    | inl e ↦ rw e (tt, refl)
    | inr (id, e) ↦
        let w' = (registry.get target.retailer_slug w).1 in
        let place : LocationContext = record { city = target.city; pincode = target.pincode } in
        let go : BaseRetailProvider World → Action World (List DetectionEvent) = λ provider.
          provider.initialize place
          >> (provider.search_product target.keyword
              >>= check_results (monitoring_service E registry) id) in
        let h = continue-Fails (registry.get target.retailer_slug w).0 go w' (λ provider got.
          visit-Fails provider (subst IsDownOrError got (out.get-IsDown target.retailer_slug w))
            place target.keyword (check_results (monitoring_service E registry) id) w') in
        rw e (h.0, h.1 ∙ out.get-db target.retailer_slug w)
  ]

  no_events-Fails :
      (r : Result (List DetectionEvent)) (events : List DetectionEvent)
      → IsError r
      → no_events r ++ events ≡ events
  no_events-Fails (ok a) events h = absurd h
  no_events-Fails (err e) events h = refl

  check_each-IsOut :
      (targets : List WatchTarget) (w : World)
      → ((check_each (monitoring_service E registry) targets w).0 ≡ [])
        × ((check_each (monitoring_service E registry) targets w).1.db ≡ w.db)
  unfolding check_each
  check_each-IsOut [] w = (refl, refl)
  check_each-IsOut (target ∷ targets) w =
      let failed = check_watch_target-Fails target w in
      let rest =
        check_each-IsOut targets (check_watch_target (monitoring_service E registry) target w).1 in
      (
        no_events-Fails (check_watch_target (monitoring_service E registry) target w).0 _ failed.0
            ∙ rest.0,
        rest.1 ∙ failed.1,
      )

  -- While every search of every provider raises, and no provider touches the tables: a pass over
  -- the stored targets does not raise, fires nothing and leaves all tables as they were, so at any
  -- later time the same targets are due as without the pass.
  pub tick-IsOut :
      (w : World)
      → let passed = tick (monitoring_service E registry) (watch_target_repository E) utcnow w in
        (passed.0 ≡ ok [])
        × (passed.1.db ≡ w.db)
        × ((now : Datetime) → (list_due now passed.1).0 ≡ (list_due now w).0)
  unfolding list_due
  tick-IsOut w =
      let (order, perm, ran) =
        tick-check_each (monitoring_service E registry) (watch_target_repository E) utcnow
          {now = w.now} {due = map to_watch_target (filter (is_due w.now) w.watch_targets)} {w = w}
          refl refl in
      let quiet = check_each-IsOut order w in
      rw ran (
        ap ok quiet.0,
        quiet.1,
        λ now.
            ap (λ (db : Db). ok (map to_watch_target (filter (is_due now) db.watch_targets)))
              quiet.1,
      )
