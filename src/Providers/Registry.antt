-- ===== src/Providers/Registry.antt =====
-- `InMemoryProviderRegistry` of backend/app/infrastructure/providers/registry.py. A provider is an
-- object of a type `P`; `W` is the state that a factory may change.
use stock_monitoring.Common.{
  subst, String, str_eq_refl, Option, none, some, Option-cases, List, [], ◌∷◌, map, ◌≡◌, refl,
  arith, inl, inr,
}
use stock_monitoring.Common.Json.{Dict, lookup, insert}
use stock_monitoring.Domain.Action.{Action, pure, ◌>>=◌, ◌>>◌}
use stock_monitoring.Domain.Errors.{Result, ok, err, key_error}

module _ {P W : Type 0} where
  -- `self._factories[retailer_slug]()`, in the state without the instances.
  abbrev call : Action W P → Action (Dict P × W) P
  call factory (instances, w) = let (r, w') = factory w in (r, (instances, w'))

  abbrev keep : String → P → Action (Dict P × W) (Unit {0})
  keep retailer_slug provider (instances, w) = (ok tt, (insert retailer_slug provider instances, w))

  -- `get` for a slug that has a factory, from the instance that is kept for it.
  unfoldable pub get_or_build : String → Action W P → Option P → Action (Dict P × W) P
  get_or_build retailer_slug factory (some provider) = pure provider
  get_or_build retailer_slug factory none = do
    provider ← call factory
    keep retailer_slug provider
    pure provider

  unfoldable pub get : Dict (Action W P) → String → Action (Dict P × W) P
  unfolding get_or_build
  get factories retailer_slug (instances, w) = elim (lookup retailer_slug factories) [
    | none ↦ (err key_error, (instances, w))
    | some factory ↦
        get_or_build retailer_slug factory (lookup retailer_slug instances) (instances, w)
  ]

  unfoldable pub list_active_slugs : Action (Dict P × W) (List String)
  list_active_slugs (instances, w) = (ok (map (λ entry. entry.0) instances), (instances, w))

  -- Calls of `get` one after another; a caller goes on after a `KeyError`.
  abbrev pub get_all : Dict (Action W P) → List String → Dict P × W → Dict P × W
  get_all factories [] w = w
  get_all factories (slug ∷ slugs) w = get_all factories slugs (get factories slug w).1

module _ {P : Type 0} where
  lookup-insert : (k : String) (v : P) (d : Dict P) → lookup k (insert k v d) ≡ some v
  lookup-insert k v [] = ground (arith, str_eq_refl k)
  lookup-insert k v ((j, u) ∷ d) = ground (arith, str_eq_refl k, lookup-insert k v d)

  -- A new entry does not hide another.
  lookup-insert_other :
      (j k : String) (u v : P) (d : Dict P)
      → lookup j d ≡ some u
      → lookup k d ≡ none
      → lookup j (insert k v d) ≡ some u
  lookup-insert_other j k u v [] h e = absurd (ground (arith, h))
  lookup-insert_other j k u v ((i, w) ∷ d) h e = ground (arith, h, e, lookup-insert_other j k u v d)

module _ {P W : Type 0} (factories : Dict (Action W P)) where
  -- What the factory of a slug without an instance leads to.
  built :
      (slug other : String) (factory : Action W P) (u : P) (w : Dict P × W) (r : Result P × W)
      → factory w.1 ≡ r
      → lookup slug w.0 ≡ none
      → lookup other w.0 ≡ some u
      → lookup other (get_or_build slug factory none w).1.0 ≡ some u
  unfolding get_or_build
  built slug other factory u w (ok p, v) e new h =
      rw e (lookup-insert_other other slug u p w.0 h new)
  built slug other factory u w (err x, v) e new h = rw e h

  -- A call of `get` does not change the instance that another slug, or this one, has.
  get-lookup :
      (slug other : String) (u : P) (w : Dict P × W)
      → lookup other w.0 ≡ some u
      → lookup other (get factories slug w).1.0 ≡ some u
  unfolding get get_or_build
  get-lookup slug other u w h = elim (Option-cases (lookup slug factories)) [
    | inl e ↦ rw (get, e) h
    | inr (factory, e) ↦ elim (Option-cases (lookup slug w.0)) [
      | inl new ↦ rw (get, e, new) (built slug other factory u w _ refl new h)
      | inr (p, old) ↦ rw (get, e, old) h
    ]
  ]

  get_all-lookup :
      (slugs : List String) (other : String) (u : P) (w : Dict P × W)
      → lookup other w.0 ≡ some u
      → lookup other (get_all factories slugs w).0 ≡ some u
  get_all-lookup [] other u w h = h
  get_all-lookup (slug ∷ slugs) other u w h =
      get_all-lookup slugs other u (get factories slug w).1 (get-lookup slug other u w h)

  get-cached :
      (slug : String) (factory : Action W P) (p : P) (w : Dict P × W)
      → lookup slug factories ≡ some factory
      → lookup slug w.0 ≡ some p
      → get factories slug w ≡ (ok p, w)
  unfolding get get_or_build
  get-cached slug factory p w e h = rw (get, e, h) refl

  -- The provider that is returned is the one that is kept for the slug.
  abbrev IsKept : String → Result P × (Dict P × W) → Type 0
  IsKept slug (ok p, w) = lookup slug w.0 ≡ some p
  IsKept slug (err e, w) = Unit

  get_or_build-IsKept :
      (slug : String) (factory : Action W P) (w : Dict P × W) (r : Result P × W)
      → factory w.1 ≡ r
      → IsKept slug (get_or_build slug factory none w)
  unfolding get_or_build
  get_or_build-IsKept slug factory w (ok p, v) e = rw e (lookup-insert slug p w.0)
  get_or_build-IsKept slug factory w (err x, v) e = rw e tt

  get-IsKept :
      (slug : String) (factory : Action W P) (w : Dict P × W)
      → lookup slug factories ≡ some factory
      → IsKept slug (get factories slug w)
  unfolding get get_or_build
  get-IsKept slug factory w e = elim (Option-cases (lookup slug w.0)) [
    | inl new ↦ rw (get, e, new) (get_or_build-IsKept slug factory w _ refl)
    | inr (p, old) ↦ rw (get, e, old) old
  ]

  -- If a slug is registered and `get` returned a provider for it: after any further calls of `get`,
  -- for this slug and others, whatever they return or raise, `get` returns the same provider, and
  -- calls no factory and changes nothing.
  pub get-get_all :
      (slug : String) (slugs : List String) (factory : Action W P) (p : P) (w w' : Dict P × W)
      → lookup slug factories ≡ some factory
      → get factories slug w ≡ (ok p, w')
      → let later = get_all factories slugs w' in get factories slug later ≡ (ok p, later)
  get-get_all slug slugs factory p w w' e h =
      get-cached slug factory p (get_all factories slugs w') e
        (get_all-lookup slugs slug p w' (subst (IsKept slug) h (get-IsKept slug factory w e)))
