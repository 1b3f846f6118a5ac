-- ===== src/Monitoring/Diffing/Histories.antt =====
-- A series of scrapes of one target, each compared with what the comparisons before it left
-- stored: monitoring_service.py stores a scrape exactly when its comparison fires something.
use stock_monitoring.Common.{
  ap, map, ℕ, Bool, true, false, ◌∙◌, Option, none, some, List, [], ◌∷◌, ◌++◌, ◌≡◌, refl, arith,
}
use stock_monitoring.Domain.Entities.{Snapshot, ProviderProductResult, snapshot_of}
use stock_monitoring.Domain.Enums.{Availability, EventType}
use stock_monitoring.Monitoring.Diffing.{diff_snapshots}
use stock_monitoring.Monitoring.Diffing.Laws.{in_stock, known_availability}

-- The stored snapshot after a check, whose key would be `id`.
abbrev pub store_after : Option Snapshot → Option ℕ → ℕ → ProviderProductResult → Option Snapshot
store_after previous id target result = elim (diff_snapshots previous result) [
  | [] ↦ previous
  | _ ↦ some (snapshot_of id target result)
]

-- The events of a series of checks that begins with `previous` stored.
unfoldable pub observe_all :
    ℕ → Option Snapshot → List (Option ℕ × ProviderProductResult) → List EventType
observe_all target previous [] = []
observe_all target previous ((id, result) ∷ results) =
    diff_snapshots previous result
    ++ observe_all target (store_after previous id target result) results

-- A reader of the event stream that knows only whether the product was in stock: `none` at an
-- event that cannot follow.
abbrev pub stock_step : Bool → EventType → Option Bool
stock_step false EventType.stock_available = some true
stock_step true EventType.stock_available = none
stock_step true EventType.out_of_stock = some false
stock_step false EventType.out_of_stock = none
stock_step true EventType.low_stock = some true
stock_step false EventType.low_stock = none
stock_step s EventType.price_changed = some s
stock_step s EventType.new_variant = some s
stock_step s EventType.eta_changed = some s
stock_step s EventType.store_changed = some s

abbrev pub follow :
    (Bool → List EventType → Option Bool) → Option Bool → List EventType → Option Bool
follow f none es = none
follow f (some s) es = f s es

abbrev pub track : Bool → List EventType → Option Bool
track s [] = some s
track s (e ∷ es) = elim (stock_step s e) [ none ↦ none | some s' ↦ track s' es ]

track-append :
    (s : Bool) (xs ys : List EventType) → track s (xs ++ ys) ≡ follow track (track s xs) ys
track-append s [] ys = refl
track-append s (e ∷ xs) ys =
    elim (stock_step s e)
      as (λ o.
        elim o [ none ↦ none | some s' ↦ track s' (xs ++ ys) ]
        ≡ follow track (elim o [ none ↦ none | some s' ↦ track s' xs ]) ys) [
          | none ↦ refl
          | some s' ↦ track-append s' xs ys
        ]

-- One comparison takes the reader from the stored availability to the scraped one.
pub track-diff_snapshots :
    (previous : Option Snapshot) (result : ProviderProductResult)
    → track (in_stock (known_availability previous)) (diff_snapshots previous result)
      ≡ some (in_stock result.availability)
unfolding diff_snapshots
track-diff_snapshots none result = ground arith
track-diff_snapshots (some previous) result = ground arith

known-store_after :
    (previous : Option Snapshot) (id : Option ℕ) (target : ℕ) (result : ProviderProductResult)
    → in_stock (known_availability (store_after previous id target result))
      ≡ in_stock result.availability
known-store_after previous id target result = ground (arith, track-diff_snapshots previous result)

-- The stock status of the last scrape of a series, or `s` if there is none.
abbrev pub last_status : Bool → List ProviderProductResult → Bool
last_status s [] = s
last_status s (result ∷ results) = last_status (in_stock result.availability) results

-- Over any series of checks the events that say "back in stock" and "out of stock" take turns, one
-- that says "running low" comes only in stock, and whoever follows them knows after the series
-- whether the last scrape was in stock.
pub track-observe_all :
    (target : ℕ) (previous : Option Snapshot) (results : List (Option ℕ × ProviderProductResult))
    → track (in_stock (known_availability previous)) (observe_all target previous results)
      ≡ some (
          last_status
            (in_stock (known_availability previous))
            (map (λ (p : Option ℕ × ProviderProductResult). p.1) results))
unfolding observe_all
track-observe_all target previous [] = refl
track-observe_all target previous ((id, result) ∷ results) =
    let rest = store_after previous id target result in
    rw
      (
        track-append,
        track-diff_snapshots previous result,
        ← known-store_after previous id target result,
      )
      (track-observe_all target rest results
        ∙ ap
            (λ s.
              some (last_status s (map (λ (p : Option ℕ × ProviderProductResult). p.1) results)))
            (known-store_after previous id target result))

pub store_after-quiet :
    (previous : Option Snapshot) (id : Option ℕ) (target : ℕ) (result : ProviderProductResult)
    → diff_snapshots previous result ≡ []
    → store_after previous id target result ≡ previous
store_after-quiet previous id target result quiet = ground arith

pub store_after-fires :
    (previous : Option Snapshot) (id : Option ℕ) (target : ℕ) (result : ProviderProductResult)
    {x : EventType} {xs : List EventType}
    → diff_snapshots previous result ≡ x ∷ xs
    → store_after previous id target result ≡ some (snapshot_of id target result)
store_after-fires previous id target result fires = rw (fires, store_after)

-- From a stored low stock, a scrape with plenty fires what the same scrape with low stock fires.
diff_snapshots-low_stock :
    (previous : Snapshot) (result : ProviderProductResult)
    → previous.availability ≡ Availability.low_stock
    → diff_snapshots (some previous) (record result { availability = Availability.available })
      ≡ diff_snapshots (some previous) (record result { availability = Availability.low_stock })
unfolding diff_snapshots
diff_snapshots-low_stock previous result h = rw h refl

-- If the stored snapshot says low stock and a low scrape would fire nothing, then the same scrape
-- with plenty in stock followed by the same scrape with low stock fires nothing at all.
pub low_again-silent :
    (target : ℕ) (previous : Snapshot) (id id' : Option ℕ) (result : ProviderProductResult)
    → previous.availability ≡ Availability.low_stock
    → diff_snapshots (some previous) (record result { availability = Availability.low_stock }) ≡ []
    → observe_all target (some previous) (
        (id, record result { availability = Availability.available })
        ∷ (id', record result { availability = Availability.low_stock })
        ∷ [])
      ≡ []
unfolding observe_all
low_again-silent target previous id id' result h quiet =
    let plenty : diff_snapshots (some previous)
          (record result { availability = Availability.available })
        ≡ [] =
      diff_snapshots-low_stock previous result h ∙ quiet in
    rw
      (
        plenty,
        store_after-quiet (some previous) id target
            (record result { availability = Availability.available }) plenty,
      )
      (rw quiet refl)
