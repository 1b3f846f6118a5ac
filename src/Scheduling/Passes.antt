-- ===== src/Scheduling/Passes.antt =====
-- A pass of the scheduler checks every due target once, whatever the checks before it raise.
use stock_monitoring.Common.{
  String, str_eq, Bool-cases, inl, inr, List, [], ◌∷◌, ◌++◌, append_assoc, append-nil, Permᴰ, ◌≡◌,
  refl, subst,
}
use mathlib.Core.List.Permᴰ.{append_left, append_right, append_comm, refl as same}
use stock_monitoring.Common.Json.{Dict}
use stock_monitoring.Domain.Action.{Action}
use stock_monitoring.Domain.Entities.{Datetime, DetectionEvent, WatchTarget}
use stock_monitoring.Domain.Errors.{ok}
use stock_monitoring.Domain.Ports.{WatchTargetRepository}
use stock_monitoring.Monitoring.Service.{MonitoringService, check_watch_target}
use stock_monitoring.Scheduling.{
  append_at, group_by_retailer, no_events, check, run_retailer_group, run_groups, tick,
}

-- The targets of the groups, in the order of the groups.
abbrev pub members : Dict (List WatchTarget) → List WatchTarget
members [] = []
members ((slug, group) ∷ groups) = group ++ members groups

append_at-perm :
    (slug : String) (target : WatchTarget) (groups : Dict (List WatchTarget))
    → Permᴰ (members (append_at slug target groups)) (members groups ++ target ∷ [])
unfolding append_at
append_at-perm slug target [] = same (target ∷ [])
append_at-perm slug target ((key, group) ∷ groups) = elim (Bool-cases (str_eq key slug)) [
  | inl e ↦
      rw (e, append_assoc, append_assoc)
        (append_left group (append_comm (target ∷ []) (members groups)))
  | inr e ↦ rw (e, append_assoc) (append_left group (append_at-perm slug target groups))
]

group_by_retailer-perm :
    (groups : Dict (List WatchTarget)) (targets : List WatchTarget)
    → Permᴰ (members (group_by_retailer groups targets)) (members groups ++ targets)
unfolding group_by_retailer
group_by_retailer-perm groups [] = rw append-nil (same (members groups))
group_by_retailer-perm groups (target ∷ targets) =
    Permᴰ.trans (group_by_retailer-perm (append_at target.retailer_slug target groups) targets) (
      subst (λ l. Permᴰ (members (append_at target.retailer_slug target groups) ++ targets) l)
        (append_assoc (members groups) (target ∷ []) targets)
        (append_right targets (append_at-perm target.retailer_slug target groups)))

module _ {W : Type 0} (service : MonitoringService W) where
  -- The checks of a list of targets, each with what the ones before it left: the events of those
  -- that did not raise, and the state.
  unfoldable pub check_each : List WatchTarget → W → List DetectionEvent × W
  check_each [] w = ([], w)
  check_each (target ∷ targets) w =
      let (r, w') = check_watch_target service target w in
      let (events, w'') = check_each targets w' in (no_events r ++ events, w'')

  run_retailer_group-eq :
      (targets : List WatchTarget) (w : W)
      → run_retailer_group service targets w
        ≡ (ok (check_each targets w).0, (check_each targets w).1)
  unfolding run_retailer_group check_each check
  run_retailer_group-eq [] w = refl
  run_retailer_group-eq (target ∷ targets) w =
      rw (run_retailer_group-eq targets (check_watch_target service target w).1) refl

  check_each-append :
      (xs ys : List WatchTarget) (w : W)
      → check_each (xs ++ ys) w ≡ (
        (check_each xs w).0 ++ (check_each ys (check_each xs w).1).0,
        (check_each ys (check_each xs w).1).1,
      )
  unfolding check_each
  check_each-append [] ys w = refl
  check_each-append (x ∷ xs) ys w =
      rw (check_each-append xs ys (check_watch_target service x w).1, append_assoc) refl

  run_groups-eq :
      (groups : Dict (List WatchTarget)) (w : W)
      → run_groups service groups w
        ≡ (ok (check_each (members groups) w).0, (check_each (members groups) w).1)
  unfolding run_groups check_each
  run_groups-eq [] w = refl
  run_groups-eq ((slug, group) ∷ groups) w =
      rw
        (
          run_retailer_group-eq group w,
          run_groups-eq groups (check_each group w).1,
          check_each-append group (members groups) w,
        )
        refl

  -- A pass never raises once the due targets are read: it checks each of them once, in some order,
  -- whether or not the checks before it raised, and returns the events of the checks that did not.
  pub tick-check_each :
      (watch_target_repo : WatchTargetRepository W) (now_fn : Action W Datetime) {now : Datetime}
      {due : List WatchTarget} {w w₁ w₂ : W}
      → now_fn w ≡ (ok now, w₁)
      → watch_target_repo.list_due now w₁ ≡ (ok due, w₂)
      → (order : List WatchTarget) × Permᴰ order due
        × (tick service watch_target_repo now_fn w
            ≡ (ok (check_each order w₂).0, (check_each order w₂).1))
  unfolding tick
  tick-check_each watch_target_repo now_fn {due} {w₂} now_is due_are =
      let groups = group_by_retailer [] due in
      (
        members groups,
        group_by_retailer-perm [] due,
        rw (now_is, due_are) (run_groups-eq groups w₂),
      )
