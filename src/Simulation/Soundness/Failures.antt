-- ===== src/Simulation/Soundness/Failures.antt =====
-- The injected failure and the recovery of simulation/stub.py.
use entropyhunt.Base.{
  Bool-cases, first, All, ◌==◌, contains, add, key_error, Answers, Answers-or_raise, each-Answers,
  ℕ, ◌+◌, String, ◌≡◌, refl, sym, ap, subst, ◌∙◌, inl, inr, true, false, ◌&&◌, Option, none, some,
  List, [], ◌∷◌, arith, string_eq, nat_eq, pair_eq, int_eq,
}
use entropyhunt.Base.Numeric.{Floats}
use entropyhunt.Drone.{DroneState, revive}
use entropyhunt.Failure.{should_trigger, cut_off, trigger_on}
use entropyhunt.Drone.Assignment.{IsConsistent}
use entropyhunt.Simulation.{Simulation, drone_ids, seconds}
use entropyhunt.Simulation.Liveness.{
  after_trigger, inject_failure, is_back, recover, check_recovery,
}
use entropyhunt.Simulation.Soundness.{IsFleet, first-holds, OnlyPlanned, Instant, IsSound}
use entropyhunt.Simulation.Soundness.Assignments.{change_drone-IsSound}
use entropyhunt.Failure.Once.{asked}

cut_off-All :
    (drone_id : String) (drones : List DroneState)
    → All IsConsistent drones
    → All IsConsistent (cut_off drone_id drones).0
unfolding cut_off
cut_off-All drone_id [] h = tt
cut_off-All drone_id (d ∷ ds) h =
    elim (Bool-cases (d.drone_id == drone_id && d.alive && d.reachable)) [
      | inl hit ↦ rw (hit, cut_off) (ground (arith, h.0), h.1)
      | inr miss ↦ rw (miss, cut_off) (h.0, cut_off-All drone_id ds h.1)
    ]

drone_ids-cut_off :
    (drone_id : String) (drones : List DroneState)
    → drone_ids (cut_off drone_id drones).0 ≡ drone_ids drones
unfolding cut_off
drone_ids-cut_off drone_id [] = refl
drone_ids-cut_off drone_id (d ∷ ds) =
    elim (Bool-cases (d.drone_id == drone_id && d.alive && d.reachable)) [
      | inl hit ↦ rw (hit, cut_off) refl
      | inr miss ↦ rw (miss, cut_off) (ap (λ ids. d.drone_id ∷ ids) (drone_ids-cut_off drone_id ds))
    ]

-- The planned drone has not come back before.
add-OnlyPlanned :
    (fail_drone : Option String) (recovered : List String) (i : String)
    → OnlyPlanned fail_drone recovered
    → fail_drone ≡ some i
    → contains recovered i ≡ false
    → OnlyPlanned fail_drone (add i recovered)
add-OnlyPlanned fail_drone recovered i (inl none_yet) planned new =
    inr (i, rw none_yet refl, planned)
add-OnlyPlanned fail_drone recovered i (inr (j, e, planned_j)) planned new = absurd (ground arith)

module _ ⦃fl : Floats⦄ where
  open fl use {Float}

  -- The failure that is injected is the first.
  triggered-IsSound :
      {k : Instant Float}
      → (drone_id : String) (sim : Simulation Float) → sim.failure_injector.triggered ≡ false
      → IsSound k sim
      → (IsSound k) (record sim {
        failure_injector = record sim.failure_injector { triggered = true };
        drones = (cut_off drone_id sim.drones).0;
      })
        × (IsSound k) (record sim {
          failure_injector = record sim.failure_injector { triggered = true };
          drones = (cut_off drone_id sim.drones).0;
          dropouts = sim.dropouts + 1;
          scheduler = record sim.scheduler { failure_logged = true };
        })
  triggered-IsSound {k} drone_id sim first_time v =
      let fleet : IsFleet sim.peer_ids (cut_off drone_id sim.drones).0 = (
        cut_off-All drone_id sim.drones v.fleet.0,
        drone_ids-cut_off drone_id sim.drones ∙ v.fleet.1,
      ) in
      (
        record { fleet = fleet; books = ground arith },
        record { fleet = fleet; books = ground arith },
      )

  pub inject_failure-IsSound :
      {k : Instant Float}
      → (sim : Simulation Float) → IsSound k sim
      → IsSound k (inject_failure sim)
  unfolding inject_failure trigger_on should_trigger
  inject_failure-IsSound {k} sim v = elim (asked (seconds sim) sim.failure_injector sim.drones) [
    | inl e ↦ subst (λ t. IsSound k (after_trigger t sim)) (sym e) v
    | inr (drone_id, planned, is_now, e) ↦
        let sound = triggered-IsSound drone_id sim (ground arith) v in
        subst (λ t. IsSound k (after_trigger t sim)) (sym e)
          (elim (Bool-cases (cut_off drone_id sim.drones).1) [
            | inl hit ↦ rw (hit, after_trigger) sound.1
            | inr miss ↦ rw (miss, after_trigger) sound.0
          ])
  ]

  is_back-fail_drone :
      (fail_drone : Option String) (fail_at : Option ℕ) (drone : DroneState)
      (sim : Simulation Float)
      → is_back fail_drone fail_at drone sim ≡ true
      → (fail_drone ≡ some drone.drone_id) × (contains sim.recovered_drones drone.drone_id ≡ false)
  is_back-fail_drone (some f) (some t) drone sim h = ground arith
  is_back-fail_drone none (some t) drone sim h = ground arith
  is_back-fail_drone none none drone sim h = ground arith
  is_back-fail_drone (some f) none drone sim h = ground arith

  recover-IsSound :
      {k : Instant Float}
      → (drone_id : String) (sim : Simulation Float) → IsSound k sim
      → Answers (IsSound k) (recover drone_id sim)
  unfolding recover revive
  recover-IsSound {k} drone_id sim v =
      Answers-or_raise (IsSound k) (first (λ d. d.drone_id == drone_id) sim.drones) key_error _
        (λ drone e. elim (Bool-cases (is_back sim.config.fail_drone sim.config.fail_at drone sim)) [
          | inr b ↦ rw b v
          | inl b ↦
              let changed =
                change_drone-IsSound drone_id (revive drone.position) sim (λ d _ w. ground arith)
                  (λ d. refl) v in
              let back = is_back-fail_drone sim.config.fail_drone sim.config.fail_at drone sim b in
              let same = first-holds drone_id sim.drones drone e in
              let kept =
                add-OnlyPlanned sim.config.fail_drone sim.recovered_drones drone.drone_id
                  v.books.recovered back.0 back.1 in
              rw b (record { fleet = changed.fleet; books = ground arith })
        ])

  pub check_recovery-IsSound :
      {k : Instant Float}
      → (sim : Simulation Float) → IsSound k sim
      → Answers (IsSound k) (check_recovery sim)
  unfolding check_recovery
  check_recovery-IsSound {k} sim v =
      each-Answers (IsSound k) recover (drone_ids sim.drones) sim recover-IsSound v
