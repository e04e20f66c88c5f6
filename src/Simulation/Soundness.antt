-- ===== src/Simulation/Soundness.antt =====
-- What every state of the simulation of simulation/stub.py keeps.
pub mod Messages
pub mod Assignments
pub mod Contests
pub mod Failures
pub mod Losses
pub mod Decay
pub mod Searches
pub mod Ticks
pub mod Runs
pub mod Recovery
-- The drones are the configured ones, and each is consistent.
use entropyhunt.Base.{
  Bool-cases, is_some, first, All, ◌==◌, ℕ, ◌/◌, ◌≤◌, String, ◌≡◌, refl, ap, ◌∙◌, ◌⊎◌, inl, inr,
  Bool, true, false, Option, some, List, [], ◌∷◌, arith, string_eq, nat_eq, pair_eq, int_eq,
}
use entropyhunt.Base.Numeric.{Floats}
use entropyhunt.Drone.{DroneState}
use entropyhunt.Drone.Assignment.{IsConsistent}
use entropyhunt.Simulation.{SimulationConfig, SimMessage, Simulation, drone_ids, update_drone}
use entropyhunt.Simulation.Traffic.{send}

abbrev pub IsFleet : List String → List DroneState → Type 0
IsFleet peer_ids drones = All IsConsistent drones × (drone_ids drones ≡ peer_ids)

update_drone-All :
    (drone_id : String) (change : DroneState → DroneState) (drones : List DroneState)
    → ((d : DroneState)
        → first (λ d. d.drone_id == drone_id) drones ≡ some d
        → IsConsistent d
        → IsConsistent (change d))
    → All IsConsistent drones
    → All IsConsistent (update_drone drone_id change drones)
unfolding update_drone
update_drone-All drone_id change [] keeps h = tt
update_drone-All drone_id change (drone ∷ drones) keeps h =
    elim (Bool-cases (drone.drone_id == drone_id)) [
      | inl hit ↦ rw hit (keeps drone (ground arith) h.0, h.1)
      | inr miss ↦
          rw miss (h.0, update_drone-All drone_id change drones (λ d e. keeps d (ground arith)) h.1)
    ]

drone_ids-update_drone :
    (drone_id : String) (change : DroneState → DroneState) (drones : List DroneState)
    → ((d : DroneState) → (change d).drone_id ≡ d.drone_id)
    → drone_ids (update_drone drone_id change drones) ≡ drone_ids drones
unfolding update_drone
drone_ids-update_drone drone_id change [] same = refl
drone_ids-update_drone drone_id change (drone ∷ drones) same =
    ground (arith, same drone, drone_ids-update_drone drone_id change drones same)

-- A change of the drone that was found keeps the fleet.
pub update_drone-IsFleet :
    (drone_id : String) (change : DroneState → DroneState) (peer_ids : List String)
    (drones : List DroneState)
    → ((d : DroneState)
        → first (λ d. d.drone_id == drone_id) drones ≡ some d
        → IsConsistent d
        → IsConsistent (change d))
    → ((d : DroneState) → (change d).drone_id ≡ d.drone_id)
    → IsFleet peer_ids drones
    → IsFleet peer_ids (update_drone drone_id change drones)
update_drone-IsFleet drone_id change peer_ids drones keeps same h = (
  update_drone-All drone_id change drones keeps h.0,
  drone_ids-update_drone drone_id change drones same ∙ h.1,
)

-- A drone that is found has the id that it was looked for by.
pub first-holds :
    (drone_id : String) (drones : List DroneState) (drone : DroneState)
    → first (λ d. d.drone_id == drone_id) drones ≡ some drone
    → drone.drone_id ≡ drone_id
first-holds drone_id [] drone e = cc
first-holds drone_id (d ∷ ds) drone e = elim (Bool-cases (d.drone_id == drone_id)) [
  | inl hit ↦ ground arith
  | inr miss ↦ first-holds drone_id ds drone (ground arith)
]

-- A drone that was found and changed is found, changed.
pub first-update_drone :
    (drone_id : String) (change : DroneState → DroneState) (drones : List DroneState)
    (drone : DroneState)
    → ((d : DroneState) → (change d).drone_id ≡ d.drone_id)
    → first (λ d. d.drone_id == drone_id) drones ≡ some drone
    → first (λ d. d.drone_id == drone_id) (update_drone drone_id change drones)
      ≡ some (change drone)
unfolding update_drone
first-update_drone drone_id change [] drone same e = cc
first-update_drone drone_id change (d ∷ ds) drone same e =
    elim (Bool-cases (d.drone_id == drone_id)) [
      | inl hit ↦
          let found : d ≡ drone = ground arith in
          let still : ((change d).drone_id == drone_id) ≡ true = rw (same d) hit in
          rw (hit, still) (ap (λ x. some (change x)) found)
      | inr miss ↦ rw (miss, miss) (first-update_drone drone_id change ds drone same (ground arith))
    ]

-- At most one drone, the one that is planned to fail, has come back.
abbrev pub OnlyPlanned : Option String → List String → Type 0
OnlyPlanned fail_drone recovered =
    (recovered ≡ []) ⊎ ((i : String) × (recovered ≡ i ∷ []) × (fail_drone ≡ some i))

-- What does not change between two ticks, and whether the survivor had been found before.
pub record Instant (F : Type 0) : Type 0 where
  pub config : SimulationConfig F
  pub now_ms : ℕ
  pub found : Bool

module _ ⦃fl : Floats⦄ where
  open fl use {Float, lt, one}

  -- The books of the simulation: a survivor that was found stays found; the survivor is not found before the target is unlocked, there are no
  -- more auctions than rounds, one drone at most comes back, a cell is reclaimed only after one was released,
  -- at most one failure was injected, and no progress is above one.
  pub record AreKept (k : Instant Float) (sim : Simulation Float) : Type 0 where
    pub configured : sim.config ≡ k.config
    pub timed : sim.now_ms ≡ k.now_ms
    pub persistent : k.found ≡ true → sim.survivor_found ≡ true
    pub unlocked : sim.survivor_found ≡ true → sim.scheduler.target_unlock_at_s ≤ sim.now_ms / 1000
    pub audited : sim.auctions ≤ sim.resolver.round_id
    pub recovered : OnlyPlanned sim.config.fail_drone sim.recovered_drones
    pub reclaimed :
        is_some sim.scheduler.reclaimed_time_s ≡ true → is_some sim.scheduler.released_cell ≡ true
    pub failed_once : sim.dropouts ≤ 1
    pub failed_if : sim.failure_injector.triggered ≡ false → sim.dropouts ≡ 0
    pub partial : All (λ p. lt one p.1 ≡ false) sim.split_progress

  pub record IsSound (k : Instant Float) (sim : Simulation Float) : Type 0 where
    pub fleet : IsFleet sim.peer_ids sim.drones
    pub books : AreKept k sim

  pub send-IsSound :
      {k : Instant Float} (topic : String) (message : SimMessage Float) (sender_id : String)
      (sim : Simulation Float)
      → IsSound k sim
      → IsSound k (send topic message sender_id sim)
  unfolding send
  send-IsSound topic message sender_id sim v = ground arith
