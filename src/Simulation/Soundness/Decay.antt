-- ===== src/Simulation/Soundness/Decay.antt =====
-- What the decay of the maps and of the split progress in simulation/stub.py keeps.
use entropyhunt.Base.{
  Bool-cases, first, All, ◌==◌, contains, key_error, each, Answers, Answers-after, Answers-or_raise,
  Answers-bind, each-Answers, Coordinate, String, ◌≡◌, sym, subst, ◌∙◌, inl, inr, false, some, List,
  [], ◌∷◌, map, arith, string_eq, nat_eq, pair_eq, int_eq,
}
use entropyhunt.Base.Dict.{Dict, lookup, insert, keys}
use entropyhunt.Base.Numeric.{Floats, max_f, min_f, lt_irrefl}
use entropyhunt.Drone.{searching, DroneState, step_towards_target}
use entropyhunt.Drone.Assignment.{IsConsistent}
use entropyhunt.Simulation.{SimulationConfig, DroneReplica, Simulation, update_drone, put_replica}
use entropyhunt.Simulation.Search.{
  SplitKey, split_keys, settle_status, count_search, certainty_at, update_split_cell, drift,
  decay_entry, decay_split_progress, decay_replica, decay_maps,
}
use entropyhunt.Simulation.Soundness.{first-holds, first-update_drone, Instant, IsSound}
use entropyhunt.Certainty.{CertaintyMap, set_certainty, decay_all}
use entropyhunt.Simulation.Assignment.{with_status}

pub settle_status-IsConsistent : (d : DroneState) → IsConsistent d → IsConsistent (settle_status d)
settle_status-IsConsistent d v = ground arith

pub settle_status-id : (d : DroneState) → (settle_status d).drone_id ≡ d.drone_id
settle_status-id d = ground arith

-- A drone at its target may search.
pub on_target-IsConsistent :
    (d : DroneState) (p : Coordinate)
    → d.target_cell ≡ some p
    → d.position ≡ p
    → IsConsistent d
    → IsConsistent (with_status searching d)
on_target-IsConsistent d p heads there v = ground arith

pub count_search-IsConsistent : (d : DroneState) → IsConsistent d → IsConsistent (count_search d)
count_search-IsConsistent d v = ground arith

pub step-IsConsistent : (d : DroneState) → IsConsistent d → IsConsistent (step_towards_target d)
unfolding step_towards_target
step-IsConsistent d v = ground arith

pub step_towards_target-id : (d : DroneState) → (step_towards_target d).drone_id ≡ d.drone_id
unfolding step_towards_target
step_towards_target-id d = ground arith

-- A drone that was found and settled is found, settled.
pub first-settled :
    (drone_id : String) (drone : DroneState) (drones : List DroneState)
    → first (λ d. d.drone_id == drone_id) drones ≡ some drone
    → first
        (λ d. d.drone_id == (settle_status drone).drone_id)
        (update_drone drone_id settle_status drones)
      ≡ some (settle_status drone)
first-settled drone_id drone drones e =
    subst
      (λ i.
        first (λ d. d.drone_id == i) (update_drone drone_id settle_status drones)
        ≡ some (settle_status drone))
      (sym (settle_status-id drone ∙ first-holds drone_id drones drone e))
      (first-update_drone drone_id settle_status drones drone settle_status-id e)

module _ ⦃fl : Floats⦄ where
  open fl use {Float, lt, zero_f, one, of_nat}

  -- The state, the first part of a result, is sound.
  abbrev pub FirstSound : Instant Float → Simulation Float × Float → Type 0
  FirstSound k r = IsSound k r.0

  map-IsSound :
      {k : Instant Float}
      → (m : CertaintyMap Float) (sim : Simulation Float) → IsSound k sim
      → IsSound k (record sim { certainty_map = m })
  map-IsSound {k} m sim v = ground arith

  pub replica-IsSound :
      {k : Instant Float}
      → (drone_id : String) (replica : DroneReplica Float) (sim : Simulation Float) → IsSound k sim
      → IsSound k (put_replica drone_id replica sim)
  replica-IsSound {k} drone_id replica sim v = ground arith

  pub update_split_cell-IsSound :
      {k : Instant Float}
      → (updated_by : String) (p : Coordinate) (sim : Simulation Float) → IsSound k sim
      → Answers (IsSound k) (update_split_cell updated_by p sim)
  unfolding update_split_cell
  update_split_cell-IsSound {k} updated_by p sim v =
      Answers-after (IsSound k) (certainty_at p sim.certainty_map) _ (λ certainty _.
        Answers-after (IsSound k) (set_certainty p _ updated_by sim.now_ms sim.certainty_map) _
          (λ updated _. map-IsSound updated sim v))

  pub min-le-one : (x : Float) → lt one (min_f one x) ≡ false
  min-le-one x = elim (Bool-cases (lt x one)) [
    | inl e ↦ rw e (fl.order.asymm x one e)
    | inr e ↦ rw e (lt_irrefl one)
  ]

  max-le-one : (x : Float) → lt one x ≡ false → lt one (max_f zero_f x) ≡ false
  max-le-one x h = elim (Bool-cases (lt zero_f x)) [
    | inl e ↦ rw e h
    | inr e ↦ rw e (fl.order.asymm zero_f one fl.zero_lt_one)
  ]

  drift-le-one :
      (config : SimulationConfig Float) (progress : Float) → lt one (drift config progress) ≡ false
  unfolding drift
  drift-le-one config progress = max-le-one _ (min-le-one _)

  decayed-All :
      (config : SimulationConfig Float) (active : List SplitKey) (entries : Dict SplitKey Float)
      → All (λ p. lt one p.1 ≡ false) entries
      → All (λ p. lt one p.1 ≡ false) (map (decay_entry config active) entries)
  decayed-All config active [] h = tt
  decayed-All config active (entry ∷ entries) h = (
    elim (Bool-cases (contains active entry.0)) [
      | inl e ↦ rw e h.0
      | inr e ↦ rw e (drift-le-one config entry.1)
    ],
    decayed-All config active entries h.1,
  )

  pub insert-All :
      (key : SplitKey) (x : Float) (entries : Dict SplitKey Float)
      → lt one x ≡ false
      → All (λ p. lt one p.1 ≡ false) entries
      → All (λ p. lt one p.1 ≡ false) (insert key x entries)
  unfolding insert
  insert-All key x [] e h = (e, tt)
  insert-All key x (entry ∷ entries) e h = elim (Bool-cases (entry.0 == key)) [
    | inl hit ↦ rw hit (e, h.1)
    | inr miss ↦ rw miss (h.0, insert-All key x entries e h.1)
  ]

  -- New progress, none of it above one.
  pub split-IsSound :
      {k : Instant Float}
      → (entries : Dict SplitKey Float) (sim : Simulation Float)
      → All (λ p. lt one p.1 ≡ false) entries
      → IsSound k sim
      → IsSound k (record sim { split_progress = entries })
  split-IsSound {k} entries sim h v = ground arith

  decay_split_progress-IsSound :
      {k : Instant Float}
      → (sim : Simulation Float) → IsSound k sim
      → Answers (IsSound k) (decay_split_progress sim)
  unfolding decay_split_progress
  decay_split_progress-IsSound {k} sim v =
      each-Answers (IsSound k) (update_split_cell "decay") _ _ (update_split_cell-IsSound "decay") (
        split-IsSound _ sim
          (decayed-All sim.config (split_keys sim.drones []) sim.split_progress v.books.partial) v)

  decay_replica-IsSound :
      {k : Instant Float}
      → (drone_id : String) (sim : Simulation Float) → IsSound k sim
      → Answers (IsSound k) (decay_replica drone_id sim)
  unfolding decay_replica
  decay_replica-IsSound {k} drone_id sim v =
      Answers-or_raise (IsSound k) (lookup drone_id sim.replicas) key_error _ (λ replica _.
        Answers-after (IsSound k)
          (decay_all (of_nat sim.config.tick_seconds) sim.now_ms [] replica.certainty_map) _
          (λ decayed _. replica-IsSound drone_id _ sim v))

  pub decay_maps-IsSound :
      {k : Instant Float}
      → (sim : Simulation Float) → IsSound k sim
      → Answers (IsSound k) (decay_maps sim)
  unfolding decay_maps
  decay_maps-IsSound {k} sim v =
      Answers-after (IsSound k)
        (decay_all (of_nat sim.config.tick_seconds) sim.now_ms [] sim.certainty_map) _
        (λ decayed _.
          Answers-bind (IsSound k) (IsSound k) (each decay_replica (keys sim.replicas) _)
            decay_split_progress
            (each-Answers (IsSound k) decay_replica (keys sim.replicas) _ decay_replica-IsSound
              (map-IsSound decayed sim v))
            decay_split_progress-IsSound)
