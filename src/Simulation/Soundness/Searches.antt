-- ===== src/Simulation/Soundness/Searches.antt =====
-- Moving and searching keeps the state of the simulation sound: simulation/stub.py.
use entropyhunt.Base.{
  if◌then◌else◌, Bool-cases, first, ◌==◌, key_error, each, Answers, Answers-after, Answers-or_raise,
  Answers-bind, each-Answers, Coordinate, ◌/◌, ◌≤◌, String, ◌≡◌, refl, inl, inr, Bool, true, false,
  not, ◌||◌, Option, none, some, arith, string_eq, nat_eq, pair_eq, int_eq,
}
use entropyhunt.Base.Dict.{lookup}
use entropyhunt.Base.Numeric.{Floats}
use entropyhunt.Drone.{idle, searching, DroneState, clear_assignment, step_towards_target}
use entropyhunt.Simulation.{Simulation, drone_ids, is_online, change_drone}
use entropyhunt.Simulation.Search.{
  settle_status, count_search, certainty_at, update_split_cell, broadcast_receipt,
  broadcast_survivor_receipts, search_whole, search_half, search_cell, finds_survivor,
  report_survivor, is_complete, complete_cell, search_target, move_drone, act, take_turn,
  move_and_search,
}
use entropyhunt.Simulation.Soundness.{Instant, IsSound, send-IsSound}
use entropyhunt.Simulation.Soundness.Assignments.{change_drone-IsSound, status-IsSound}
use entropyhunt.Certainty.{set_certainty, update_cell}
use entropyhunt.Simulation.Traffic.{consume_mesh}
use entropyhunt.Simulation.Assignment.{with_status}
use entropyhunt.Simulation.Soundness.Messages.{consume_mesh-IsSound}
use entropyhunt.Simulation.Soundness.Decay.{
  settle_status-IsConsistent, settle_status-id, on_target-IsConsistent, count_search-IsConsistent,
  step-IsConsistent, step_towards_target-id, first-settled, FirstSound, replica-IsSound,
  update_split_cell-IsSound, min-le-one, insert-All, split-IsSound,
}

module _ ⦃fl : Floats⦄ where
  open fl use {Float, lt, zero_f, one, of_nat}

  broadcast_receipt-IsSound :
      {k : Instant Float}
      → (source_drone_id : String) (p : Coordinate) (drone_id : String) (sim : Simulation Float)
      → IsSound k sim
      → Answers (IsSound k) (broadcast_receipt source_drone_id p drone_id sim)
  unfolding broadcast_receipt
  broadcast_receipt-IsSound {k} source_drone_id p drone_id sim v =
      Answers-or_raise (IsSound k) (first (λ d. d.drone_id == drone_id) sim.drones) key_error _
        (λ drone _. elim (Bool-cases (not (is_online drone) || drone_id == source_drone_id)) [
          | inl e ↦ rw e v
          | inr e ↦ rw e (send-IsSound _ _ drone_id sim v)
        ])

  search_whole-IsSound :
      {k : Instant Float}
      → (drone_id : String) (p : Coordinate) (sim : Simulation Float) → IsSound k sim
      → Answers (FirstSound k) (search_whole drone_id p sim)
  unfolding search_whole
  search_whole-IsSound {k} drone_id p sim v =
      Answers-or_raise (FirstSound k) (lookup drone_id sim.replicas) key_error _ (λ replica _.
        Answers-after (FirstSound k)
          (update_cell p drone_id sim.config.search_increment sim.now_ms replica.certainty_map) _
          (λ updated _.
            Answers-after (FirstSound k) (certainty_at p updated) _
              (λ certainty _. replica-IsSound drone_id _ sim v)))

  search_half-IsSound :
      {k : Instant Float}
      → (drone_id : String) (p : Coordinate) (subzone : String) (sim : Simulation Float)
      → IsSound k sim
      → Answers (FirstSound k) (search_half drone_id p subzone sim)
  unfolding search_half
  search_half-IsSound {k} drone_id p subzone sim v =
      Answers-after (FirstSound k) (certainty_at p sim.certainty_map) _ (λ known _.
        Answers-bind (IsSound k) (FirstSound k) (update_split_cell drone_id p _) _
          (update_split_cell-IsSound drone_id p _ (
            split-IsSound _ sim
              (insert-All (p, subzone) _ sim.split_progress (min-le-one _) v.books.partial) v))
          (λ updated w.
            Answers-after (FirstSound k) (certainty_at p updated.certainty_map) _ (λ certainty _.
              Answers-or_raise (FirstSound k) (lookup drone_id updated.replicas) key_error _
                (λ replica _.
                  Answers-after (FirstSound k)
                    (set_certainty p certainty drone_id sim.now_ms replica.certainty_map) _
                    (λ seen _. replica-IsSound drone_id _ updated w)))))

  search_cell-IsSound :
      {k : Instant Float}
      → (drone_id : String) (p : Coordinate) (subzone : Option String) (sim : Simulation Float)
      → IsSound k sim
      → Answers (FirstSound k) (search_cell drone_id p subzone sim)
  unfolding search_cell
  search_cell-IsSound {k} drone_id p none sim v = search_whole-IsSound drone_id p sim v
  search_cell-IsSound {k} drone_id p (some subzone) sim v =
      search_half-IsSound drone_id p subzone sim v

  report_survivor-IsSound :
      {k : Instant Float}
      → (drone_id : String) (p : Coordinate) (certainty : Float) (sim : Simulation Float)
      → IsSound k sim
      → Answers (IsSound k) (report_survivor drone_id p certainty sim)
  unfolding report_survivor broadcast_survivor_receipts
  report_survivor-IsSound {k} drone_id p certainty sim v =
      elim (Bool-cases (finds_survivor p certainty sim)) [
        | inr e ↦ rw e v
        | inl e ↦
            let unlocked : sim.scheduler.target_unlock_at_s ≤ sim.now_ms / 1000 =
              unfold finds_survivor in ground arith in
            let found : IsSound k (record sim { survivor_found = true }) = ground arith in
            rw e (
              each-Answers (IsSound k) (broadcast_receipt drone_id p) _ _
                (broadcast_receipt-IsSound drone_id p)
                (send-IsSound "swarm/survivor_found" _ drone_id _ found))
      ]

  complete_cell-IsSound :
      {k : Instant Float}
      → (drone_id : String) (p : Coordinate) (subzone : Option String) (certainty : Float)
        (sim : Simulation Float)
      → IsSound k sim
      → Answers (IsSound k) (complete_cell drone_id p subzone certainty sim)
  unfolding complete_cell clear_assignment
  complete_cell-IsSound {k} drone_id p subzone certainty sim v =
      Answers-after (IsSound k) (is_complete p subzone certainty sim) _
        (λ done _. completes done (ground arith))
    where
      completes :
          (done : Bool) {s : Simulation Float}
          → IsSound k s
          → IsSound k (if done then change_drone drone_id clear_assignment s else sim)
      completes true w =
          change_drone-IsSound drone_id clear_assignment _ (λ d _ u. ground arith) (λ d. refl) w
      completes false w = v

  search_target-IsSound :
      {k : Instant Float}
      → (drone : DroneState) (p : Coordinate) (sim : Simulation Float)
      → first (λ d. d.drone_id == drone.drone_id) sim.drones ≡ some drone
      → drone.target_cell ≡ some p
      → drone.position ≡ p
      → IsSound k sim
      → Answers (IsSound k) (search_target drone p sim)
  unfolding search_target
  search_target-IsSound {k} drone p sim found heads there v =
      let drone_id = drone.drone_id in
      let arrived = change_drone drone_id (with_status searching) sim in
      let arrived-IsSound : IsSound k arrived =
        change_drone-IsSound drone_id (with_status searching) sim
          (λ d e w. on_target-IsConsistent d p (ground arith) (ground arith) w) (λ d. refl) v in
      Answers-bind (FirstSound k) (IsSound k) (search_cell drone_id p drone.subzone arrived) _
        (search_cell-IsSound drone_id p drone.subzone arrived arrived-IsSound)
        (λ searched w.
          let counted-IsSound =
            change_drone-IsSound drone_id count_search searched.0
              (λ d _ u. count_search-IsConsistent d u) (λ d. refl) w in
          Answers-bind (IsSound k) (IsSound k) (report_survivor drone_id p searched.1 _) _
            (report_survivor-IsSound drone_id p searched.1 _
              (send-IsSound "swarm/certainty_map" _ drone_id _ counted-IsSound))
            (λ reported u. complete_cell-IsSound drone_id p drone.subzone searched.1 reported u))

  move_drone-IsSound :
      {k : Instant Float}
      → (drone : DroneState) (p : Coordinate) (sim : Simulation Float) → IsSound k sim
      → IsSound k (move_drone drone p sim)
  unfolding move_drone
  move_drone-IsSound {k} drone p sim v = send-IsSound _ _ drone.drone_id _ (
      change_drone-IsSound drone.drone_id step_towards_target sim (λ d _ w. step-IsConsistent d w)
        step_towards_target-id v)

  act-IsSound :
      {k : Instant Float}
      → (drone : DroneState) (target : Option Coordinate) (sim : Simulation Float)
      → first (λ d. d.drone_id == drone.drone_id) sim.drones ≡ some drone
      → drone.target_cell ≡ target
      → IsSound k sim
      → Answers (IsSound k) (act drone target sim)
  unfolding act
  act-IsSound {k} drone none sim found heads v =
      status-IsSound drone.drone_id idle sim (λ k. ground arith) v
  act-IsSound {k} drone (some p) sim found heads v = elim (Bool-cases (drone.position == p)) [
    | inl e ↦ rw e (search_target-IsSound drone p sim found heads (ground arith) v)
    | inr e ↦ rw e (move_drone-IsSound drone p sim v)
  ]

  take_turn-IsSound :
      {k : Instant Float}
      → (drone_id : String) (sim : Simulation Float) → IsSound k sim
      → Answers (IsSound k) (take_turn drone_id sim)
  unfolding take_turn
  take_turn-IsSound {k} drone_id sim v =
      Answers-or_raise (IsSound k) (first (λ d. d.drone_id == drone_id) sim.drones) key_error _
        (λ drone e. elim (Bool-cases (is_online drone)) [
          | inr b ↦ rw b v
          | inl b ↦ rw b (
              act-IsSound (settle_status drone) (settle_status drone).target_cell
                (change_drone drone_id settle_status sim)
                (first-settled drone_id drone sim.drones e) refl
                (change_drone-IsSound drone_id settle_status sim
                  (λ d _. settle_status-IsConsistent d) settle_status-id v))
        ])

  pub move_and_search-IsSound :
      {k : Instant Float}
      → (sim : Simulation Float) → IsSound k sim
      → Answers (IsSound k) (move_and_search sim)
  unfolding move_and_search
  move_and_search-IsSound {k} sim v =
      Answers-bind (IsSound k) (IsSound k) (each take_turn (drone_ids sim.drones) sim) consume_mesh
        (each-Answers (IsSound k) take_turn (drone_ids sim.drones) sim take_turn-IsSound v)
        consume_mesh-IsSound
