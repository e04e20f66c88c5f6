-- ===== src/Simulation/Soundness/Assignments.antt =====
-- Assigning cells keeps the state of the simulation sound: simulation/stub.py.
use entropyhunt.Base.{
  Bool-cases, first, ◌==◌, key_error, Result, ◌>>=◌, Answers, Answers-or_raise, Answers-bind,
  Coordinate, ◌/◌, String, ◌≡◌, refl, ◌≢◌, inl, inr, Option, none, some, List, [], ◌∷◌, arith,
  string_eq, nat_eq, pair_eq, int_eq,
}
use entropyhunt.Base.Numeric.{Floats}
use entropyhunt.Certainty.{cells}
use entropyhunt.Drone.{
  DroneStatus, idle, computing, searching, DroneState, set_assignment, clear_assignment,
}
use entropyhunt.Auction.{ZoneAssignment, assignment}
use entropyhunt.Drone.Assignment.{IsConsistent}
use entropyhunt.Simulation.{Simulation, change_drone}
use entropyhunt.Simulation.Assignment.{
  with_status, take_assignment, is_due, note_reclaim, apply_assignment, nearest_helper, free_helper,
  recruit, create_claim, serve, serve_releases, process_priority_release_queue, serve_targets,
  process_priority_target_queue,
}
use entropyhunt.Simulation.Soundness.{update_drone-IsFleet, Instant, IsSound, send-IsSound}

take_assignment-IsConsistent :
    (a : ZoneAssignment) (d : DroneState) → IsConsistent d → IsConsistent (take_assignment a d)
unfolding set_assignment
take_assignment-IsConsistent a d v = ground arith

-- A status other than "searching".
with_status-IsConsistent :
    (status : DroneStatus) (d : DroneState)
    → status ≢ searching
    → IsConsistent d
    → IsConsistent (with_status status d)
with_status-IsConsistent status d n v = record {
  heading = v.heading;
  zoned = v.zoned;
  on_site = λ e. absurd (n e);
  dead = v.dead;
}

module _ ⦃fl : Floats⦄ where
  open fl use {Float}

  -- A change of a found drone.
  pub change_drone-IsSound :
      {k : Instant Float}
      → (drone_id : String) (change : DroneState → DroneState) (sim : Simulation Float)
      → ((d : DroneState)
          → first (λ d. d.drone_id == drone_id) sim.drones ≡ some d
          → IsConsistent d
          → IsConsistent (change d))
      → ((d : DroneState) → (change d).drone_id ≡ d.drone_id)
      → IsSound k sim
      → IsSound k (change_drone drone_id change sim)
  change_drone-IsSound {k} drone_id change sim keeps same v =
      let fleet = update_drone-IsFleet drone_id change sim.peer_ids sim.drones keeps same v.fleet in
      let books = v.books in record { fleet = fleet; books = ground arith }

  pub status-IsSound :
      {k : Instant Float}
      → (drone_id : String) (status : DroneStatus) (sim : Simulation Float) → status ≢ searching
      → IsSound k sim
      → IsSound k (change_drone drone_id (with_status status) sim)
  status-IsSound {k} drone_id status sim n v =
      change_drone-IsSound drone_id (with_status status) sim
        (λ d e. with_status-IsConsistent status d n) (λ d. refl) v

  note_reclaim-IsSound :
      {k : Instant Float}
      → (p : Coordinate) (sim : Simulation Float) → IsSound k sim
      → IsSound k (note_reclaim p sim)
  note_reclaim-IsSound {k} p sim v = ground arith

  pub apply_assignment-IsSound :
      {k : Instant Float}
      → (a : ZoneAssignment) (sim : Simulation Float) → IsSound k sim
      → Answers (IsSound k) (apply_assignment a sim)
  unfolding apply_assignment set_assignment
  apply_assignment-IsSound {k} a sim v =
      Answers-or_raise (IsSound k) (first (λ d. d.drone_id == a.drone_id) sim.drones) key_error _
        (λ drone e. elim (Bool-cases (a.reason == "idle")) [
          | inl i ↦ rw i (status-IsSound a.drone_id idle sim (λ k. ground arith) v)
          | inr i ↦ rw i (
              note_reclaim-IsSound a.cell (change_drone a.drone_id (take_assignment a) sim) (
                change_drone-IsSound a.drone_id (take_assignment a) sim
                  (λ d _. take_assignment-IsConsistent a d) (λ d. refl) v))
        ])

  pub create_claim-IsSound :
      {k : Instant Float}
      → (drone_id : String) (p : Coordinate) (sim : Simulation Float) → IsSound k sim
      → Answers (λ r. IsSound k r.0) (create_claim drone_id p sim)
  unfolding create_claim
  create_claim-IsSound {k} drone_id p sim v =
      Answers-or_raise (λ r. IsSound k r.0) (first (λ d. d.drone_id == drone_id) sim.drones)
        key_error _
        (λ drone e.
          status-IsSound drone_id computing _ (λ k. ground arith)
            (send-IsSound "swarm/zone_claims" _ drone_id sim v))

  serve-IsSound :
      {k : Instant Float}
      → (reason drone_id : String) (p : Coordinate) (sim : Simulation Float) → IsSound k sim
      → Answers (IsSound k) (serve reason drone_id p sim)
  unfolding serve
  serve-IsSound {k} reason drone_id p sim v =
      Answers-bind (λ r. IsSound k r.0) (IsSound k) (create_claim drone_id p sim) _
        (create_claim-IsSound drone_id p sim v)
        (λ r w. apply_assignment-IsSound (assignment drone_id p reason none) r.0 w)

  serve_releases-IsSound :
      {k : Instant Float}
      → (cells : List Coordinate) (idle_drones : List String) (sim : Simulation Float)
      → IsSound k sim
      → Answers (λ r. IsSound k r.0) (serve_releases cells idle_drones sim)
  unfolding serve_releases
  serve_releases-IsSound {k} [] idle_drones sim v = v
  serve_releases-IsSound {k} (p ∷ cells) [] sim v = v
  serve_releases-IsSound {k} (p ∷ cells) (drone_id ∷ idle_drones) sim v =
      let left = record sim { priority_release_queue = cells } in
      Answers-bind (IsSound k) (λ r. IsSound k r.0) (serve "priority_reclaim" drone_id p left) _
        (serve-IsSound "priority_reclaim" drone_id p left (ground arith))
        (λ served w. serve_releases-IsSound cells idle_drones served w)

  serve_targets-IsSound :
      {k : Instant Float}
      → (cells : List Coordinate) (idle_drones : List String) (sim : Simulation Float)
      → IsSound k sim
      → Answers (λ r. IsSound k r.0) (serve_targets cells idle_drones sim)
  unfolding serve_targets
  serve_targets-IsSound {k} [] idle_drones sim v = v
  serve_targets-IsSound {k} (p ∷ cells) [] sim v = v
  serve_targets-IsSound {k} (p ∷ cells) (drone_id ∷ idle_drones) sim v =
      let left = record sim { priority_target_queue = cells } in
      Answers-bind (IsSound k) (λ r. IsSound k r.0) (serve "priority_target" drone_id p left) _
        (serve-IsSound "priority_target" drone_id p left (ground arith))
        (λ served w. serve_targets-IsSound cells idle_drones served w)

  free_helper-IsSound :
      {k : Instant Float}
      → (helper : Option DroneState) (idle_drones : List String) (sim : Simulation Float)
      → IsSound k sim
      → IsSound k (free_helper helper idle_drones sim).0
  unfolding clear_assignment
  free_helper-IsSound {k} none idle_drones sim v = v
  free_helper-IsSound {k} (some drone) idle_drones sim v =
      change_drone-IsSound drone.drone_id clear_assignment sim (λ d e w. ground arith) (λ d. refl) v

  recruit-IsSound :
      {k : Instant Float}
      → (idle_drones : List String) (sim : Simulation Float) → IsSound k sim
      → IsSound k (recruit idle_drones sim).0
  unfolding recruit
  recruit-IsSound {k} (drone_id ∷ drone_ids') sim v = v
  recruit-IsSound {k} [] sim v = go sim.priority_release_queue refl
    where
      go :
          (queue : List Coordinate)
          → sim.priority_release_queue ≡ queue
          → IsSound k (recruit [] sim).0
      go [] e = rw (e, recruit) v
      go (p ∷ cells) e =
          elim (Bool-cases (is_due sim.scheduler.release_time_s (sim.now_ms / 1000))) [
            | inl due ↦ rw (e, due, recruit) (free_helper-IsSound (nearest_helper p sim) [] sim v)
            | inr early ↦ rw (e, early, recruit) v
          ]

  -- The two queues, and what follows on them.
  pub queues-IsSound :
      {k : Instant Float}
      → (idle_drones : List String) (sim : Simulation Float)
        (next : List String → Simulation Float → Result (Simulation Float))
      → ((ids : List String) (s : Simulation Float)
          → IsSound k s
          → Answers (IsSound k) (next ids s))
      → IsSound k sim
      → Answers (IsSound k) (
          process_priority_release_queue idle_drones sim >>= λ reclaimed.
          process_priority_target_queue reclaimed.1 reclaimed.0 >>= λ targeted.
          next targeted.1 targeted.0)
  unfolding process_priority_release_queue process_priority_target_queue
  queues-IsSound {k} idle_drones sim next keeps v =
      let recruited = recruit idle_drones sim in
      Answers-bind (λ r. IsSound k r.0) (IsSound k)
        (serve_releases recruited.0.priority_release_queue recruited.1 recruited.0) _
        (serve_releases-IsSound recruited.0.priority_release_queue recruited.1 recruited.0
          (recruit-IsSound idle_drones sim v))
        (λ r w.
          Answers-bind (λ r. IsSound k r.0) (IsSound k)
            (serve_targets r.0.priority_target_queue r.1 r.0) _
            (serve_targets-IsSound r.0.priority_target_queue r.1 r.0 w) (λ t u. keeps t.1 t.0 u))
