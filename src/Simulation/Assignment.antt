-- ===== src/Simulation/Assignment.antt =====
-- Claims, assignments and the two queues of cells with priority: simulation/stub.py. A drone in a list of
-- drones is its id, since the list holds the drones of the simulation themselves.
use entropyhunt.Base.{
  ltb, leb, if◌then◌else◌, is_some, length, keep, all, ◌==◌, contains, Result, ok, ◌>>=◌,
  Coordinate, ℕ, ◌+◌, String, Bool, true, false, not, ◌&&◌, Option, none, some, List, [], ◌∷◌, ◌++◌,
  string_eq, nat_eq, pair_eq, int_eq,
}
use entropyhunt.Base.Int.{gap}
use entropyhunt.Base.Order.{lex, by_key}
use entropyhunt.Base.Sort.{least}
use entropyhunt.Base.Text.{text_lt, show_ℕ, show_ℤ, f_string}
use entropyhunt.Base.Numeric.{Floats}
use entropyhunt.Certainty.{cells, cell}
use entropyhunt.Drone.{
  DroneStatus, idle, computing, claim_won, claim_lost, DroneState, set_assignment, clear_assignment,
}
use entropyhunt.Auction.{ClaimRequest, ZoneAssignment, assignment}
use entropyhunt.Consensus.{ConsensusRoundResult}
use entropyhunt.Simulation.{
  claim_message, Simulation, drone_ids, is_online, seconds, find_drone, change_drone,
}
use entropyhunt.Simulation.Traffic.{send}

abbrev pub with_status : DroneStatus → DroneState → DroneState
with_status status drone = record drone { status = status }

-- `assignment.reason in {"winner", "split", "priority_reclaim", "priority_target"}`
abbrev pub is_won : String → Bool
is_won reason = contains ("winner" ∷ "split" ∷ "priority_reclaim" ∷ "priority_target" ∷ []) reason

-- What an assignment does to its drone.
abbrev pub take_assignment : ZoneAssignment → DroneState → DroneState
take_assignment a drone =
    with_status (if is_won a.reason then claim_won else claim_lost)
      (set_assignment a.cell a.subzone drone)

abbrev pub is_idle : DroneState → Bool
is_idle drone = is_online drone && not (is_some drone.target_cell)

abbrev pub is_cell : Coordinate → Option Coordinate → Bool
is_cell cell none = false
is_cell cell (some other_cell) = other_cell == cell

-- The distance along the axes.
abbrev pub steps_to : Coordinate → DroneState → ℕ
steps_to cell drone = gap drone.position.0 cell.0 + gap drone.position.1 cell.1

-- The released cell is waited for since a second at least.
abbrev pub is_due : Option ℕ → ℕ → Bool
is_due none now = false
is_due (some release_time) now = leb (release_time + 1) now

abbrev pub differs : String → Option String → Bool
differs drone_id none = true
differs drone_id (some fail_drone) = not (drone_id == fail_drone)

module _ {F : Type 0} where
  unfoldable pub blocked_zones : Simulation F → List Coordinate
  unfolding seconds
  blocked_zones sim =
      let unlock = sim.scheduler.target_unlock_at_s in
      let target = sim.config.target in
      if ltb 0 unlock && ltb (seconds sim) unlock && not (contains sim.completed_cells target)
      then target ∷ []
      else []

  -- The round's number is counted by the resolver.
  unfoldable pub log_round : ConsensusRoundResult → Simulation F → Simulation F
  log_round round sim = record sim {
    auctions = sim.auctions + (if ltb 1 (length round.assignments) then 1 else 0);
  }

  -- The released cell is reclaimed with the first assignment to it.
  abbrev pub note_reclaim : Coordinate → Simulation F → Simulation F
  note_reclaim cell sim =
      if is_cell cell sim.scheduler.released_cell && not (is_some sim.scheduler.reclaimed_time_s)
      then record sim { scheduler = record sim.scheduler { reclaimed_time_s = some (seconds sim) } }
      else sim

  unfoldable pub apply_assignment : ZoneAssignment → Simulation F → Result (Simulation F)
  unfolding seconds
  apply_assignment a sim = find_drone a.drone_id sim >>= λ drone. ok (
      if a.reason == "idle"
      then change_drone a.drone_id (with_status idle) sim
      else note_reclaim a.cell (change_drone a.drone_id (take_assignment a) sim))

  unfoldable pub nearest_helper : Coordinate → Simulation F → Option DroneState
  nearest_helper cell sim =
      least (lex (by_key ltb (steps_to cell)) (by_key text_lt (λ d. d.drone_id)))
        (keep (λ d. is_online d && differs d.drone_id sim.config.fail_drone) sim.drones)

  abbrev pub free_helper :
      Option DroneState → List String → Simulation F → Simulation F × List String
  free_helper none idle_drones sim = (sim, idle_drones)
  free_helper (some drone) idle_drones sim =
      (change_drone drone.drone_id clear_assignment sim, drone.drone_id ∷ [])

  -- Where nobody is idle, the nearest drone that is not the one planned to fail is freed for the first
  -- cell of the queue.
  unfoldable pub recruit : List String → Simulation F → Simulation F × List String
  unfolding seconds
  recruit (drone_id ∷ drone_ids) sim = (sim, drone_id ∷ drone_ids)
  recruit [] sim = elim sim.priority_release_queue [
    | [] ↦ (sim, [])
    | cell ∷ rest ↦
        if is_due sim.scheduler.release_time_s (seconds sim)
        then free_helper (nearest_helper cell sim) [] sim
        else (sim, [])
  ]

  -- The released cell is queued again where nobody has reclaimed it in time.
  unfoldable pub force_reclaim : Simulation F → Simulation F
  unfolding seconds
  force_reclaim sim = elim sim.scheduler.released_cell [
    | none ↦ sim
    | some cell ↦
        if not (is_some sim.scheduler.reclaimed_time_s)
          && leb sim.scheduler.reclaim_force_at_s (seconds sim)
          && not (contains sim.priority_release_queue cell)
        then record sim { priority_release_queue = cell ∷ sim.priority_release_queue }
        else sim
  ]

  -- The target is queued where nobody has gone there in time.
  unfoldable pub force_target : Simulation F → Simulation F
  unfolding seconds
  force_target sim =
      let target = sim.config.target in
      if not sim.survivor_found
        && leb sim.scheduler.target_force_at_s (seconds sim)
        && not (contains sim.completed_cells target)
        && all (λ d. not (is_cell target d.target_cell)) (keep is_online sim.drones)
        && not (contains sim.priority_target_queue target)
      then record sim {
        scheduler = record sim.scheduler { target_priority_armed = true };
        priority_target_queue = sim.priority_target_queue ++ (target ∷ []);
      }
      else sim

module _ ⦃fl : Floats⦄ where
  open fl use {Float}

  unfoldable pub create_claim :
      String → Coordinate → Simulation Float → Result (Simulation Float × ClaimRequest)
  create_claim drone_id cell sim = find_drone drone_id sim >>= λ drone.
      let claim : ClaimRequest = record {
        claim_id =
            f_string
              (drone_id ∷ ":" ∷ show_ℤ cell.0 ∷ ":" ∷ show_ℤ cell.1 ∷ ":" ∷ show_ℕ sim.now_ms ∷ []);
        drone_id = drone_id;
        cell = cell;
        position = drone.position;
        timestamp_ms = sim.now_ms;
      } in
      ok (
        change_drone drone_id (with_status computing)
            (send "swarm/zone_claims" (claim_message claim) drone_id sim),
        claim,
      )

  -- A cell of a queue goes to a drone without a contest.
  unfoldable pub serve : String → String → Coordinate → Simulation Float → Result (Simulation Float)
  serve reason drone_id cell sim = create_claim drone_id cell sim >>= λ claimed.
      apply_assignment (assignment drone_id cell reason none) claimed.0

  -- The first cells of the queue go to the first idle drones, as long as there are both.
  unfoldable pub serve_releases :
      List Coordinate → List String → Simulation Float → Result (Simulation Float × List String)
  serve_releases [] idle_drones sim = ok (sim, idle_drones)
  serve_releases (cell ∷ cells) [] sim = ok (sim, [])
  serve_releases (cell ∷ cells) (drone_id ∷ idle_drones) sim =
      serve "priority_reclaim" drone_id cell (record sim { priority_release_queue = cells })
      >>= serve_releases cells idle_drones

  unfoldable pub process_priority_release_queue :
      List String → Simulation Float → Result (Simulation Float × List String)
  process_priority_release_queue idle_drones sim =
      let recruited = recruit idle_drones sim in
      serve_releases recruited.0.priority_release_queue recruited.1 recruited.0

  unfoldable pub serve_targets :
      List Coordinate → List String → Simulation Float → Result (Simulation Float × List String)
  serve_targets [] idle_drones sim = ok (sim, idle_drones)
  serve_targets (cell ∷ cells) [] sim = ok (sim, [])
  serve_targets (cell ∷ cells) (drone_id ∷ idle_drones) sim =
      serve "priority_target" drone_id cell (record sim { priority_target_queue = cells })
      >>= serve_targets cells idle_drones

  unfoldable pub process_priority_target_queue :
      List String → Simulation Float → Result (Simulation Float × List String)
  process_priority_target_queue idle_drones sim =
      serve_targets sim.priority_target_queue idle_drones sim
