-- ===== src/Simulation/Liveness.antt =====
-- Who is lost and who comes back: `_heartbeat_tick`, `_mark_drone_stale`, `_inject_failure` and
-- `_check_recovery` of simulation/stub.py.
-- `Counter` of the drones that the observers report, one vote an observer.
use entropyhunt.Base.{
  leb, if◌then◌else◌, get_or_else, length, keep, ◌==◌, contains, add, Result, ok, ◌>>=◌, each,
  Coordinate, ℕ, ◌+◌, ◌*◌, ◌/◌, max, String, Bool, true, false, not, ◌&&◌, ◌||◌, Option, none, some,
  List, [], ◌∷◌, string_eq, nat_eq, pair_eq, int_eq,
}
use entropyhunt.Base.Text.{f_string}
use entropyhunt.Base.Dict.{Dict, lookup, insert}
use entropyhunt.Base.Numeric.{Floats}
use entropyhunt.Certainty.{CertaintyMap, cell, merge_timestamped_from}
use entropyhunt.Drone.{DroneState, mark_stale, revive}
use entropyhunt.Heartbeat.{detect_stale}
use entropyhunt.Consensus.Ballots.{confirm_release}
use entropyhunt.Failure.{FailureEvent, FailureInjector, maybe_trigger}
use entropyhunt.Simulation.{
  heartbeat_message, result_message, reclaim_message, Simulation, drone_ids, is_online, seconds,
  find_drone, change_drone, find_replica, put_replica,
}
use entropyhunt.Simulation.Traffic.{send, consume_mesh}
use entropyhunt.Base.{string_eq, nat_eq, pair_eq, int_eq}

abbrev pub count_stale : List String → Dict String ℕ → Dict String ℕ
count_stale [] votes = votes
count_stale (drone_id ∷ drone_ids') votes =
    count_stale drone_ids' (insert drone_id (get_or_else (lookup drone_id votes) 0 + 1) votes)

abbrev pub quorum_of : List String → ℕ
quorum_of observers = max 1 (length observers / 2 + 1)

module _ {F : Type 0} where
  -- The cell of a lost drone is free again.
  abbrev pub note_release : Coordinate → Simulation F → Simulation F
  note_release cell sim = record sim {
    scheduler = record sim.scheduler {
      released_cell = some cell;
      release_time_s = some (seconds sim);
    };
    priority_release_queue = add cell sim.priority_release_queue;
  }

  -- One observer's votes, whose registry remembers whom it found stale.
  unfoldable pub vote_stale :
      String → Simulation F × Dict String ℕ → Result (Simulation F × Dict String ℕ)
  vote_stale drone_id (sim, votes) = find_replica drone_id sim >>= λ replica.
      let timeout_ms = sim.config.stale_after_seconds * 1000 in
      let detected = detect_stale sim.now_ms timeout_ms replica.heartbeats in
      ok (
        put_replica drone_id (record replica { heartbeats = detected.0 }) sim,
        count_stale detected.1.stale votes,
      )

  unfoldable pub online_observers : Simulation F → List String
  online_observers sim = drone_ids (keep is_online sim.drones)

  -- What the injector answers: itself, the drones and perhaps an event, which names one of the drones.
  abbrev pub after_trigger :
      FailureInjector × List DroneState × Option FailureEvent → Simulation F → Simulation F
  after_trigger (injector, drones, none) sim = record sim {
    failure_injector = injector;
    drones = drones;
  }
  after_trigger (injector, drones, some event) sim = record sim {
    failure_injector = injector;
    drones = drones;
    dropouts = sim.dropouts + 1;
    scheduler = record sim.scheduler { failure_logged = true };
  }

  unfoldable pub inject_failure : Simulation F → Simulation F
  inject_failure sim =
      after_trigger (maybe_trigger (seconds sim) sim.failure_injector sim.drones) sim

  -- The condition under which the drone that failed is revived.
  abbrev pub is_back : Option String → Option ℕ → DroneState → Simulation F → Bool
  is_back (some fail_drone) (some fail_at) drone sim =
      (not drone.reachable || not drone.alive)
      && drone.drone_id == fail_drone
      && leb (fail_at + 20) (seconds sim)
      && not (contains sim.recovered_drones drone.drone_id)
  is_back _ _ drone sim = false

  unfoldable pub recover : String → Simulation F → Result (Simulation F)
  unfolding seconds
  recover drone_id sim = find_drone drone_id sim >>= λ drone.
      let recovered = change_drone drone_id (revive drone.position) sim in
      ok (
        if is_back sim.config.fail_drone sim.config.fail_at drone sim
        then record recovered { recovered_drones = add drone_id sim.recovered_drones }
        else sim)

  unfoldable pub check_recovery : Simulation F → Result (Simulation F)
  check_recovery sim = each recover (drone_ids sim.drones) sim

module _ ⦃fl : Floats⦄ where
  open fl use {Float}

  -- The claimed cell of a stale drone is released in a round.
  unfoldable pub release_claim : String → Option Coordinate → Simulation Float → Simulation Float
  unfolding seconds
  release_claim drone_id none sim = sim
  release_claim drone_id (some cell) sim =
      let confirmed = confirm_release drone_id cell (some sim.now_ms) sim.resolver in
      let round = confirmed.1 in
      note_release cell (
        send (f_string ("swarm/consensus_result/" ∷ round.contest_id ∷ []))
          (result_message round drone_id) "simulation" (record sim { resolver = confirmed.0 }))

  -- A survivor takes over what the lost drone has seen.
  unfoldable pub inherit_map :
      String → CertaintyMap Float → String → Simulation Float → Result (Simulation Float)
  inherit_map lost dead_map drone_id sim = find_drone drone_id sim >>= λ survivor.
      if survivor.alive && not (drone_id == lost)
      then (find_replica drone_id sim >>= λ replica.
          merge_timestamped_from dead_map replica.certainty_map >>= λ merged.
          ok (put_replica drone_id (record replica { certainty_map = merged }) sim))
      else ok sim

  unfoldable pub announce_reclaim : String → Option Coordinate → Simulation Float → Simulation Float
  announce_reclaim drone_id none sim = sim
  announce_reclaim drone_id (some cell) sim =
      send "swarm/zone_reclaim" (reclaim_message drone_id cell "dropout_reallocation") "simulation"
        sim

  unfoldable pub lose_drone : DroneState → Simulation Float → Result (Simulation Float)
  lose_drone drone sim =
      let lost = drone.drone_id in
      let marked = change_drone lost mark_stale (release_claim lost drone.claimed_cell sim) in
      find_replica lost marked >>= λ replica.
      each (inherit_map lost replica.certainty_map) (drone_ids marked.drones) marked
      >>= λ inherited. ok (announce_reclaim lost drone.claimed_cell inherited)

  unfoldable pub mark_drone_stale : String → Simulation Float → Result (Simulation Float)
  mark_drone_stale drone_id sim =
      find_drone drone_id sim >>= λ drone. if not drone.alive then ok sim else lose_drone drone sim

  unfoldable pub send_heartbeat : String → Simulation Float → Result (Simulation Float)
  send_heartbeat drone_id sim = find_drone drone_id sim >>= λ drone. ok (
      if is_online drone
      then send (f_string ("swarm/heartbeat/" ∷ drone_id ∷ []))
          (heartbeat_message drone_id drone.position) drone_id sim
      else sim)

  -- A drone that a quorum of the observers reports is lost.
  unfoldable pub judge_drone :
      ℕ → Dict String ℕ → String → Simulation Float → Result (Simulation Float)
  judge_drone quorum votes drone_id sim = find_drone drone_id sim >>= λ drone.
      if drone.alive && leb quorum (get_or_else (lookup drone_id votes) 0)
      then mark_drone_stale drone_id sim
      else ok sim

  unfoldable pub heartbeat_tick : Simulation Float → Result (Simulation Float)
  heartbeat_tick sim = each send_heartbeat (drone_ids sim.drones) sim >>= consume_mesh >>= λ heard.
      let observers = online_observers heard in
      each vote_stale observers (heard, []) >>= λ voted.
      each (judge_drone (quorum_of observers) voted.1) (drone_ids voted.0.drones) voted.0
