-- ===== src/Simulation.antt =====
-- simulation/stub.py, simulation/scheduler.py and simulation/base_config.py: the state of the simulation of
-- a whole swarm in one process. The configured in-process bus stands behind a network injector, which
-- passes everything where no loss is configured. What comes from outside is the `World`: the random draws
-- and, for each round of votes, the order and the polls of the voting threads.
pub mod Traffic
pub mod Assignment
pub mod Contention
pub mod Liveness
pub mod Search
pub mod Run
pub mod Soundness
use entropyhunt.Base.{
  if◌then◌else◌, first, tabulate, ◌==◌, key_error, Result, ok, or_raise, ◌>>=◌, each, Coordinate, ℕ,
  ◌+◌, ◌/◌, max, String, Bool, false, ◌&&◌, Option, none, some, List, [], ◌∷◌, ◌++◌, map, string_eq,
  nat_eq, pair_eq, int_eq,
}
use entropyhunt.Base.Dict.{Dict, lookup, insert}
use entropyhunt.Base.Numeric.{Floats, min_f}
use entropyhunt.Certainty.{CertaintyMap, new_map, cell}
use entropyhunt.Base.Text.{show_ℕ, f_string}
use entropyhunt.Drone.Spread.{spread_starting_position}
use entropyhunt.Mesh.{InMemoryMeshBus, default_message_cap, new_bus, subscribe, count}
use entropyhunt.Heartbeat.{HeartbeatRegistry, empty}
use entropyhunt.Drone.{DroneStatus, DroneState, new_drone}
use entropyhunt.Auction.{ClaimRequest}
use entropyhunt.Consensus.{
  ConsensusRoundResult, Payload, consensus_vote, other, DeterministicResolver, new_resolver,
  subscribe_peers,
}
use entropyhunt.Consensus.Ballots.{Schedule}
use entropyhunt.Failure.{FailureInjector}
use entropyhunt.Failure.Network.{NetworkInjector, new_injector}

pub record SimulationConfig (F : Type 0) : Type 0 where
  pub grid : ℕ
  pub duration : ℕ
  pub tick_seconds : ℕ
  pub search_increment : F
  pub completion_certainty : F
  pub decay_rate : F
  pub stale_after_seconds : ℕ
  pub target : Coordinate
  pub stop_on_survivor : Bool
  pub proofs_path : String
  pub drones : ℕ
  pub fail_drone : Option String
  pub fail_at : Option ℕ
  pub seed : ℕ
  pub final_map_path : String
  pub packet_loss : F
  pub jitter_ms : F
  pub transport : String

pub record MilestoneScheduler : Type 0 where
  pub contention_deadline_s : ℕ
  pub failure_at_s : ℕ
  pub reclaim_force_at_s : ℕ
  pub target_unlock_at_s : ℕ
  pub target_force_at_s : ℕ
  pub survivor_deadline_s : ℕ
  pub contention_cell : Option Coordinate
  pub contention_complete : Bool
  pub failure_logged : Bool
  pub released_cell : Option Coordinate
  pub release_time_s : Option ℕ
  pub reclaimed_time_s : Option ℕ
  pub target_priority_armed : Bool

pub record DroneReplica (F : Type 0) : Type 0 where
  pub certainty_map : CertaintyMap F
  pub heartbeats : HeartbeatRegistry

-- The payloads that the simulation publishes; each is named after its topic.
pub data SimMessage (F : Type 0) : Type 0 where
  heartbeat_message : String → Coordinate → SimMessage F
  certainty_message : String → Coordinate → F → SimMessage F
  claim_message : ClaimRequest → SimMessage F
  result_message : ConsensusRoundResult → String → SimMessage F
  reclaim_message : String → Coordinate → String → SimMessage F
  state_message : String → Coordinate → Coordinate → DroneStatus → SimMessage F
  survivor_message : Coordinate → F → String → SimMessage F
  survivor_ack_message : String → String → Coordinate → SimMessage F
  hello_message : String → Coordinate → SimMessage F

abbrev pub SimPayload : Type 0 → Type 0
SimPayload F = Payload (SimMessage F)

-- `payload["drone_id"]`, where the payload has that key.
abbrev pub drone_id_of : {F : Type 0} → SimPayload F → Option String
drone_id_of (consensus_vote vote round_id) = some vote.voter_id
drone_id_of (other contest_id (heartbeat_message drone_id position)) = some drone_id
drone_id_of (other contest_id (claim_message claim)) = some claim.drone_id
drone_id_of (other contest_id (state_message drone_id position target status)) = some drone_id
drone_id_of (other contest_id (survivor_message cell confidence drone_id)) = some drone_id
drone_id_of (other contest_id (survivor_ack_message drone_id source_drone_id cell)) = some drone_id
drone_id_of (other contest_id (hello_message drone_id position)) = some drone_id
drone_id_of _ = none

-- The keys "updated_by", "cell" and "certainty" of a payload, where it has all of them.
abbrev pub certainty_of : {F : Type 0} → SimPayload F → Option (String × Coordinate × F)
certainty_of (other contest_id (certainty_message updated_by cell certainty)) =
    some (updated_by, cell, certainty)
certainty_of _ = none

-- The contest that a message names.
abbrev pub contest_of : {F : Type 0} → SimMessage F → Option String
contest_of (result_message result released_by) = some result.contest_id
contest_of _ = none

pub record World (F : Type 0) : Type 0 where
  pub draw : ℕ → F
  pub schedule : ℕ → Schedule

pub record Simulation (F : Type 0) : Type 0 where
  pub config : SimulationConfig F
  pub world : World F
  -- How many random numbers have been drawn.
  pub drawn : ℕ
  pub now_ms : ℕ
  pub mesh : NetworkInjector F (SimPayload F)
  pub certainty_map : CertaintyMap F
  pub drones : List DroneState
  pub peer_ids : List String
  pub resolver : DeterministicResolver
  pub failure_injector : FailureInjector
  pub replicas : Dict String (DroneReplica F)
  pub mesh_heartbeat : HeartbeatRegistry
  pub scheduler : MilestoneScheduler
  pub dropouts : ℕ
  pub auctions : ℕ
  pub survivor_found : Bool
  pub survivor_receipts : List String
  pub completed_cells : List Coordinate
  pub split_progress : Dict (Coordinate × String) F
  pub priority_release_queue : List Coordinate
  pub priority_target_queue : List Coordinate
  pub recovered_drones : List String
  pub pending_bus_results : List (SimPayload F)
  pub subscribers : List String

abbrev pub drone_ids : List DroneState → List String
drone_ids drones = map (λ d. d.drone_id) drones

-- An assignment to fields of the drone with an id.
unfoldable pub update_drone : String → (DroneState → DroneState) → List DroneState → List DroneState
update_drone drone_id change [] = []
update_drone drone_id change (drone ∷ drones) =
    if drone.drone_id == drone_id
    then change drone ∷ drones
    else drone ∷ update_drone drone_id change drones

-- `drone.alive and drone.reachable`
abbrev pub is_online : DroneState → Bool
is_online drone = drone.alive && drone.reachable

module _ {F : Type 0} where
  unfoldable pub seconds : Simulation F → ℕ
  seconds sim = sim.now_ms / 1000

  abbrev pub find_drone : String → Simulation F → Result DroneState
  find_drone drone_id sim = or_raise (first (λ d. d.drone_id == drone_id) sim.drones) key_error

  abbrev pub change_drone : String → (DroneState → DroneState) → Simulation F → Simulation F
  change_drone drone_id change sim = record sim { drones = update_drone drone_id change sim.drones }

  abbrev pub find_replica : String → Simulation F → Result (DroneReplica F)
  find_replica drone_id sim = or_raise (lookup drone_id sim.replicas) key_error

  abbrev pub put_replica : String → DroneReplica F → Simulation F → Simulation F
  put_replica drone_id replica sim = record sim { replicas = insert drone_id replica sim.replicas }

module _ ⦃fl : Floats⦄ where
  open fl use {Float, half, one, of_nat, mul_f, div_f, truncate}

  unfoldable pub build_drones : ℕ → ℕ → Result (List DroneState)
  build_drones count grid =
      let peer_ids = tabulate count (λ index. f_string ("drone_" ∷ show_ℕ (index + 1) ∷ [])) in
      each
        (λ drone_id drones. spread_starting_position drone_id peer_ids grid >>= λ position.
          ok (drones ++ (new_drone drone_id position ∷ [])))
        peer_ids []

  -- `fail_at or 60`
  abbrev pub failure_time : Option ℕ → ℕ
  failure_time none = 60
  failure_time (some fail_at) = if fail_at == 0 then 60 else fail_at

  unfoldable pub new_scheduler : SimulationConfig Float → MilestoneScheduler
  new_scheduler config =
      let scale_factor = min_f one (div_f (of_nat config.duration) (of_nat 180)) in
      let at = λ (s : ℕ). truncate (mul_f (of_nat s) scale_factor) in
      record {
        contention_deadline_s = max 10 (at 30);
        failure_at_s = failure_time config.fail_at;
        reclaim_force_at_s = max 20 (at 75);
        target_unlock_at_s = max 30 (at 90);
        target_force_at_s = max 40 (at 110);
        survivor_deadline_s = max 50 (at 150);
        contention_cell = none;
        contention_complete = false;
        failure_logged = false;
        released_cell = none;
        release_time_s = none;
        reclaimed_time_s = none;
        target_priority_armed = false;
      }

  abbrev pub subscribe_all :
      List String → InMemoryMeshBus (SimPayload Float) → InMemoryMeshBus (SimPayload Float)
  subscribe_all [] bus = bus
  subscribe_all (subscriber_id ∷ subscriber_ids) bus =
      subscribe_all subscriber_ids (subscribe subscriber_id "swarm/#" bus)

  abbrev pub blank_map : SimulationConfig Float → CertaintyMap Float
  blank_map config = new_map config.grid half config.decay_rate 0

  unfoldable pub new_simulation : SimulationConfig Float → World Float → Result (Simulation Float)
  new_simulation config world = build_drones config.drones config.grid >>= λ drones.
      let peer_ids = drone_ids drones in
      let subscribers : List String = "simulation" ∷ peer_ids in
      let bus = subscribe_peers peer_ids (new_bus (SimPayload Float) "local" default_message_cap) in
      ok (record {
        config = config;
        world = world;
        drawn = 0;
        now_ms = 0;
        mesh = new_injector (subscribe_all subscribers bus) config.packet_loss config.jitter_ms;
        certainty_map = blank_map config;
        drones = drones;
        peer_ids = peer_ids;
        resolver = new_resolver peer_ids;
        failure_injector = record {
          plan = record {
            drone_id = config.fail_drone;
            fail_at_seconds = config.fail_at;
            mode = "scheduled";
          };
          triggered = false;
        };
        replicas =
            map
              (λ drone_id.
                (drone_id, record { certainty_map = blank_map config; heartbeats = empty }))
              peer_ids;
        mesh_heartbeat = empty;
        scheduler = new_scheduler config;
        dropouts = 0;
        auctions = 0;
        survivor_found = false;
        survivor_receipts = [];
        completed_cells = [];
        split_progress = [];
        priority_release_queue = [];
        priority_target_queue = [];
        recovered_drones = [];
        pending_bus_results = [];
        subscribers = subscribers;
      })
