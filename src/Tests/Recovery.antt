-- ===== src/Tests/Recovery.antt =====
-- A lost drone that is due to come back: simulation/stub.py.
use entropyhunt.Base.{
  ok, ℤ, pos, String, ◌≡◌, ◌⊎◌, true, false, some, List, [], ◌∷◌, string_eq, nat_eq, pair_eq,
  int_eq,
}
use entropyhunt.Drone.{DroneState, new_drone, mark_stale}
use entropyhunt.Heartbeat.{empty}
use entropyhunt.Consensus.{new_resolver}
use entropyhunt.Mesh.{new_bus}
use entropyhunt.Simulation.{Simulation, SimPayload, new_scheduler}
use entropyhunt.Simulation.Liveness.{check_recovery}
use entropyhunt.Simulation.Soundness.Recovery.{IsDue, IsBack, check_recovery_lem}
use entropyhunt.Tests.Numbers.{thousandths}
use entropyhunt.Tests.Maps.{left_map}
use entropyhunt.Tests.Swarm.{swarm, calm}

abbrev names : List String
names = "drone_1" ∷ "drone_2" ∷ []

-- The second drone was lost at one second, and half a minute has passed.
abbrev waiting : Simulation ℤ
waiting = record {
  config = swarm;
  world = calm;
  drawn = 0;
  now_ms = 30000;
  mesh = record {
    bus = new_bus (SimPayload ℤ) "local" 10;
    packet_loss = pos 0;
    jitter_ms = pos 0;
    peer_id = "local";
  };
  certainty_map = left_map;
  drones =
      new_drone "drone_1" (pos 0, pos 0) ∷ mark_stale (new_drone "drone_2" (pos 1, pos 0)) ∷ [];
  peer_ids = names;
  resolver = new_resolver names;
  failure_injector = record {
    plan = record { drone_id = some "drone_2"; fail_at_seconds = some 1; mode = "scheduled" };
    triggered = true;
  };
  replicas = [];
  mesh_heartbeat = empty;
  scheduler = new_scheduler swarm;
  dropouts = 1;
  auctions = 0;
  survivor_found = false;
  survivor_receipts = [];
  completed_cells = [];
  split_progress = [];
  priority_release_queue = [];
  priority_target_queue = [];
  recovered_drones = [];
  pending_bus_results = [];
  subscribers = "simulation" ∷ names;
}

check_recovery_lem_example :
    (s : Simulation ℤ) × (check_recovery waiting ≡ ok s)
    × (((s ≡ waiting) × ((i : String) (d : DroneState) → ¬ IsDue waiting i d))
        ⊎ ((i : String) × (d : DroneState) × IsDue waiting i d × IsBack waiting s i d))
check_recovery_lem_example = check_recovery_lem waiting
