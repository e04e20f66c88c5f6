-- ===== src/Simulation/Contention.antt =====
-- How idle drones contend for their cells: `_assign_idle_drones` of simulation/stub.py.
use entropyhunt.Base.{
  ltb, if◌then◌else◌, get_or_else, length, keep, add, Result, ok, ◌>>=◌, each, Coordinate, suc,
  String, Bool, true, not, Option, none, some, List, [], ◌∷◌, ◌++◌, map, string_eq, nat_eq, pair_eq,
  int_eq,
}
use entropyhunt.Base.Sort.{sorted}
use entropyhunt.Base.Dict.{lookup, keys}
use entropyhunt.Base.Numeric.{Floats}
use entropyhunt.Selector.{ZoneSelection, select_next_zone}
use entropyhunt.Mesh.{InMemoryMeshBus}
use entropyhunt.Drone.{idle, claiming}
use entropyhunt.Auction.{ClaimRequest}
use entropyhunt.Consensus.{DeterministicResolver}
use entropyhunt.Consensus.Rounds.{resolve_claims}
use entropyhunt.Consensus.Ballots.{ResolveClaimsRequest}
use entropyhunt.Peer.{zones_of}
use entropyhunt.Claims.{group_by_cell, coordinate_lt}
use entropyhunt.Simulation.{
  SimPayload, Simulation, drone_ids, find_drone, change_drone, find_replica,
}
use entropyhunt.Simulation.Assignment.{
  with_status, is_idle, blocked_zones, log_round, apply_assignment, force_reclaim, force_target,
  create_claim, process_priority_release_queue, process_priority_target_queue,
}

module _ ⦃fl : Floats⦄ where
  open fl use {Float}

  -- What a drone chooses, from its replica. Before the first contest all drones see the same claims.
  unfoldable pub choose :
      Bool
      → List Coordinate
      → List Coordinate
      → String
      → Simulation Float
      → Result (Option (ZoneSelection Float))
  choose share_initial_view zones blocked drone_id sim = find_drone drone_id sim >>= λ drone.
      find_replica drone_id sim >>= λ replica.
      ok (select_next_zone replica.certainty_map zones drone.position blocked share_initial_view)

  abbrev pub claim_choice :
      Bool
      → List Coordinate
      → String
      → Option (ZoneSelection Float)
      → Simulation Float
      → Result (Simulation Float × List ClaimRequest × List Coordinate)
  claim_choice share_initial_view reserved drone_id none sim =
      ok (change_drone drone_id (with_status idle) sim, [], reserved)
  claim_choice share_initial_view reserved drone_id (some selection) sim =
      create_claim drone_id selection.coordinate sim >>= λ claimed. ok (
        change_drone drone_id (with_status claiming) claimed.0,
        claimed.1 ∷ [],
        if share_initial_view then reserved else add selection.coordinate reserved,
      )

  -- The loop over the idle drones, and the claims that it makes.
  unfoldable pub claim_zones :
      Bool
      → List Coordinate
      → List Coordinate
      → List Coordinate
      → List String
      → Simulation Float
      → Result (Simulation Float × List ClaimRequest)
  claim_zones share_initial_view claimed blocked reserved [] sim = ok (sim, [])
  claim_zones share_initial_view claimed blocked reserved (drone_id ∷ idle_drones) sim =
      choose share_initial_view (if share_initial_view then claimed else reserved) blocked drone_id
        sim
      >>= λ selection. claim_choice share_initial_view reserved drone_id selection sim >>= λ made.
          claim_zones share_initial_view claimed blocked made.2 idle_drones made.0 >>= λ rest.
          ok (rest.0, made.1 ++ rest.1)

  abbrev pub initiator : List ClaimRequest → Option String
  initiator [] = none
  initiator (claim ∷ claims) = some claim.drone_id

  abbrev pub request_of :
      List Coordinate → List ClaimRequest → Simulation Float → ResolveClaimsRequest Float
  request_of claimed claims sim = record {
    certainty_map = sim.certainty_map;
    claimed_zones = claimed;
    now_ms = sim.now_ms;
    initiator_id = initiator claims;
    per_peer_maps = map (λ entry. (entry.0, entry.1.certainty_map)) sim.replicas;
  }

  -- The resolver and the simulation share the bus.
  abbrev pub with_resolver :
      DeterministicResolver
      → Option (InMemoryMeshBus (SimPayload Float))
      → Simulation Float
      → Simulation Float
  with_resolver resolver none sim = record sim { resolver = resolver }
  with_resolver resolver (some bus) sim = record sim {
    resolver = resolver;
    mesh = record sim.mesh { bus = bus };
  }

  unfoldable pub contend :
      List Coordinate → List ClaimRequest → Simulation Float → Result (Simulation Float)
  contend claimed claims sim =
      let (resolver, mesh, answer) =
        resolve_claims claims (request_of claimed claims sim)
          (sim.world.schedule (suc sim.resolver.round_id)) sim.resolver (some sim.mesh.bus) in
      answer >>= λ round.
      let logged = log_round round (with_resolver resolver mesh sim) in
      let noted =
        if ltb 1 (length claims)
        then record logged { scheduler = record logged.scheduler { contention_complete = true } }
        else logged in
      each apply_assignment round.assignments noted

  -- `for cell in sorted(grouped)`
  unfoldable pub contend_all :
      List Coordinate → List ClaimRequest → Simulation Float → Result (Simulation Float)
  contend_all claimed claims sim =
      let grouped = group_by_cell claims [] in
      each (λ cell. contend claimed (get_or_else (lookup cell grouped) []))
        (sorted coordinate_lt (keys grouped)) sim

  unfoldable pub contend_idle : List String → Simulation Float → Result (Simulation Float)
  contend_idle [] sim = ok sim
  contend_idle (drone_id ∷ idle_drones) sim =
      let claimed = zones_of sim.drones [] in
      claim_zones (not sim.scheduler.contention_complete) claimed (blocked_zones sim) claimed
        (drone_id ∷ idle_drones) sim
      >>= λ made. contend_all claimed made.1 made.0

  unfoldable pub assign_idle_drones : Simulation Float → Result (Simulation Float)
  assign_idle_drones sim =
      let idle_drones = drone_ids (keep is_idle sim.drones) in
      process_priority_release_queue idle_drones (force_target (force_reclaim sim)) >>= λ reclaimed.
      process_priority_target_queue reclaimed.1 reclaimed.0 >>= λ targeted.
      contend_idle targeted.1 targeted.0
