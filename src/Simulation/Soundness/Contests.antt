-- ===== src/Simulation/Soundness/Contests.antt =====
-- Contending for cells keeps the state of the simulation sound: simulation/stub.py.
use entropyhunt.Base.{
  ltb, if◌then◌else◌, length, keep, Answers, Answers-after, Answers-bind, each-Answers, Coordinate,
  suc, String, ◌≡◌, Bool, true, false, not, Option, none, some, List, [], ◌∷◌, ◌++◌, arith,
  string_eq, nat_eq, pair_eq, int_eq,
}
use entropyhunt.Base.Numeric.{Floats}
use entropyhunt.Mesh.{InMemoryMeshBus}
use entropyhunt.Drone.{idle, claiming}
use entropyhunt.Auction.{ClaimRequest}
use entropyhunt.Consensus.{ConsensusRoundResult, DeterministicResolver}
use entropyhunt.Consensus.Rounds.{resolve_claims}
use entropyhunt.Simulation.{SimPayload, Simulation, drone_ids}
use entropyhunt.Simulation.Assignment.{
  is_idle, blocked_zones, log_round, apply_assignment, force_reclaim, force_target, create_claim,
}
use entropyhunt.Simulation.Contention.{
  choose, claim_choice, claim_zones, request_of, with_resolver, contend, contend_all, contend_idle,
  assign_idle_drones,
}
use entropyhunt.Simulation.Soundness.{Instant, IsSound}
use entropyhunt.Simulation.Soundness.Assignments.{
  status-IsSound, apply_assignment-IsSound, create_claim-IsSound, queues-IsSound,
}
use entropyhunt.Consensus.Numbers.{resolve_claims-round_id}
use entropyhunt.Selector.{ZoneSelection}
use entropyhunt.Peer.{zones_of}

module _ ⦃fl : Floats⦄ where
  open fl use {Float}

  either :
      {k : Instant Float}
      → (b : Bool) (sim sim' : Simulation Float) → IsSound k sim
      → IsSound k sim'
      → IsSound k (if b then sim else sim')
  either {k} true sim sim' v w = v
  either {k} false sim sim' v w = w

  claim_choice-IsSound :
      {k : Instant Float}
      → (share : Bool) (reserved : List Coordinate) (drone_id : String)
        (selection : Option (ZoneSelection Float)) (sim : Simulation Float)
      → IsSound k sim
      → Answers (λ r. IsSound k r.0) (claim_choice share reserved drone_id selection sim)
  claim_choice-IsSound {k} share reserved drone_id none sim v =
      status-IsSound drone_id idle sim (λ k. ground arith) v
  claim_choice-IsSound {k} share reserved drone_id (some selection) sim v =
      Answers-bind (λ r. IsSound k r.0) (λ r. IsSound k r.0)
        (create_claim drone_id selection.coordinate sim) _
        (create_claim-IsSound drone_id selection.coordinate sim v)
        (λ r w. status-IsSound drone_id claiming r.0 (λ k. ground arith) w)

  claim_zones-IsSound :
      {k : Instant Float}
      → (share : Bool) (claimed blocked reserved : List Coordinate) (idle_drones : List String)
        (sim : Simulation Float)
      → IsSound k sim
      → Answers (λ r. IsSound k r.0) (claim_zones share claimed blocked reserved idle_drones sim)
  unfolding claim_zones
  claim_zones-IsSound {k} share claimed blocked reserved [] sim v = v
  claim_zones-IsSound {k} share claimed blocked reserved (drone_id ∷ idle_drones) sim v =
      Answers-after (λ r. IsSound k r.0)
        (choose share (if share then claimed else reserved) blocked drone_id sim) _
        (λ selection _.
          Answers-bind (λ r. IsSound k r.0) (λ r. IsSound k r.0)
            (claim_choice share reserved drone_id selection sim) _
            (claim_choice-IsSound share reserved drone_id selection sim v)
            (λ made w.
              Answers-bind (λ r. IsSound k r.0) (λ r. IsSound k r.0)
                (claim_zones share claimed blocked made.2 idle_drones made.0) _
                (claim_zones-IsSound share claimed blocked made.2 idle_drones made.0 w)
                (λ rest u. u)))

  -- A round is counted by the resolver before the simulation can count its auction.
  counted-IsSound :
      {k : Instant Float}
      → (round : ConsensusRoundResult) (resolver : DeterministicResolver)
        (mesh : Option (InMemoryMeshBus (SimPayload Float))) (several : Bool)
        (sim : Simulation Float)
      → resolver.round_id ≡ suc sim.resolver.round_id
      → IsSound k sim
      → let logged = log_round round (with_resolver resolver mesh sim) in
        IsSound k (
          if several
          then record logged { scheduler = record logged.scheduler { contention_complete = true } }
          else logged)
  unfolding log_round
  counted-IsSound {k} round resolver none several sim e v = ground arith
  counted-IsSound {k} round resolver (some bus) several sim e v = ground arith

  contend-IsSound :
      {k : Instant Float}
      → (claimed : List Coordinate) (claims : List ClaimRequest) (sim : Simulation Float)
      → IsSound k sim
      → Answers (IsSound k) (contend claimed claims sim)
  unfolding contend
  contend-IsSound {k} claimed claims sim v =
      let request = request_of claimed claims sim in
      let schedule = sim.world.schedule (suc sim.resolver.round_id) in
      let (resolver, mesh, answer) =
        resolve_claims claims request schedule sim.resolver (some sim.mesh.bus) in
      Answers-after (IsSound k) answer _ (λ round _.
        each-Answers (IsSound k) apply_assignment round.assignments _ apply_assignment-IsSound (
          counted-IsSound round resolver mesh (ltb 1 (length claims)) sim
            (resolve_claims-round_id claims request schedule sim.resolver (some sim.mesh.bus)) v))

  contend_idle-IsSound :
      {k : Instant Float}
      → (idle_drones : List String) (sim : Simulation Float) → IsSound k sim
      → Answers (IsSound k) (contend_idle idle_drones sim)
  unfolding contend_idle contend_all
  contend_idle-IsSound {k} [] sim v = v
  contend_idle-IsSound {k} (drone_id ∷ idle_drones) sim v =
      let claimed = zones_of sim.drones [] in
      Answers-bind (λ r. IsSound k r.0) (IsSound k)
        (claim_zones (not sim.scheduler.contention_complete) claimed (blocked_zones sim) claimed
          (drone_id ∷ idle_drones) sim)
        _
        (claim_zones-IsSound (not sim.scheduler.contention_complete) claimed (blocked_zones sim)
          claimed (drone_id ∷ idle_drones) sim v)
        (λ made w. each-Answers (IsSound k) _ _ made.0 (λ p t u. contend-IsSound claimed _ t u) w)

  force_reclaim-IsSound :
      {k : Instant Float} → (sim : Simulation Float) → IsSound k sim → IsSound k (force_reclaim sim)
  unfolding force_reclaim
  force_reclaim-IsSound {k} sim v = ground arith

  force_target-IsSound :
      {k : Instant Float} → (sim : Simulation Float) → IsSound k sim → IsSound k (force_target sim)
  unfolding force_target
  force_target-IsSound {k} sim v =
      let armed = record sim {
        scheduler = record sim.scheduler { target_priority_armed = true };
        priority_target_queue = sim.priority_target_queue ++ (sim.config.target ∷ []);
      } in
      let armed-IsSound : IsSound k armed = ground arith in either _ armed sim armed-IsSound v

  pub assign_idle_drones-IsSound :
      {k : Instant Float}
      → (sim : Simulation Float) → IsSound k sim
      → Answers (IsSound k) (assign_idle_drones sim)
  unfolding assign_idle_drones
  assign_idle_drones-IsSound {k} sim v =
      let idle_drones = drone_ids (keep is_idle sim.drones) in
      let forced = force_target (force_reclaim sim) in
      queues-IsSound idle_drones forced contend_idle contend_idle-IsSound
        (force_target-IsSound (force_reclaim sim) (force_reclaim-IsSound sim v))
