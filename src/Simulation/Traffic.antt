-- ===== src/Simulation/Traffic.antt =====
-- What the simulation of simulation/stub.py publishes and reads: `_publish` and `_consume_mesh`.
use text.Mathlib.Text.{starts_with}
use entropyhunt.Base.{
  if◌then◌else◌, length, tabulate, ◌==◌, add, key_error, Result, ok, or_raise, ◌>>=◌, each, ℕ, suc,
  ◌+◌, String, none, some, List, [], ◌∷◌, ◌++◌, string_eq, nat_eq, pair_eq, int_eq,
}
use entropyhunt.Base.Numeric.{Floats}
use entropyhunt.Certainty.{CertaintyMap, merge_newer}
use entropyhunt.Mesh.{MeshEnvelope, items}
use entropyhunt.Heartbeat.{beat}
use entropyhunt.Consensus.{other}
use entropyhunt.Failure.Network.{lossy_publish, lossy_poll}
use entropyhunt.Simulation.{
  DroneReplica, SimMessage, SimPayload, drone_id_of, certainty_of, contest_of, Simulation,
  drone_ids, find_replica, put_replica,
}

module _ ⦃fl : Floats⦄ where
  open fl use {Float}

  unfoldable pub send : String → SimMessage Float → String → Simulation Float → Simulation Float
  send topic message sender_id sim =
      let sent =
        lossy_publish (sim.world.draw sim.drawn) topic (other (contest_of message) message)
          sim.now_ms (some sender_id) none sim.mesh in
      record sim { mesh = sent.0; drawn = suc sim.drawn }

  -- `self.mesh.poll(subscriber_id)`, with a draw for each message that waits.
  unfoldable pub receive :
      String → Simulation Float → Simulation Float × List (MeshEnvelope (SimPayload Float))
  receive subscriber_id sim =
      let waiting = length (items subscriber_id sim.mesh.bus.inboxes) in
      let draws = tabulate waiting (λ i. sim.world.draw (sim.drawn + i)) in
      let polled = lossy_poll draws (some subscriber_id) none sim.mesh in
      (record sim { mesh = polled.0; drawn = sim.drawn + waiting }, polled.1)

  abbrev pub read_certainty :
      ℕ → MeshEnvelope (SimPayload Float) → CertaintyMap Float → Result (CertaintyMap Float)
  read_certainty now_ms envelope certainty_map =
      or_raise (certainty_of envelope.payload) key_error >>= λ said.
      merge_newer said.1 said.2 said.0 now_ms certainty_map

  -- A message to the subscriber "simulation".
  unfoldable pub hear_simulation :
      MeshEnvelope (SimPayload Float) → Simulation Float → Result (Simulation Float)
  hear_simulation envelope sim =
      let topic = envelope.topic in
      let drone = or_raise (drone_id_of envelope.payload) key_error in
      if starts_with topic "swarm/heartbeat/"
      then (drone >>= λ drone_id.
          ok (record sim {
            mesh_heartbeat = beat drone_id envelope.timestamp_ms sim.mesh_heartbeat;
          }))
      else if topic == "swarm/certainty_map"
      then (read_certainty sim.now_ms envelope sim.certainty_map >>= λ merged.
          ok (record sim { certainty_map = merged }))
      else if starts_with topic "swarm/consensus_result/"
      then ok
          (record sim { pending_bus_results = sim.pending_bus_results ++ (envelope.payload ∷ []) })
      else if starts_with topic "swarm/survivor_found_ack/"
      then (drone >>= λ drone_id.
          ok (record sim { survivor_receipts = add drone_id sim.survivor_receipts }))
      else ok sim

  -- A message to a drone.
  unfoldable pub hear_replica :
      ℕ → MeshEnvelope (SimPayload Float) → DroneReplica Float → Result (DroneReplica Float)
  hear_replica now_ms envelope replica =
      let topic = envelope.topic in
      if starts_with topic "swarm/heartbeat/"
      then (or_raise (drone_id_of envelope.payload) key_error >>= λ peer_id.
          ok
            (record replica { heartbeats = beat peer_id envelope.timestamp_ms replica.heartbeats }))
      else if topic == "swarm/certainty_map"
      then (read_certainty now_ms envelope replica.certainty_map >>= λ merged.
          ok (record replica { certainty_map = merged }))
      else ok replica

  unfoldable pub consume_drone : String → Simulation Float → Result (Simulation Float)
  consume_drone drone_id sim =
      let received = receive drone_id sim in
      find_replica drone_id sim >>= λ replica.
      each (hear_replica sim.now_ms) received.1 replica >>= λ heard.
      ok (put_replica drone_id heard received.0)

  unfoldable pub consume_mesh : Simulation Float → Result (Simulation Float)
  consume_mesh sim =
      let received = receive "simulation" sim in
      each hear_simulation received.1 received.0 >>= λ heard.
      each consume_drone (drone_ids heard.drones) heard
