-- ===== src/Simulation/Soundness/Messages.antt =====
-- Sending and reading messages keeps the state of the simulation sound: simulation/stub.py.
use text.Mathlib.Text.{starts_with}
use entropyhunt.Base.{
  Bool-cases, ◌==◌, key_error, each, Answers, Answers-after, Answers-or_raise, Answers-bind,
  each-Answers, String, inl, inr, arith, string_eq, nat_eq, pair_eq, int_eq,
}
use entropyhunt.Base.Dict.{lookup}
use entropyhunt.Base.Numeric.{Floats}
use entropyhunt.Mesh.{MeshEnvelope}
use entropyhunt.Simulation.{SimPayload, drone_id_of, Simulation, drone_ids}
use entropyhunt.Simulation.Traffic.{
  receive, read_certainty, hear_simulation, hear_replica, consume_drone, consume_mesh,
}
use entropyhunt.Simulation.Soundness.{Instant, IsSound}

module _ ⦃fl : Floats⦄ where
  open fl use {Float}

  pub receive-IsSound :
      {k : Instant Float}
      → (subscriber_id : String) (sim : Simulation Float) → IsSound k sim
      → IsSound k (receive subscriber_id sim).0
  unfolding receive
  receive-IsSound {k} subscriber_id sim v = ground arith

  hear_simulation-IsSound :
      {k : Instant Float}
      → (envelope : MeshEnvelope (SimPayload Float)) (sim : Simulation Float) → IsSound k sim
      → Answers (IsSound k) (hear_simulation envelope sim)
  unfolding hear_simulation
  hear_simulation-IsSound {k} envelope sim v =
      let topic = envelope.topic in
      elim (Bool-cases (starts_with topic "swarm/heartbeat/")) [
        | inl e ↦ rw e (
            Answers-or_raise (IsSound k) (drone_id_of envelope.payload) key_error _
              (λ drone_id _. ground arith))
        | inr e ↦ elim (Bool-cases (topic == "swarm/certainty_map")) [
          | inl e' ↦
              rw (e, e')
                (Answers-after (IsSound k) (read_certainty sim.now_ms envelope sim.certainty_map) _
                  (λ merged _. ground arith))
          | inr e' ↦ elim (Bool-cases (starts_with topic "swarm/consensus_result/")) [
            | inl r ↦ rw (e, e', r) (ground arith)
            | inr r ↦ elim (Bool-cases (starts_with topic "swarm/survivor_found_ack/")) [
              | inl a ↦
                  rw (e, e', r, a)
                    (Answers-or_raise (IsSound k) (drone_id_of envelope.payload) key_error _
                      (λ drone_id _. ground arith))
              | inr a ↦ rw (e, e', r, a) v
            ]
          ]
        ]
      ]

  consume_drone-IsSound :
      {k : Instant Float}
      → (drone_id : String) (sim : Simulation Float) → IsSound k sim
      → Answers (IsSound k) (consume_drone drone_id sim)
  unfolding consume_drone receive
  consume_drone-IsSound {k} drone_id sim v =
      Answers-or_raise (IsSound k) (lookup drone_id sim.replicas) key_error _ (λ replica _.
        Answers-after (IsSound k) (each (hear_replica sim.now_ms) (receive drone_id sim).1 replica)
          _ (λ heard _. ground arith))

  pub consume_mesh-IsSound :
      {k : Instant Float}
      → (sim : Simulation Float) → IsSound k sim
      → Answers (IsSound k) (consume_mesh sim)
  unfolding consume_mesh
  consume_mesh-IsSound {k} sim v =
      let received = receive "simulation" sim in
      Answers-bind (IsSound k) (IsSound k) (each hear_simulation received.1 received.0) _
        (each-Answers (IsSound k) hear_simulation received.1 received.0 hear_simulation-IsSound
          (receive-IsSound "simulation" sim v))
        (λ heard w.
          each-Answers (IsSound k) consume_drone (drone_ids heard.drones) heard
            consume_drone-IsSound w)
