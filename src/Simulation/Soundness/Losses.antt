-- ===== src/Simulation/Soundness/Losses.antt =====
-- Losing drones that are stale keeps the state of the simulation sound: simulation/stub.py.
use entropyhunt.Base.{
  leb, Bool-cases, get_or_else, first, ◌==◌, key_error, ◌>>=◌, each, Answers, Answers-after,
  Answers-or_raise, Answers-bind, each-Answers, Coordinate, ℕ, String, refl, inl, inr, not, ◌&&◌,
  Option, none, some, [], arith, string_eq, nat_eq, pair_eq, int_eq,
}
use entropyhunt.Base.Dict.{Dict, lookup}
use entropyhunt.Base.Numeric.{Floats}
use entropyhunt.Certainty.{CertaintyMap, merge_timestamped_from}
use entropyhunt.Drone.{mark_stale}
use entropyhunt.Consensus.Ballots.{confirm_release}
use entropyhunt.Simulation.{Simulation, drone_ids, is_online, change_drone}
use entropyhunt.Simulation.Traffic.{send, consume_mesh}
use entropyhunt.Simulation.Liveness.{
  quorum_of, vote_stale, online_observers, release_claim, inherit_map, announce_reclaim, lose_drone,
  mark_drone_stale, send_heartbeat, judge_drone, heartbeat_tick,
}
use entropyhunt.Simulation.Soundness.{Instant, IsSound, send-IsSound}
use entropyhunt.Simulation.Soundness.Assignments.{change_drone-IsSound}
use entropyhunt.Simulation.Soundness.Messages.{consume_mesh-IsSound}

module _ ⦃fl : Floats⦄ where
  open fl use {Float}

  release_claim-IsSound :
      {k : Instant Float}
      → (drone_id : String) (claimed : Option Coordinate) (sim : Simulation Float) → IsSound k sim
      → IsSound k (release_claim drone_id claimed sim)
  unfolding release_claim send confirm_release
  release_claim-IsSound {k} drone_id none sim v = v
  release_claim-IsSound {k} drone_id (some p) sim v = ground arith

  inherit_map-IsSound :
      {k : Instant Float}
      → (lost : String) (dead_map : CertaintyMap Float) (drone_id : String) (sim : Simulation Float)
      → IsSound k sim
      → Answers (IsSound k) (inherit_map lost dead_map drone_id sim)
  unfolding inherit_map
  inherit_map-IsSound {k} lost dead_map drone_id sim v =
      Answers-or_raise (IsSound k) (first (λ d. d.drone_id == drone_id) sim.drones) key_error _
        (λ survivor e. elim (Bool-cases (survivor.alive && not (drone_id == lost))) [
          | inr b ↦ rw b v
          | inl b ↦ rw b (
              Answers-or_raise (IsSound k) (lookup drone_id sim.replicas) key_error _ (λ replica _.
                Answers-after (IsSound k) (merge_timestamped_from dead_map replica.certainty_map) _
                  (λ merged _. ground arith)))
        ])

  announce_reclaim-IsSound :
      {k : Instant Float}
      → (drone_id : String) (claimed : Option Coordinate) (sim : Simulation Float) → IsSound k sim
      → IsSound k (announce_reclaim drone_id claimed sim)
  unfolding announce_reclaim
  announce_reclaim-IsSound {k} drone_id none sim v = v
  announce_reclaim-IsSound {k} drone_id (some p) sim v =
      send-IsSound "swarm/zone_reclaim" _ "simulation" sim v

  mark_drone_stale-IsSound :
      {k : Instant Float}
      → (drone_id : String) (sim : Simulation Float) → IsSound k sim
      → Answers (IsSound k) (mark_drone_stale drone_id sim)
  unfolding mark_drone_stale lose_drone mark_stale
  mark_drone_stale-IsSound {k} drone_id sim v =
      Answers-or_raise (IsSound k) (first (λ d. d.drone_id == drone_id) sim.drones) key_error _
        (λ drone e. elim (Bool-cases drone.alive) [
          | inr dead ↦ rw dead v
          | inl alive ↦
              let lost = drone.drone_id in
              let marked =
                change_drone lost mark_stale (release_claim lost drone.claimed_cell sim) in
              rw alive (
                Answers-or_raise (IsSound k) (lookup lost marked.replicas) key_error _ (λ replica _.
                  Answers-bind (IsSound k) (IsSound k)
                    (each (inherit_map lost replica.certainty_map) (drone_ids marked.drones) marked)
                    _
                    (each-Answers (IsSound k) (inherit_map lost replica.certainty_map)
                      (drone_ids marked.drones) marked
                      (inherit_map-IsSound lost replica.certainty_map)
                      (change_drone-IsSound lost mark_stale
                        (release_claim lost drone.claimed_cell sim) (λ d _ w. ground arith)
                        (λ d. refl) (release_claim-IsSound lost drone.claimed_cell sim v)))
                    (λ inherited w. announce_reclaim-IsSound lost drone.claimed_cell inherited w)))
        ])

  send_heartbeat-IsSound :
      {k : Instant Float}
      → (drone_id : String) (sim : Simulation Float) → IsSound k sim
      → Answers (IsSound k) (send_heartbeat drone_id sim)
  unfolding send_heartbeat
  send_heartbeat-IsSound {k} drone_id sim v =
      Answers-or_raise (IsSound k) (first (λ d. d.drone_id == drone_id) sim.drones) key_error _
        (λ drone e. elim (Bool-cases (is_online drone)) [
          | inl b ↦ rw b (send-IsSound _ _ drone_id sim v)
          | inr b ↦ rw b v
        ])

  vote_stale-IsSound :
      {k : Instant Float}
      → (drone_id : String) (voted : Simulation Float × Dict String ℕ) → IsSound k voted.0
      → Answers (λ r. IsSound k r.0) (vote_stale drone_id voted)
  unfolding vote_stale
  vote_stale-IsSound {k} drone_id (sim, votes) v =
      Answers-or_raise (λ r. IsSound k r.0) (lookup drone_id sim.replicas) key_error _
        (λ replica _. ground arith)

  judge_drone-IsSound :
      {k : Instant Float}
      → (quorum : ℕ) (votes : Dict String ℕ) (drone_id : String) (sim : Simulation Float)
      → IsSound k sim
      → Answers (IsSound k) (judge_drone quorum votes drone_id sim)
  unfolding judge_drone
  judge_drone-IsSound {k} quorum votes drone_id sim v =
      Answers-or_raise (IsSound k) (first (λ d. d.drone_id == drone_id) sim.drones) key_error _
        (λ drone e.
          elim (Bool-cases (drone.alive && leb quorum (get_or_else (lookup drone_id votes) 0))) [
            | inl b ↦ rw b (mark_drone_stale-IsSound drone_id sim v)
            | inr b ↦ rw b v
          ])

  pub heartbeat_tick-IsSound :
      {k : Instant Float}
      → (sim : Simulation Float) → IsSound k sim
      → Answers (IsSound k) (heartbeat_tick sim)
  unfolding heartbeat_tick
  heartbeat_tick-IsSound {k} sim v =
      Answers-bind (IsSound k) (IsSound k)
        (each send_heartbeat (drone_ids sim.drones) sim >>= consume_mesh) _
        (Answers-bind (IsSound k) (IsSound k) (each send_heartbeat (drone_ids sim.drones) sim)
          consume_mesh
          (each-Answers (IsSound k) send_heartbeat (drone_ids sim.drones) sim send_heartbeat-IsSound
            v)
          consume_mesh-IsSound)
        (λ heard w.
          let observers = online_observers heard in
          Answers-bind (λ r. IsSound k r.0) (IsSound k) (each vote_stale observers (heard, [])) _
            (each-Answers (λ r. IsSound k r.0) vote_stale observers (heard, []) vote_stale-IsSound
              w)
            (λ voted u.
              each-Answers (IsSound k) (judge_drone (quorum_of observers) voted.1)
                (drone_ids voted.0.drones) voted.0
                (judge_drone-IsSound (quorum_of observers) voted.1) u))
