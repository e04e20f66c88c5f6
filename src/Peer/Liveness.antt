-- ===== src/Peer/Liveness.antt =====
-- Who is heard of again: the heartbeat and rejoin handlers of simulation/mesh_handler.py.
use entropyhunt.Base.{
  ltb, if◌then◌else◌, Bool-cases, Option-cases, ◌==◌, Coordinate, ℕ, ◌+◌, String, ◌≡◌, refl, ap,
  ◌∙◌, inl, inr, Bool, true, false, Option, none, some, arith, string_eq, nat_eq, pair_eq, int_eq,
}
use entropyhunt.Base.Dict.{Dict, lookup, erase, lookup-insert, lookup-erase}
use entropyhunt.Heartbeat.{beat, is_stale}
use entropyhunt.Drone.{DroneState}
use entropyhunt.Wire.{HeartbeatPayload}
use entropyhunt.Peer.{PeerMeshHandler, ensured, ensure_peer, change_peer}
use entropyhunt.Peer.Messages.{awake, was_stale, hear}
use entropyhunt.Heartbeat.Laws.{is_stale-beat}

self_key : (i : String) (x y : Option DroneState) → (if i == i then x else y) ≡ x
self_key i x y = ground arith

shadowed :
    (b : Bool) (x y z w : Option DroneState)
    → w ≡ (if b then y else z)
    → (if b then x else w) ≡ (if b then x else z)
shadowed true x y z w h = refl
shadowed false x y z w h = h

-- The note on a drone is gone, whether it had to be taken away or was not there.
forgets :
    (i j : String) (drone : DroneState) (d : Dict String ℕ)
    → lookup j (if was_stale i (some drone) d then erase i d else d)
      ≡ (if i == j then none else lookup j d)
forgets i j drone d = elim (Bool-cases (was_stale i (some drone) d)) [
  | inl goes ↦ rw goes (lookup-erase i j d)
  | inr stays ↦ rw stays (ground arith)
]

awake-fields :
    (i : String) (p : Coordinate) (known : Option DroneState)
    → let d = awake (ensured i (some p) known) in
      (d.alive ≡ true) × (d.reachable ≡ true) × (d.position ≡ p)
awake-fields i p none = (refl, refl, refl)
awake-fields i p (some drone) = (refl, refl, refl)

module _ {F : Type 0} where
  peer_drones-ensure_peer :
      (i j : String) (p : Option Coordinate) (h : PeerMeshHandler F)
      → lookup j (ensure_peer i p h).peer_drones
        ≡ (if i == j then some (ensured i p (lookup i h.peer_drones)) else lookup j h.peer_drones)
  unfolding ensure_peer
  peer_drones-ensure_peer i j p h =
      lookup-insert i j (ensured i p (lookup i h.peer_drones)) h.peer_drones

  peer_drones-change_peer :
      (i j : String) (f : DroneState → DroneState) (h : PeerMeshHandler F) (d : DroneState)
      → lookup i h.peer_drones ≡ some d
      → lookup j (change_peer i f h).peer_drones
        ≡ (if i == j then some (f d) else lookup j h.peer_drones)
  unfolding change_peer
  peer_drones-change_peer i j f h d e = rw (e, change_peer) (lookup-insert i j (f d) h.peer_drones)

  change_peer-stale_since :
      (i : String) (f : DroneState → DroneState) (h : PeerMeshHandler F)
      → ((change_peer i f h).stale_since_ms ≡ h.stale_since_ms)
        × ((change_peer i f h).heartbeat ≡ h.heartbeat)
  unfolding change_peer
  change_peer-stale_since i f h = elim (Option-cases (lookup i h.peer_drones)) [
    | inl e ↦ rw (e, change_peer) (refl, refl)
    | inr (d, e) ↦ rw (e, change_peer) (refl, refl)
  ]

  hear_fields :
      (payload : HeartbeatPayload) (t : ℕ) (h : PeerMeshHandler F) (j : String) (now timeout : ℕ)
      → let h' = hear payload t h in
        let i = payload.drone_id in
        (lookup j h'.peer_drones ≡ (
          if i == j
          then some (awake (ensured i (some payload.position) (lookup i h.peer_drones)))
          else lookup j h.peer_drones))
        × (lookup j h'.stale_since_ms ≡ (if i == j then none else lookup j h.stale_since_ms))
        × (is_stale j now timeout h'.heartbeat
            ≡ (if i == j then ltb (t + timeout) now else is_stale j now timeout h.heartbeat))
  unfolding hear
  hear_fields payload t h j now timeout =
      let i = payload.drone_id in
      let known = ensure_peer i (some payload.position) h in
      let drone = ensured i (some payload.position) (lookup i h.peer_drones) in
      let there : lookup i known.peer_drones ≡ some drone =
        peer_drones-ensure_peer i i (some payload.position) h
        ∙ self_key i (some drone) (lookup i h.peer_drones) in
      let (same_stale, same_beats) = change_peer-stale_since i awake known in
      let woken = (change_peer i awake known).stale_since_ms in
      let beats : known.heartbeat ≡ h.heartbeat = unfold ensure_peer in refl in
      let noted : known.stale_since_ms ≡ h.stale_since_ms = unfold ensure_peer in refl in
      (
        peer_drones-change_peer i j awake known drone there
            ∙ shadowed (i == j) (some (awake drone)) (some drone) (lookup j h.peer_drones)
                (lookup j known.peer_drones)
                (peer_drones-ensure_peer i j (some payload.position) h),
        ap (λ o. lookup j (if was_stale i o known.stale_since_ms then erase i woken else woken))
              there
            ∙ ap
                (λ w.
                  lookup j (if was_stale i (some drone) known.stale_since_ms then erase i w else w))
                (same_stale ∙ noted)
            ∙ ap
                (λ w. lookup j (
                  if was_stale i (some drone) w
                  then erase i h.stale_since_ms
                  else h.stale_since_ms))
                noted
            ∙ forgets i j drone h.stale_since_ms,
        ap (λ b. is_stale j now timeout (beat i t b)) (same_beats ∙ beats)
            ∙ is_stale-beat h.heartbeat i j t now timeout,
      )

  -- After a heartbeat its drone is known, its alive and reachable flags are set and its position is
  -- the one in the payload; it is no longer noted as stale, and it counts as stale again exactly
  -- when the timeout has run out since. The entries of other drones, what is noted of them and
  -- whether they count as stale are as before.
  pub hear_lem :
      (payload : HeartbeatPayload) (t : ℕ) (h : PeerMeshHandler F) (j : String) (now timeout : ℕ)
      → let h' = hear payload t h in
        let i = payload.drone_id in
        (d : DroneState) × (lookup j h'.peer_drones
          ≡ (if i == j then some d else lookup j h.peer_drones))
        × (d.alive ≡ true)
        × (d.reachable ≡ true)
        × (d.position ≡ payload.position)
        × (lookup j h'.stale_since_ms ≡ (if i == j then none else lookup j h.stale_since_ms))
        × (is_stale j now timeout h'.heartbeat
            ≡ (if i == j then ltb (t + timeout) now else is_stale j now timeout h.heartbeat))
  hear_lem payload t h j now timeout =
      let known = lookup payload.drone_id h.peer_drones in
      let (at, stale_since, stale) = hear_fields payload t h j now timeout in
      let (alive, reachable, position) = awake-fields payload.drone_id payload.position known in
      (
        awake (ensured payload.drone_id (some payload.position) known),
        at,
        alive,
        reachable,
        position,
        stale_since,
        stale,
      )
