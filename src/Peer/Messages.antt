-- ===== src/Peer/Messages.antt =====
-- The handlers of simulation/mesh_handler.py, and the loop that hands each message to its handler.
use text.Mathlib.Text.{starts_with}
use entropyhunt.Base.{
  if◌then◌else◌, get_or_else, ◌==◌, add, key_error, Result, ok, raise, or_raise, ◌>>=◌, each, pos,
  ℕ, String, Bool, true, false, not, ◌||◌, Option, none, some, List, string_eq, nat_eq, pair_eq,
  int_eq,
}
use entropyhunt.Base.Dict.{Dict, lookup, insert, erase, has_key}
use entropyhunt.Base.Numeric.{Floats}
use entropyhunt.Certainty.{
  CertaintyMap, cells, CellPayload, GridPayload, merge_newer, merge_rows_timestamped,
}
use entropyhunt.Mesh.{MeshEnvelope, InMemoryMeshBus, poll}
use entropyhunt.Heartbeat.{beat}
use entropyhunt.Drone.{DroneState}
use entropyhunt.Wire.{
  HeartbeatPayload, CertaintyUpdatePayload, DroneStatePayload, Message, heartbeat_message,
  rejoin_message, certainty_message, grid_message, delta_message, survivor_ack_message,
  parse_survivor_payload, parse_drone_state_payload,
}
use entropyhunt.Peer.{
  PeerMeshHandler, ensure_peer, change_peer, ensure_peer_map, note_certainty,
  update_visited_completed,
}
use entropyhunt.Peer.Publishing.{publish_survivor_ack}

-- A peer with its bus, and the state of its claim manager.
pub record Peer (F S : Type 0) : Type 0 where
  pub handler : PeerMeshHandler F
  pub mesh : InMemoryMeshBus (Message F)
  pub claims : S

-- A drone that is heard of again.
abbrev pub awake : DroneState → DroneState
awake drone = record drone { alive = true; reachable = true }

abbrev pub reported : DroneStatePayload → DroneState → DroneState
reported payload drone = record drone {
  position = payload.position;
  target_cell = payload.target;
  claimed_cell = payload.claimed_cell;
  status = payload.status;
  alive = payload.alive;
  reachable = payload.reachable;
  searched_cells = payload.searched_cells;
}

abbrev pub was_stale : String → Option DroneState → Dict String ℕ → Bool
was_stale drone_id none stale_since_ms = has_key drone_id stale_since_ms
was_stale drone_id (some drone) stale_since_ms =
    not drone.reachable || not drone.alive || has_key drone_id stale_since_ms

module _ {F : Type 0} where
  unfoldable pub hear : HeartbeatPayload → ℕ → PeerMeshHandler F → PeerMeshHandler F
  hear payload timestamp_ms h =
      let known = ensure_peer payload.drone_id (some payload.position) h in
      let woken = change_peer payload.drone_id awake known in
      record woken {
        heartbeat = beat payload.drone_id timestamp_ms woken.heartbeat;
        stale_since_ms =
            if was_stale payload.drone_id (lookup payload.drone_id known.peer_drones)
              known.stale_since_ms
            then erase payload.drone_id woken.stale_since_ms
            else woken.stale_since_ms;
      }

  unfoldable pub handle_heartbeat :
      MeshEnvelope (Message F) → PeerMeshHandler F → Result (PeerMeshHandler F)
  handle_heartbeat envelope h = elim envelope.payload [
    | heartbeat_message payload ↦ ok (hear payload envelope.timestamp_ms h)
    | _ ↦ raise key_error
  ]

  unfoldable pub handle_drone_state :
      MeshEnvelope (Message F) → PeerMeshHandler F → Result (PeerMeshHandler F)
  handle_drone_state envelope h = do
    payload ← parse_drone_state_payload envelope.payload
    ok (
        change_peer payload.drone_id (reported payload)
          (ensure_peer payload.drone_id (some payload.position) h))

  unfoldable pub handle_survivor_ack :
      MeshEnvelope (Message F) → PeerMeshHandler F → Result (PeerMeshHandler F)
  handle_survivor_ack envelope h = elim envelope.payload [
    | survivor_ack_message drone_id source_drone_id zone ↦
        ok (record h { survivor_receipts = add drone_id h.survivor_receipts })
    | _ ↦ raise key_error
  ]

  unfoldable pub rejoin : String → ℕ → PeerMeshHandler F → PeerMeshHandler F
  rejoin drone_id timestamp_ms h =
      let woken = change_peer drone_id awake (ensure_peer drone_id none h) in
      record woken { heartbeat = beat drone_id timestamp_ms woken.heartbeat }

  unfoldable pub handle_rejoin :
      MeshEnvelope (Message F) → PeerMeshHandler F → Result (PeerMeshHandler F)
  handle_rejoin envelope h = elim envelope.payload [
    | rejoin_message payload ↦ ok (rejoin payload.drone_id envelope.timestamp_ms h)
    | _ ↦ raise key_error
  ]

module _ ⦃fl : Floats⦄ where
  open fl use {Float, half}

  abbrev pub put_map : String → CertaintyMap Float → PeerMeshHandler Float → PeerMeshHandler Float
  put_map drone_id peer_map h = record h { peer_maps = insert drone_id peer_map h.peer_maps }

  -- The end that both kinds of map messages share.
  abbrev pub map_received :
      String → CertaintyMap Float → PeerMeshHandler Float → PeerMeshHandler Float
  map_received drone_id peer_map h =
      record (update_visited_completed (cells peer_map) (put_map drone_id peer_map h)) {
        peer_maps_dirty = true;
      }

  unfoldable pub receive_grid :
      String → GridPayload Float → ℕ → ℕ → PeerMeshHandler Float → Result (PeerMeshHandler Float)
  receive_grid drone_id rows timestamp_ms now_ms h =
      let (known, peer_map) = ensure_peer_map drone_id now_ms h in
      merge_rows_timestamped rows timestamp_ms drone_id peer_map >>= λ merged.
      ok (map_received drone_id merged known)

  unfoldable pub receive_delta_cell :
      String → ℕ → CellPayload Float → CertaintyMap Float → Result (CertaintyMap Float)
  receive_delta_cell drone_id timestamp_ms payload peer_map = do
    x ← or_raise payload.x key_error
    y ← or_raise payload.y key_error
    merge_newer (pos x, pos y) (get_or_else payload.certainty half) drone_id
        (get_or_else payload.last_updated_ms timestamp_ms) peer_map

  unfoldable pub receive_delta :
      String
      → List (CellPayload Float)
      → ℕ
      → ℕ
      → PeerMeshHandler Float
      → Result (PeerMeshHandler Float)
  receive_delta drone_id delta_cells timestamp_ms now_ms h =
      let (known, peer_map) = ensure_peer_map drone_id now_ms h in
      each (receive_delta_cell drone_id timestamp_ms) delta_cells peer_map >>= λ merged.
      ok (map_received drone_id merged known)

  -- A single cell, of the peer's own map where the peer is named as its author.
  unfoldable pub receive_update :
      CertaintyUpdatePayload Float → ℕ → ℕ → PeerMeshHandler Float → Result (PeerMeshHandler Float)
  receive_update payload timestamp_ms now_ms h =
      let own = payload.updated_by == h.config.peer_id in
      let (known, peer_map) = ensure_peer_map payload.updated_by now_ms h in
      let base = if own then h else known in
      let target_map = if own then h.local_map else peer_map in
      merge_newer payload.cell payload.certainty payload.updated_by timestamp_ms target_map
      >>= λ merged.
          let written =
            if own
            then record base { local_map = merged }
            else put_map payload.updated_by merged base in
          ok (record (note_certainty payload.cell payload.certainty written) {
            peer_maps_dirty = true;
          })

  unfoldable pub handle_certainty_update :
      MeshEnvelope (Message Float) → ℕ → PeerMeshHandler Float → Result (PeerMeshHandler Float)
  handle_certainty_update envelope now_ms h = elim envelope.payload [
    | grid_message peer_id rows ↦
        if starts_with envelope.topic "swarm/certainty_map/"
        then receive_grid (get_or_else peer_id envelope.sender_id) rows envelope.timestamp_ms now_ms
            h
        else raise key_error
    | delta_message peer_id delta_cells ↦
        if starts_with envelope.topic "swarm/certainty_map/"
        then receive_delta (get_or_else peer_id envelope.sender_id) delta_cells
            envelope.timestamp_ms now_ms h
        else raise key_error
    | certainty_message payload ↦ receive_update payload envelope.timestamp_ms now_ms h
    | _ ↦ raise key_error
  ]

  module _ {S : Type 0} where
    abbrev pub on_handler : Peer Float S → Result (PeerMeshHandler Float) → Result (Peer Float S)
    on_handler peer r = r >>= λ h. ok (record peer { handler = h })

    unfoldable pub handle_survivor :
        MeshEnvelope (Message Float) → ℕ → Peer Float S → Result (Peer Float S)
    handle_survivor envelope now_ms peer = do
      payload ← parse_survivor_payload envelope.payload
      let found = record peer.handler { survivor_found = true }
      let acked = publish_survivor_ack payload.drone_id payload.cell now_ms found peer.mesh
      ok (record peer {
        handler = found;
        mesh = if payload.drone_id == found.config.peer_id then peer.mesh else acked;
      })

    -- One message: the handler by its topic, and whether the certainty changed.
    unfoldable pub dispatch :
        ℕ
        → (MeshEnvelope (Message Float) → Peer Float S → Result (Peer Float S))
        → (MeshEnvelope (Message Float) → Peer Float S → Result (Peer Float S))
        → MeshEnvelope (Message Float)
        → Peer Float S
        → Result (Peer Float S × Bool)
    dispatch now_ms claim_fn round_fn envelope peer =
        let topic = envelope.topic in
        let h = peer.handler in
        let same : Result (Peer Float S) → Result (Peer Float S × Bool) =
          λ r. r >>= (λ peer'. ok (peer', false)) in
        if envelope.sender_id == h.config.peer_id
        then ok (peer, false)
        else if starts_with topic "swarm/heartbeat/"
        then same (on_handler peer (handle_heartbeat envelope h))
        else if starts_with topic "swarm/drone_state/"
        then same (on_handler peer (handle_drone_state envelope h))
        else if topic == "swarm/zone_claims"
        then same (claim_fn envelope peer)
        else if starts_with topic "swarm/consensus_result/"
        then same (round_fn envelope peer)
        else if starts_with topic "swarm/certainty_map"
        then on_handler peer (handle_certainty_update envelope now_ms h)
          >>= (λ peer'. ok (peer', true))
        else if topic == "swarm/survivor_found"
        then same (handle_survivor envelope now_ms peer)
        else if starts_with topic "swarm/survivor_found_ack/"
        then same (on_handler peer (handle_survivor_ack envelope h))
        else if starts_with topic "swarm/rejoin/"
        then same (on_handler peer (handle_rejoin envelope h))
        else ok (peer, false)

    unfoldable pub dispatch_all :
        ℕ
        → (MeshEnvelope (Message Float) → Peer Float S → Result (Peer Float S))
        → (MeshEnvelope (Message Float) → Peer Float S → Result (Peer Float S))
        → List (MeshEnvelope (Message Float))
        → Peer Float S × Bool
        → Result (Peer Float S × Bool)
    dispatch_all now_ms claim_fn round_fn envelopes =
        each
          (λ envelope state. dispatch now_ms claim_fn round_fn envelope state.0 >>= λ next.
            ok (next.0, state.1 || next.1))
          envelopes

    unfoldable pub process_incoming_messages :
        ℕ
        → (MeshEnvelope (Message Float) → Peer Float S → Result (Peer Float S))
        → (MeshEnvelope (Message Float) → Peer Float S → Result (Peer Float S))
        → Peer Float S
        → Result (Peer Float S × Bool)
    process_incoming_messages now_ms claim_fn round_fn peer =
        let (mesh, envelopes) = poll (some peer.handler.config.peer_id) none peer.mesh in
        dispatch_all now_ms claim_fn round_fn envelopes (record peer { mesh = mesh }, false)
