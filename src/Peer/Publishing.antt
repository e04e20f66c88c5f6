-- ===== src/Peer/Publishing.antt =====
-- What a peer publishes: simulation/mesh_handler.py.
use entropyhunt.Base.{
  if◌then◌else◌, ◌==◌, value_error, Result, ok, raise, ◌>>=◌, Coordinate, ℕ, String, Bool, true,
  false, not, ◌&&◌, Option, none, some, List, [], ◌∷◌, ◌++◌, string_eq, nat_eq, pair_eq, int_eq,
}
use entropyhunt.Base.Dict.{lookup}
use entropyhunt.Base.Text.{f_string}
use entropyhunt.Base.Numeric.{Floats}
use entropyhunt.Certainty.{coordinate, CellPayload, GridPayload, to_rows}
use entropyhunt.Mesh.{InMemoryMeshBus, publish}
use entropyhunt.Heartbeat.{beat}
use entropyhunt.Drone.{DroneState}
use entropyhunt.Wire.{
  Message, heartbeat_message, certainty_message, grid_message, delta_message, survivor_ack_message,
  drone_state_message, heartbeat_topic, drone_state_topic, survivor_ack_topic,
}
use entropyhunt.Peer.{PeerMeshHandler}

module _ {F : Type 0} where
  abbrev pub local_drone : PeerMeshHandler F → Option DroneState
  local_drone h = lookup h.config.peer_id h.peer_drones

  abbrev pub send :
      String
      → Message F
      → ℕ
      → PeerMeshHandler F
      → InMemoryMeshBus (Message F)
      → InMemoryMeshBus (Message F)
  send topic message now_ms h bus =
      (publish topic message now_ms (some h.config.peer_id) none bus).0

  abbrev pub heartbeat_of : DroneState → String → Message F
  heartbeat_of drone peer_status =
      heartbeat_message
        (record { drone_id = drone.drone_id; position = drone.position; peer_status = peer_status })

  unfoldable pub publish_heartbeat :
      ℕ
      → String
      → PeerMeshHandler F
      → InMemoryMeshBus (Message F)
      → PeerMeshHandler F × InMemoryMeshBus (Message F)
  publish_heartbeat now_ms peer_status h bus = elim (local_drone h) [
    | none ↦ (h, bus)
    | some drone ↦
        if drone.alive
        then (
          record h { heartbeat = beat drone.drone_id now_ms h.heartbeat },
          send (heartbeat_topic drone.drone_id) (heartbeat_of drone peer_status) now_ms h bus,
        )
        else (h, bus)
  ]

  abbrev pub state_of : DroneState → Message F
  state_of drone = drone_state_message (record {
    drone_id = drone.drone_id;
    position = drone.position;
    target = drone.target_cell;
    status = drone.status;
    alive = drone.alive;
    reachable = drone.reachable;
    claimed_cell = drone.claimed_cell;
    searched_cells = drone.searched_cells;
  })

  unfoldable pub publish_state :
      ℕ → PeerMeshHandler F → InMemoryMeshBus (Message F) → InMemoryMeshBus (Message F)
  publish_state now_ms h bus = elim (local_drone h) [
    | none ↦ bus
    | some drone ↦ send (drone_state_topic drone.drone_id) (state_of drone) now_ms h bus
  ]

  unfoldable pub publish_certainty_delta :
      Coordinate
      → F
      → String
      → ℕ
      → PeerMeshHandler F
      → InMemoryMeshBus (Message F)
      → InMemoryMeshBus (Message F)
  publish_certainty_delta coordinate certainty updated_by now_ms h bus =
      send "swarm/certainty_map"
        (certainty_message
          (record { updated_by = updated_by; cell = coordinate; certainty = certainty }))
        now_ms h bus

  unfoldable pub publish_survivor_ack :
      String
      → Coordinate
      → ℕ
      → PeerMeshHandler F
      → InMemoryMeshBus (Message F)
      → InMemoryMeshBus (Message F)
  publish_survivor_ack source_drone_id zone now_ms h bus =
      send (survivor_ack_topic h.config.peer_id)
        (survivor_ack_message h.config.peer_id source_drone_id zone) now_ms h bus

module _ ⦃fl : Floats⦄ where
  open fl use {Float, lt}

  abbrev pub same_float : Option Float → Option Float → Bool
  same_float none none = true
  same_float (some a) (some b) = not (lt a b) && not (lt b a)
  same_float none (some b) = false
  same_float (some a) none = false

  abbrev pub same_time : Option ℕ → Option ℕ → Bool
  same_time none none = true
  same_time (some a) (some b) = a == b
  same_time none (some b) = false
  same_time (some a) none = false

  -- The cells of a row whose certainty or time is another than in the last snapshot: `zip(…, strict=True)`.
  unfoldable pub changed_cells :
      List (CellPayload Float) → List (CellPayload Float) → Result (List (CellPayload Float))
  changed_cells [] [] = ok []
  changed_cells (c ∷ cs) (l ∷ ls) = do
    rest ← changed_cells cs ls
    ok (
        if same_float c.certainty l.certainty && same_time c.last_updated_ms l.last_updated_ms
        then rest
        else c ∷ rest)
  changed_cells _ _ = raise value_error

  unfoldable pub changed_rows :
      GridPayload Float → GridPayload Float → Result (List (CellPayload Float))
  changed_rows [] [] = ok []
  changed_rows (row ∷ rows) (last ∷ lasts) = do
    here ← changed_cells row last
    rest ← changed_rows rows lasts
    ok (here ++ rest)
  changed_rows _ _ = raise value_error

  abbrev pub map_topic : PeerMeshHandler Float → String
  map_topic h = f_string ("swarm/certainty_map/" ∷ h.config.peer_id ∷ [])

  abbrev pub send_delta :
      List (CellPayload Float)
      → ℕ
      → PeerMeshHandler Float
      → InMemoryMeshBus (Message Float)
      → InMemoryMeshBus (Message Float)
  send_delta [] now_ms h bus = bus
  send_delta (c ∷ cs) now_ms h bus = send (map_topic h) (delta_message none (c ∷ cs)) now_ms h bus

  unfoldable pub publish_local_map_snapshot :
      ℕ
      → PeerMeshHandler Float
      → InMemoryMeshBus (Message Float)
      → Result (PeerMeshHandler Float × InMemoryMeshBus (Message Float))
  publish_local_map_snapshot now_ms h bus =
      let rows = to_rows [] h.local_map in
      let h' = record h { last_snapshot_rows = some rows } in
      elim h.last_snapshot_rows [
        | none ↦ ok (h', send (map_topic h) (grid_message none rows) now_ms h bus)
        | some last_rows ↦
            changed_rows rows last_rows >>= λ delta. ok (h', send_delta delta now_ms h bus)
      ]
