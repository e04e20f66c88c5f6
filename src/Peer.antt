-- ===== src/Peer.antt =====
-- simulation/mesh_handler.py: what a peer knows of the others, and how messages change it. The peer's own
-- drone is its entry in `peer_drones`, as in simulation/runtime.py; logging is left out.
pub mod Messages
pub mod Publishing
pub mod Merging
pub mod Liveness
-- The fields of `PeerRuntimeConfig` that the peer's parts read.
use entropyhunt.Base.{
  if◌then◌else◌, add, Result, ok, ◌>>=◌, each, pos, Coordinate, ℕ, String, Bool, false, not, ◌&&◌,
  Option, none, some, List, [], ◌∷◌, string_eq, nat_eq, pair_eq, int_eq,
}
use entropyhunt.Base.Dict.{Dict, lookup, insert, values}
use entropyhunt.Base.Numeric.{Floats, le_f}
use entropyhunt.Certainty.{
  CellState, coordinate, CertaintyMap, new_map, GridPayload, reset_from, merge_timestamped_from,
}
use entropyhunt.Heartbeat.{HeartbeatRegistry}
use entropyhunt.Drone.{DroneState, new_drone}

pub record PeerConfig (F : Type 0) : Type 0 where
  pub peer_id : String
  pub grid : ℕ
  pub decay_rate : F
  pub completion_certainty : F
  pub stale_after_seconds : ℕ
  pub stale_timeout_tick_multiplier : ℕ
  pub transport : String

pub record PeerMeshHandler (F : Type 0) : Type 0 where
  pub config : PeerConfig F
  pub local_map : CertaintyMap F
  pub peer_maps : Dict String (CertaintyMap F)
  pub heartbeat : HeartbeatRegistry
  pub peer_drones : Dict String DroneState
  pub completed_cells : List Coordinate
  pub visited_cells : List Coordinate
  pub survivor_found : Bool
  pub survivor_receipts : List String
  pub peer_maps_dirty : Bool
  pub stale_since_ms : Dict String ℕ
  pub last_snapshot_rows : Option (GridPayload F)

-- The drone of a peer after `ensure_peer`.
abbrev pub ensured : String → Option Coordinate → Option DroneState → DroneState
ensured drone_id none none = new_drone drone_id (pos 0, pos 0)
ensured drone_id (some position) none = new_drone drone_id position
ensured drone_id none (some drone) = drone
ensured drone_id (some position) (some drone) = record drone { position = position }

abbrev pub active : DroneState → Bool
active drone = drone.alive && drone.reachable

abbrev pub add_claim : DroneState → List Coordinate → List Coordinate
add_claim drone zones = elim drone.claimed_cell [ none ↦ zones | some zone ↦ add zone zones ]

unfoldable pub zones_of : List DroneState → List Coordinate → List Coordinate
zones_of [] zones = zones
zones_of (drone ∷ drones) zones =
    zones_of drones (if active drone then add_claim drone zones else zones)

abbrev pub add_owner : DroneState → Dict Coordinate String → Dict Coordinate String
add_owner drone owners = elim drone.claimed_cell [
  | none ↦ owners
  | some zone ↦ insert zone drone.drone_id owners
]

unfoldable pub owners_of : List DroneState → Dict Coordinate String → Dict Coordinate String
owners_of [] owners = owners
owners_of (drone ∷ drones) owners =
    owners_of drones (if active drone then add_owner drone owners else owners)

module _ {F : Type 0} where
  unfoldable pub ensure_peer : String → Option Coordinate → PeerMeshHandler F → PeerMeshHandler F
  ensure_peer drone_id position h = record h {
    peer_drones =
        insert drone_id (ensured drone_id position (lookup drone_id h.peer_drones)) h.peer_drones;
  }

  -- An assignment to fields of a known peer's drone.
  unfoldable pub change_peer :
      String → (DroneState → DroneState) → PeerMeshHandler F → PeerMeshHandler F
  change_peer drone_id change h = elim (lookup drone_id h.peer_drones) [
    | none ↦ h
    | some drone ↦ record h { peer_drones = insert drone_id (change drone) h.peer_drones }
  ]

  unfoldable pub claimed_zones : PeerMeshHandler F → List Coordinate
  claimed_zones h = zones_of (values h.peer_drones) []

  unfoldable pub claimed_owner_map : PeerMeshHandler F → Dict Coordinate String
  claimed_owner_map h = owners_of (values h.peer_drones) []

  unfoldable pub mark_stale_since : String → ℕ → PeerMeshHandler F → PeerMeshHandler F
  mark_stale_since drone_id now_ms h = record h {
    stale_since_ms = insert drone_id now_ms h.stale_since_ms;
  }

module _ ⦃fl : Floats⦄ where
  open fl use {Float, half}

  -- The map of a peer, a new one if it has none yet, and the handler that holds it.
  unfoldable pub ensure_peer_map :
      String → ℕ → PeerMeshHandler Float → PeerMeshHandler Float × CertaintyMap Float
  ensure_peer_map drone_id now_ms h =
      let fresh = new_map h.config.grid half h.config.decay_rate now_ms in
      elim (lookup drone_id h.peer_maps) [
        | none ↦ (record h { peer_maps = insert drone_id fresh h.peer_maps }, fresh)
        | some peer_map ↦ (h, peer_map)
      ]

  unfoldable pub recompute_merged_map :
      CertaintyMap Float
      → Bool
      → PeerMeshHandler Float
      → Result (PeerMeshHandler Float × Option (CertaintyMap Float))
  recompute_merged_map merged_map force h =
      if not force && not h.peer_maps_dirty
      then ok (h, none)
      else (reset_from h.local_map merged_map >>= λ own.
          each merge_timestamped_from (values h.peer_maps) own >>= λ merged.
          ok (record h { peer_maps_dirty = false }, some merged))

  -- One cell's part of `update_visited_completed`, also used for a certainty message.
  unfoldable pub note_certainty : Coordinate → Float → PeerMeshHandler Float → PeerMeshHandler Float
  note_certainty zone certainty h = record h {
    visited_cells = if fl.lt half certainty then add zone h.visited_cells else h.visited_cells;
    completed_cells =
        if le_f h.config.completion_certainty certainty
        then add zone h.completed_cells
        else h.completed_cells;
  }

  unfoldable pub update_visited_completed :
      List (CellState Float) → PeerMeshHandler Float → PeerMeshHandler Float
  update_visited_completed [] h = h
  update_visited_completed (c ∷ cs) h =
      update_visited_completed cs (note_certainty (coordinate c) c.certainty h)
