-- ===== src/Wire.antt =====
-- simulation/protocol.py: the messages that peers exchange, and their topics. A payload is a tagged record in
-- place of a dict of JSON values, and a parser raises KeyError on a payload of another kind.
use entropyhunt.Base.{
  key_error, Result, ok, raise, Coordinate, ℕ, String, Bool, Option, List, [], ◌∷◌, string_eq,
  nat_eq, pair_eq, int_eq,
}
use entropyhunt.Base.Text.{show_ℕ, f_string}
use entropyhunt.Certainty.{CellPayload, GridPayload}
use entropyhunt.Drone.{DroneStatus}
use entropyhunt.Auction.{ClaimRequest, ZoneAssignment}

pub record HeartbeatPayload : Type 0 where
  pub drone_id : String
  pub position : Coordinate
  pub peer_status : String

pub record RejoinPayload : Type 0 where
  pub drone_id : String
  pub recovered_at_ms : ℕ

pub record ConsensusRoundPayload : Type 0 where
  pub round_id : ℕ
  pub cell : Coordinate
  pub assignments : List ZoneAssignment
  pub rationale : String
  pub contest_id : Option String
  pub released_by : Option String

pub record CertaintyUpdatePayload (F : Type 0) : Type 0 where
  pub updated_by : String
  pub cell : Coordinate
  pub certainty : F

pub record SurvivorPayload (F : Type 0) : Type 0 where
  pub drone_id : String
  pub cell : Coordinate
  pub confidence : F

pub record DroneStatePayload : Type 0 where
  pub drone_id : String
  pub position : Coordinate
  pub target : Option Coordinate
  pub status : DroneStatus
  pub alive : Bool
  pub reachable : Bool
  pub claimed_cell : Option Coordinate
  pub searched_cells : ℕ

-- The claim has the fields of a `ClaimRequest` and an assignment those of a `ZoneAssignment`; the maps
-- carry an optional "peer_id".
pub data Message (F : Type 0) : Type 0 where
  heartbeat_message : HeartbeatPayload → Message F
  rejoin_message : RejoinPayload → Message F
  claim_message : ClaimRequest → Message F
  round_message : ConsensusRoundPayload → Message F
  certainty_message : CertaintyUpdatePayload F → Message F
  grid_message : Option String → GridPayload F → Message F
  delta_message : Option String → List (CellPayload F) → Message F
  survivor_message : SurvivorPayload F → Message F
  survivor_ack_message : String → String → Coordinate → Message F
  drone_state_message : DroneStatePayload → Message F

unfoldable pub heartbeat_topic : String → String
heartbeat_topic drone_id = f_string ("swarm/heartbeat/" ∷ drone_id ∷ [])

unfoldable pub drone_state_topic : String → String
drone_state_topic drone_id = f_string ("swarm/drone_state/" ∷ drone_id ∷ [])

unfoldable pub consensus_round_topic : ℕ → String
consensus_round_topic round_id = f_string ("swarm/consensus_result/" ∷ show_ℕ round_id ∷ [])

unfoldable pub survivor_ack_topic : String → String
survivor_ack_topic drone_id = f_string ("swarm/survivor_found_ack/" ∷ drone_id ∷ [])

unfoldable pub rejoin_topic : String → String
rejoin_topic drone_id = f_string ("swarm/rejoin/" ∷ drone_id ∷ [])

module _ {F : Type 0} where
  unfoldable pub parse_claim_payload : Message F → Result ClaimRequest
  parse_claim_payload (claim_message claim) = ok claim
  parse_claim_payload _ = raise key_error

  unfoldable pub parse_consensus_round_payload : Message F → Result ConsensusRoundPayload
  parse_consensus_round_payload (round_message round) = ok round
  parse_consensus_round_payload _ = raise key_error

  unfoldable pub parse_certainty_payload : Message F → Result (CertaintyUpdatePayload F)
  parse_certainty_payload (certainty_message update) = ok update
  parse_certainty_payload _ = raise key_error

  unfoldable pub parse_survivor_payload : Message F → Result (SurvivorPayload F)
  parse_survivor_payload (survivor_message survivor) = ok survivor
  parse_survivor_payload _ = raise key_error

  unfoldable pub parse_drone_state_payload : Message F → Result DroneStatePayload
  parse_drone_state_payload (drone_state_message state) = ok state
  parse_drone_state_payload _ = raise key_error
