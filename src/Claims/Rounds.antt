-- ===== src/Claims/Rounds.antt =====
-- The methods of `PeerClaimManager` in simulation/claim_manager.py.
use entropyhunt.Base.{
  ltb, if◌then◌else◌, get_or_else, length, ◌==◌, contains, add, union, Result, ok, ◌>>=◌, each,
  Coordinate, ℕ, ◌+◌, ◌*◌, max, String, Option, none, some, List, [], ◌∷◌, map, foldl, string_eq,
  nat_eq, pair_eq, int_eq,
}
use entropyhunt.Base.Dict.{lookup, keys}
use entropyhunt.Base.Sort.{sorted}
use entropyhunt.Base.Text.{show_ℕ, show_ℤ, f_string}
use entropyhunt.Base.Numeric.{Floats}
use entropyhunt.Certainty.{CertaintyMap}
use entropyhunt.Mesh.{MeshEnvelope}
use entropyhunt.Drone.{
  claiming, claim_won, DroneState, set_assignment, clear_assignment, mark_stale,
}
use entropyhunt.Heartbeat.{detect_stale}
use entropyhunt.Auction.{ClaimRequest, ZoneAssignment}
use entropyhunt.Consensus.{ConsensusRoundResult}
use entropyhunt.Consensus.Rounds.{resolve_claims}
use entropyhunt.Consensus.Ballots.{ResolveClaimsRequest, confirm_release, sync_round_id}
use entropyhunt.Wire.{
  ConsensusRoundPayload, Message, claim_message, round_message, consensus_round_topic,
  parse_claim_payload, parse_consensus_round_payload,
}
use entropyhunt.Peer.{
  PeerMeshHandler, ensured, ensure_peer, change_peer, claimed_zones, mark_stale_since,
}
use entropyhunt.Peer.Publishing.{send}
use entropyhunt.Peer.Messages.{Peer}
use entropyhunt.Claims.{
  PeerClaimManager, track_claim, evict_pending_claims_for_cell, forget_claim,
  claim_resolution_delay_ms, expired_ids, mature_claims, group_by_cell, coordinate_lt,
  shrink_tracked, drop_resolved,
}

abbrev pub claiming_drone : DroneState → DroneState
claiming_drone drone = record drone { status = claiming }

-- What an assignment of a round does to its drone; the peer's own drone has won.
abbrev pub assigned : String → ZoneAssignment → DroneState → DroneState
assigned peer_id a drone =
    let taken = set_assignment a.cell a.subzone drone in
    if a.reason == "idle"
    then clear_assignment drone
    else if a.drone_id == peer_id
    then record taken { status = claim_won }
    else taken

abbrev pub payload_of : ConsensusRoundResult → Option String → ConsensusRoundPayload
payload_of result released_by = record {
  round_id = result.round_id;
  cell = result.cell;
  assignments = result.assignments;
  rationale = result.rationale;
  contest_id = some result.contest_id;
  released_by = released_by;
}

module _ {F : Type 0} where
  abbrev pub with_handler : PeerMeshHandler F → Peer F PeerClaimManager → Peer F PeerClaimManager
  with_handler h peer = record peer { handler = h }

  abbrev pub with_claims : PeerClaimManager → Peer F PeerClaimManager → Peer F PeerClaimManager
  with_claims m peer = record peer { claims = m }

  unfoldable pub handle_claim :
      MeshEnvelope (Message F) → Peer F PeerClaimManager → Result (Peer F PeerClaimManager)
  handle_claim envelope peer = do
    claim ← parse_claim_payload envelope.payload
    let known = ensure_peer claim.drone_id (some claim.position) peer.handler
    let noted = record peer {
      handler = change_peer claim.drone_id claiming_drone known;
      claims = track_claim claim claim.timestamp_ms peer.claims;
    }
    ok (if contains peer.claims.resolved_claim_ids claim.claim_id then peer else noted)

  unfoldable pub apply_assignments : List ZoneAssignment → PeerMeshHandler F → PeerMeshHandler F
  apply_assignments [] h = h
  apply_assignments (a ∷ as') h =
      apply_assignments as'
        (change_peer a.drone_id (assigned h.config.peer_id a) (ensure_peer a.drone_id none h))

  abbrev pub release : Option String → ℕ → PeerMeshHandler F → PeerMeshHandler F
  release none now_ms h = h
  release (some drone_id) now_ms h =
      mark_stale_since drone_id now_ms
        (change_peer drone_id mark_stale (ensure_peer drone_id none h))

  unfoldable pub process_round :
      ConsensusRoundPayload → ℕ → Peer F PeerClaimManager → Peer F PeerClaimManager
  process_round round now_ms peer =
      let m = peer.claims in
      let counted = record m {
        processed_rounds = add round.round_id m.processed_rounds;
        resolver = sync_round_id round.round_id m.resolver;
        auctions = m.auctions + (if ltb 1 (length round.assignments) then 1 else 0);
      } in
      record peer {
        handler =
            apply_assignments round.assignments (release round.released_by now_ms peer.handler);
        claims = evict_pending_claims_for_cell round.cell counted;
      }

  unfoldable pub apply_round_payload :
      ConsensusRoundPayload → ℕ → Peer F PeerClaimManager → Peer F PeerClaimManager
  apply_round_payload round now_ms peer =
      if contains peer.claims.processed_rounds round.round_id
      then peer
      else process_round round now_ms peer

  unfoldable pub handle_consensus_round :
      ℕ → MeshEnvelope (Message F) → Peer F PeerClaimManager → Result (Peer F PeerClaimManager)
  handle_consensus_round now_ms envelope peer = do
    round ← parse_consensus_round_payload envelope.payload
    ok (apply_round_payload round now_ms peer)

  -- A round is published, and then applied here.
  unfoldable pub announce_round :
      ConsensusRoundPayload → ℕ → Peer F PeerClaimManager → Peer F PeerClaimManager
  announce_round round now_ms peer =
      let sent =
        send (consensus_round_topic round.round_id) (round_message round) now_ms peer.handler
          peer.mesh in
      apply_round_payload round now_ms (record peer { mesh = sent })

  -- The cell that a stale drone claims is released in a round of its own, once.
  unfoldable pub release_cell :
      String → ℕ → Option Coordinate → Peer F PeerClaimManager → Peer F PeerClaimManager
  release_cell drone_id now_ms none peer = peer
  release_cell drone_id now_ms (some zone) peer =
      let (resolver, result) = confirm_release drone_id zone (some now_ms) peer.claims.resolver in
      let started = with_claims (record peer.claims { resolver = resolver }) peer in
      let announced = announce_round (payload_of result (some drone_id)) now_ms started in
      with_claims
        (record announced.claims { released_stale = add drone_id announced.claims.released_stale })
        announced

  unfoldable pub lose_peer :
      String → ℕ → DroneState → Peer F PeerClaimManager → Peer F PeerClaimManager
  lose_peer drone_id now_ms drone peer =
      let released =
        if contains peer.claims.released_stale drone_id
        then peer
        else release_cell drone_id now_ms drone.claimed_cell peer in
      with_handler
        (mark_stale_since drone_id now_ms (change_peer drone_id mark_stale released.handler))
        released

  unfoldable pub lose_peers : ℕ → List String → Peer F PeerClaimManager → Peer F PeerClaimManager
  lose_peers now_ms [] peer = peer
  lose_peers now_ms (drone_id ∷ drone_ids) peer =
      let known = with_handler (ensure_peer drone_id none peer.handler) peer in
      let drone = ensured drone_id none (lookup drone_id peer.handler.peer_drones) in
      lose_peers now_ms drone_ids (
        if drone_id == peer.handler.config.peer_id
        then peer
        else if drone.alive
        then lose_peer drone_id now_ms drone known
        else known)

  unfoldable pub detect_stale_peers : ℕ → ℕ → Peer F PeerClaimManager → Peer F PeerClaimManager
  detect_stale_peers now_ms tick_ms peer =
      let config = peer.handler.config in
      let timeout_ms =
        max (config.stale_after_seconds * 1000) (tick_ms * config.stale_timeout_tick_multiplier) in
      let (heartbeat, status) = detect_stale now_ms timeout_ms peer.handler.heartbeat in
      lose_peers now_ms status.stale
        (with_handler (record peer.handler { heartbeat = heartbeat }) peer)

  unfoldable pub build_and_publish_claim :
      Coordinate → ℕ → Coordinate → Peer F PeerClaimManager → Peer F PeerClaimManager × ClaimRequest
  build_and_publish_claim zone now_ms position peer =
      let peer_id = peer.handler.config.peer_id in
      let claim : ClaimRequest = record {
        claim_id =
            f_string
              (peer_id ∷ ":" ∷ show_ℤ zone.0 ∷ ":" ∷ show_ℤ zone.1 ∷ ":" ∷ show_ℕ now_ms ∷ []);
        drone_id = peer_id;
        cell = zone;
        position = position;
        timestamp_ms = now_ms;
      } in
      (
        record peer {
          claims = track_claim claim now_ms peer.claims;
          mesh = send "swarm/zone_claims" (claim_message claim) now_ms peer.handler peer.mesh;
        },
        claim,
      )

module _ ⦃fl : Floats⦄ where
  open fl use {Float}

  -- The claims on one cell are resolved among themselves; the request has the default time 0.
  unfoldable pub resolve_cell :
      ℕ
      → String
      → CertaintyMap Float
      → List ClaimRequest
      → Peer Float PeerClaimManager
      → Result (Peer Float PeerClaimManager)
  resolve_cell now_ms nonce certainty_map claims peer =
      let request : ResolveClaimsRequest Float = record {
        certainty_map = certainty_map;
        claimed_zones = claimed_zones peer.handler;
        now_ms = 0;
        initiator_id = none;
        per_peer_maps = [];
      } in
      let (resolver, mesh, answer) =
        resolve_claims {M = Unit {0}} claims request
          (record { nonce = nonce; voters = []; polls = 0 }) peer.claims.resolver none in
      answer >>= λ result.
      let started = with_claims (record peer.claims { resolver = resolver }) peer in
      let announced = announce_round (payload_of result none) now_ms started in
      let resolved = union announced.claims.resolved_claim_ids (map (λ c. c.claim_id) claims) in
      ok (with_claims (record announced.claims { resolved_claim_ids = resolved }) announced)

  unfoldable pub resolve_pending_claims :
      ℕ
      → ℕ
      → String
      → CertaintyMap Float
      → Peer Float PeerClaimManager
      → Result (Peer Float PeerClaimManager)
  resolve_pending_claims now_ms tick_ms nonce certainty_map peer =
      let delay_ms = claim_resolution_delay_ms peer.handler.config tick_ms in
      let expired = expired_ids now_ms (2 * delay_ms) peer.claims.pending_claim_timestamps in
      let fresh = foldl forget_claim peer.claims expired in
      let grouped = group_by_cell (mature_claims now_ms delay_ms fresh) [] in
      let zones = sorted coordinate_lt (keys grouped) in
      each (λ zone. resolve_cell now_ms nonce certainty_map (get_or_else (lookup zone grouped) []))
        zones (with_claims fresh peer)
      >>= λ resolved.
          let m = resolved.claims in
          ok (with_claims (shrink_tracked (drop_resolved (keys m.pending_claims) m)) resolved)
