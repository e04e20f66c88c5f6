-- ===== src/Tests/Rounds.antt =====
-- A peer and what it hears: simulation/mesh_handler.py and simulation/claim_manager.py.
use mathlib.Core.List.{Permᴰ}
use entropyhunt.Base.{
  ltb, if◌then◌else◌, ◌==◌, string_discrete, pair_discrete, text_ne, ok, ℤ, pos, Coordinate, ℕ, ◌+◌,
  String, ◌≡◌, refl, ◌≢◌, true, false, none, some, List, [], ◌∷◌, arith, ℕ_discrete, string_eq,
  nat_eq, pair_eq, int_eq,
}
use entropyhunt.Base.Int.{ℤ_discrete}
use entropyhunt.Base.Dict.{Dict, lookup, insert, erase}
use entropyhunt.Certainty.{CellState, CertaintyMap, cell}
use entropyhunt.Certainty.Square.{InRange}
use entropyhunt.Certainty.Convergence.{observation}
use entropyhunt.Mesh.{new_bus}
use entropyhunt.Drone.{DroneState, new_drone, mark_stale, set_assignment}
use entropyhunt.Heartbeat.Laws.{IsValid}
use entropyhunt.Claims.Lost.{detect_stale_peers_lem}
use entropyhunt.Claims.Others.{alive_of, stale_timeout}
use entropyhunt.Heartbeat.{empty, is_stale}
use entropyhunt.Auction.{ClaimRequest, assignment}
use entropyhunt.Wire.{HeartbeatPayload, ConsensusRoundPayload, Message}
use entropyhunt.Peer.{PeerMeshHandler, recompute_merged_map}
use entropyhunt.Peer.Messages.{Peer, hear}
use entropyhunt.Peer.Liveness.{hear_lem}
use entropyhunt.Peer.Merging.{recompute-perm}
use entropyhunt.Claims.{PeerClaimManager, track_claim, evict_pending_claims_for_cell, forget_claim}
use entropyhunt.Claims.Pending.{Change, tracks, forgets, change, run, IsIndexed, run-evicts}
use entropyhunt.Claims.Rounds.{process_round, apply_round_payload, detect_stale_peers}
use entropyhunt.Claims.Once.{Event, applies, cuts, step, after, HaveRoom, apply_round_twice}
use entropyhunt.Tests.Numbers.{thousandths}
use entropyhunt.Tests.Maps.{
  left_map, right_map, own_map, own-IsSquare, right-IsSquare, left-IsSquare, left-IsPeerOf,
  right-IsPeerOf,
}

abbrev knowing : Dict String (CertaintyMap ℤ) → PeerMeshHandler ℤ
knowing peer_maps = record {
  config = record {
    peer_id = "c";
    grid = 2;
    decay_rate = pos 10;
    completion_certainty = pos 950;
    stale_after_seconds = 3;
    stale_timeout_tick_multiplier = 20;
    transport = "local";
  };
  local_map = own_map;
  peer_maps = peer_maps;
  heartbeat = empty;
  peer_drones =
      ("c", new_drone "c" (pos 0, pos 0)) ∷ ("a", mark_stale (new_drone "a" (pos 1, pos 0))) ∷ [];
  completed_cells = [];
  visited_cells = [];
  survivor_found = false;
  survivor_receipts = [];
  peer_maps_dirty = true;
  stale_since_ms = ("a", 40) ∷ [];
  last_snapshot_rows = none;
}

abbrev beat_of_a : HeartbeatPayload
beat_of_a = record { drone_id = "a"; position = (pos 1, pos 1); peer_status = "HEALTHY" }

abbrev name_a : String
name_a = "a"

hear_lem_example :
    let h' = hear beat_of_a 90 (knowing []) in
    (d : DroneState) × (lookup "a" h'.peer_drones
      ≡ (if name_a == name_a then some d else lookup "a" (knowing []).peer_drones))
    × (d.alive ≡ true)
    × (d.reachable ≡ true)
    × (d.position ≡ (pos 1, pos 1))
    × (lookup "a" h'.stale_since_ms
        ≡ (if name_a == name_a then none else lookup "a" (knowing []).stale_since_ms))
    × (is_stale "a" 100 30 h'.heartbeat ≡ (
        if name_a == name_a then ltb (90 + 30) 100 else is_stale "a" 100 30 (knowing []).heartbeat))
hear_lem_example = hear_lem beat_of_a 90 (knowing []) "a" 100 30

abbrev left_first : PeerMeshHandler ℤ
left_first = knowing (("a", left_map) ∷ ("b", right_map) ∷ [])

abbrev right_first : PeerMeshHandler ℤ
right_first = knowing (("b", right_map) ∷ ("a", left_map) ∷ [])

recompute-perm_example :
    (m : CertaintyMap ℤ) × (m' : CertaintyMap ℤ) × (recompute_merged_map right_map true left_first
      ≡ ok (record left_first { peer_maps_dirty = false }, some m))
    × (recompute_merged_map left_map true right_first
        ≡ ok (record right_first { peer_maps_dirty = false }, some m'))
    × ((q : Coordinate)
        → InRange q own_map
        → (c : CellState ℤ) × (d : CellState ℤ) × (cell q m ≡ ok c)
          × (cell q m' ≡ ok d)
          × (observation c ≡ observation d))
recompute-perm_example =
    recompute-perm right_map left_map left_first right_first (Permᴰ.swap refl refl) refl
      own-IsSquare (right-IsSquare, refl) (left-IsSquare, refl)
      (left-IsPeerOf, (right-IsPeerOf, tt)) (right-IsPeerOf, (left-IsPeerOf, tt))

abbrev manager : PeerClaimManager
manager = record {
  resolver = record {
    peer_ids = "c" ∷ [];
    round_id = 0;
    last_received_votes = [];
    seen_votes = [];
    seen_votes_order = [];
  };
  auctions = 0;
  pending_claims = [];
  resolved_claim_ids = [];
  processed_rounds = [];
  released_stale = [];
  pending_claims_by_cell = [];
  pending_claim_timestamps = [];
}

abbrev peer : Peer ℤ PeerClaimManager
peer = record { handler = knowing []; mesh = new_bus (Message ℤ) "c" 10; claims = manager }

abbrev round_of : ℕ → String → ConsensusRoundPayload
round_of n drone = record {
  round_id = n;
  cell = (pos 0, pos 0);
  assignments = assignment drone (pos 0, pos 0) "winner" none ∷ [];
  rationale = "test";
  contest_id = none;
  released_by = none;
}

abbrev later_events : List Event
later_events = applies (round_of 5 "c") 15 ∷ cuts ∷ []

later-HaveRoom : HaveRoom later_events (apply_round_payload (round_of 4 "c") 10 peer)
unfolding step apply_round_payload process_round evict_pending_claims_for_cell ℕ_discrete
later-HaveRoom = (tt, (omega arith, tt))

apply_round_twice_example :
    apply_round_payload
      (round_of 4 "a")
      20
      (after later_events (apply_round_payload (round_of 4 "c") 10 peer))
    ≡ after later_events (apply_round_payload (round_of 4 "c") 10 peer)
apply_round_twice_example =
    apply_round_twice (round_of 4 "c") (round_of 4 "a") 10 20 later_events peer refl later-HaveRoom

abbrev claim_at : String → Coordinate → ClaimRequest
claim_at id zone = record {
  claim_id = id;
  drone_id = "a";
  cell = zone;
  position = (pos 1, pos 0);
  timestamp_ms = 5;
}

abbrev changes : List Change
changes =
    tracks (claim_at "1" (pos 0, pos 0)) 5
    ∷ tracks (claim_at "2" (pos 1, pos 0)) 6
    ∷ forgets "9"
    ∷ []

manager-IsIndexed : IsIndexed manager
unfolding lookup
manager-IsIndexed i c e = cc

still_pending :
    lookup "2" (evict_pending_claims_for_cell (pos 0, pos 0) (run manager changes)).pending_claims
    ≡ some (claim_at "2" (pos 1, pos 0))
unfolding lookup evict_pending_claims_for_cell run change track_claim forget_claim insert erase
    string_discrete ℤ_discrete pair_discrete ℕ_discrete
still_pending = refl

run-evicts_example : (pos 0, pos 0) ≢ (claim_at "2" (pos 1, pos 0)).cell
run-evicts_example =
    run-evicts changes manager (pos 0, pos 0) "2" (claim_at "2" (pos 1, pos 0)) manager-IsIndexed
      still_pending

-- A peer that has not heard of drone "a" for long, which claims a cell.
abbrev deserted : Peer ℤ PeerClaimManager
deserted = record peer {
  handler = record peer.handler {
    heartbeat = record { last_seen_ms = ("a", 40) ∷ []; stale = [] };
    peer_drones =
        ("c", new_drone "c" (pos 0, pos 0))
        ∷ ("a", set_assignment (pos 1, pos 0) none (new_drone "a" (pos 0, pos 0)))
        ∷ [];
  };
}

deserted-IsValid : IsValid deserted.handler.heartbeat
unfolding lookup
deserted-IsValid = (refl, tt)

not_own : name_a ≢ deserted.handler.config.peer_id
not_own = text_ne "a" "c" refl

detect_stale_peers_lem_example : alive_of "a" (detect_stale_peers 5000 100 deserted).handler ≡ (
    if is_stale "a" 5000 (stale_timeout 100 deserted.handler) deserted.handler.heartbeat
    then some false
    else alive_of "a" deserted.handler)
detect_stale_peers_lem_example =
    detect_stale_peers_lem 5000 100 deserted "a" deserted-IsValid not_own
