-- ===== src/Consensus/Ballots.antt =====
-- core/consensus.py: the votes that a resolver casts, the release of a claim, and what comes from other peers.
use entropyhunt.Base.{
  if◌then◌else◌, get_or_else, get_elem?, keep, first, ◌==◌, distinct, index_error, Result, ok,
  raise, or_raise, Coordinate, ℕ, suc, ◌*◌, max, String, Bool, false, not, ◌&&◌, ◌||◌, Option, none,
  some, List, [], ◌∷◌, string_eq, nat_eq, pair_eq, int_eq,
}
use entropyhunt.Base.Dict.{Dict}
use entropyhunt.Base.Text.{f_string}
use entropyhunt.Certainty.{CertaintyMap, cell}
use entropyhunt.Mesh.{MeshEnvelope, publish}
use entropyhunt.Auction.{AuctionDecision}
use entropyhunt.Consensus.{
  VoteRecord, ConsensusRoundResult, Payload, consensus_vote, DeterministicResolver, Bus,
  contest_id_of, payload_contest, unanimous, votes_topic,
}

pub record ResolveClaimsRequest (F : Type 0) : Type 0 where
  pub certainty_map : CertaintyMap F
  pub claimed_zones : List Coordinate
  pub now_ms : ℕ
  pub initiator_id : Option String
  pub per_peer_maps : Dict String (CertaintyMap F)

-- What a round depends on besides its claims: the nonce, the threads' order, and the polls in time.
pub record Schedule : Type 0 where
  pub nonce : String
  pub voters : List String
  pub polls : ℕ

-- The resolver and its bus, if it has one, after a call, and what the call answers.
abbrev pub Outcome : Type 0 → Type 0 → Type 0
Outcome M A = DeterministicResolver × Option (Bus M) × Result A

-- The assignment of the voted drone goes first.
unfoldable pub promote : String → String → AuctionDecision → AuctionDecision
promote winning_choice fallback_choice decision =
    if winning_choice == fallback_choice || winning_choice == "split"
    then decision
    else elim (first (λ a. a.drone_id == winning_choice) decision.assignments) [
      | none ↦ decision
      | some winning_assignment ↦ record {
        cell = decision.cell;
        assignments =
            winning_assignment
            ∷ keep (λ a. not (a.drone_id == winning_choice)) decision.assignments;
        rationale = f_string ("majority vote -> " ∷ winning_choice ∷ []);
      }
    ]

-- `initiator_id or self.peer_ids[0]`
abbrev pub initiator_of : Option String → List String → Result String
initiator_of none peer_ids = or_raise (get_elem? peer_ids 0) index_error
initiator_of (some i) peer_ids =
    if i == "" then or_raise (get_elem? peer_ids 0) index_error else ok i

abbrev pub is_for : String → Option String → Bool
is_for contest_id none = false
is_for contest_id (some i) = i == contest_id

-- The votes that one peer's thread casts: one for each announcement of the contest in its inbox.
unfoldable pub cast_votes :
    {M : Type 0} → VoteRecord → List (MeshEnvelope (Payload M)) → List VoteRecord
cast_votes vote [] = []
cast_votes vote (envelope ∷ envelopes) =
    let rest = cast_votes vote envelopes in
    let announced = is_for vote.contest_id (payload_contest envelope.payload) in
    if envelope.topic == "swarm/zone_claims" && announced then vote ∷ rest else rest

-- A thread that raises casts no vote.
abbrev pub votes_of : Result String → (String → List VoteRecord) → List VoteRecord
votes_of (raise error) cast = []
votes_of (ok choice) cast = cast choice

unfoldable pub publish_votes : {M : Type 0} → List VoteRecord → String → ℕ → ℕ → Bus M → Bus M
publish_votes [] contest_id round_id now_ms bus = bus
publish_votes (vote ∷ votes) contest_id round_id now_ms bus =
    publish_votes votes contest_id round_id now_ms
      (publish (votes_topic contest_id) (consensus_vote vote round_id) now_ms (some vote.voter_id)
        none bus).0

unfoldable pub confirm_release :
    String
    → Coordinate
    → Option ℕ
    → DeterministicResolver
    → DeterministicResolver × ConsensusRoundResult
confirm_release drone_id cell now_ms resolver =
    let round_id = suc resolver.round_id in
    let now = get_or_else now_ms (round_id * 1000) in
    let contest_id = contest_id_of round_id cell now in
    (
      record resolver { round_id = round_id },
      record {
        round_id = round_id;
        contest_id = contest_id;
        cell = cell;
        assignments = [];
        votes =
            unanimous resolver.peer_ids (f_string ("release:" ∷ drone_id ∷ [])) contest_id now "";
        rationale = "stale heartbeat timeout -> release confirmed";
      },
    )

unfoldable pub sync_round_id : ℕ → DeterministicResolver → DeterministicResolver
sync_round_id round_id resolver = record resolver { round_id = max resolver.round_id round_id }

unfoldable pub set_peer_ids : List String → DeterministicResolver → DeterministicResolver
set_peer_ids peer_ids resolver = record resolver { peer_ids = distinct peer_ids }
