-- ===== src/Consensus.antt =====
-- core/consensus.py: what a round of votes over the mesh is made of. `time` and `uuid` are arguments: a
-- round's nonce, and how many polls the quorum's deadline leaves room for.
pub mod Ballots
pub mod Rounds
pub mod Ranking
pub mod Majority
pub mod Seen
pub mod Repeats
pub mod Promotion
pub mod Results
pub mod Numbers
pub mod Runs
use entropyhunt.Base.{
  ltb, leb, if◌then◌else◌, is_some, get_or_else, length, ◌==◌, contains, add, discard, distinct,
  Error, index_error, key_error, Result, ok, raise, ◌>>=◌, Coordinate, ℕ, zero, suc, String, Bool,
  Option, none, some, List, [], ◌∷◌, ◌++◌, map, string_eq, nat_eq, pair_eq, int_eq,
}
use entropyhunt.Base.Dict.{Dict, lookup, insert, values}
use entropyhunt.Base.Sort.{sorted}
use entropyhunt.Base.Order.{by_key}
use entropyhunt.Base.Text.{text_lt, show_ℕ, show_ℤ, f_string}
use entropyhunt.Mesh.{MeshEnvelope, InMemoryMeshBus, subscribe, poll}
use entropyhunt.Auction.{ClaimRequest, ZoneAssignment, AuctionDecision}

pub record VoteRecord : Type 0 where
  pub voter_id : String
  pub choice : String
  pub contest_id : String
  pub timestamp_ms : ℕ
  pub nonce : String

pub record ConsensusRoundResult : Type 0 where
  pub round_id : ℕ
  pub contest_id : String
  pub cell : Coordinate
  pub assignments : List ZoneAssignment
  pub votes : List VoteRecord
  pub rationale : String

-- The payloads that the resolver publishes, and any other message on the bus: its `contest_id`, if it
-- has that key, and what else it holds, which the resolver does not read.
pub data Payload (M : Type 0) : Type 0 where
  claim_contest : String → ℕ → List ClaimRequest → Payload M
  consensus_vote : VoteRecord → ℕ → Payload M
  consensus_result : ConsensusRoundResult → ℕ → Payload M
  other : Option String → M → Payload M

pub record DeterministicResolver : Type 0 where
  pub peer_ids : List String
  pub round_id : ℕ
  pub last_received_votes : List VoteRecord
  pub seen_votes : List (String × String)
  pub seen_votes_order : List (String × String)

abbrev pub Bus : Type 0 → Type 0
Bus M = InMemoryMeshBus (Payload M)

unfoldable pub new_resolver : List String → DeterministicResolver
new_resolver peer_ids = record {
  peer_ids = distinct peer_ids;
  round_id = 0;
  last_received_votes = [];
  seen_votes = [];
  seen_votes_order = [];
}

unfoldable pub subscriber_id_of : String → String
subscriber_id_of peer_id = f_string ("consensus::" ∷ peer_id ∷ [])

-- The subscriptions that the constructor makes for each peer.
unfoldable pub subscribe_peers : {M : Type 0} → List String → Bus M → Bus M
subscribe_peers [] bus = bus
subscribe_peers (peer_id ∷ peer_ids) bus =
    let subscriber_id = subscriber_id_of peer_id in
    subscribe_peers peer_ids (
      subscribe subscriber_id "swarm/consensus_result/#" (
        subscribe subscriber_id "swarm/consensus_votes/#"
          (subscribe subscriber_id "swarm/zone_claims" bus)))

unfoldable pub contest_id_of : ℕ → Coordinate → ℕ → String
contest_id_of round_id cell now_ms =
    f_string
      (show_ℕ round_id ∷ ":" ∷ show_ℤ cell.0 ∷ ":" ∷ show_ℤ cell.1 ∷ ":" ∷ show_ℕ now_ms ∷ [])

-- `payload.get("contest_id")`
abbrev pub payload_contest : {M : Type 0} → Payload M → Option String
payload_contest (claim_contest contest_id round_id claims) = some contest_id
payload_contest (consensus_vote vote round_id) = some vote.contest_id
payload_contest (consensus_result result vote_count) = some result.contest_id
payload_contest (other contest_id message) = contest_id

unfoldable pub apply_round : ℕ → String → AuctionDecision → List VoteRecord → ConsensusRoundResult
apply_round round_id contest_id decision votes = record {
  round_id = round_id;
  contest_id = contest_id;
  cell = decision.cell;
  assignments = decision.assignments;
  votes = votes;
  rationale = decision.rationale;
}

-- `lead.drone_id if lead.subzone is None else "split"`
unfoldable pub lead_choice : AuctionDecision → Result String
lead_choice decision = elim decision.assignments [
  | [] ↦ raise index_error
  | a ∷ rest ↦ ok (if is_some a.subzone then "split" else a.drone_id)
]

-- The votes of all peers for one choice.
abbrev pub unanimous : List String → String → String → ℕ → String → List VoteRecord
unanimous peer_ids choice contest_id now_ms nonce =
    map
      (λ peer_id. record {
        voter_id = peer_id;
        choice = choice;
        contest_id = contest_id;
        timestamp_ms = now_ms;
        nonce = nonce;
      })
      peer_ids

unfoldable pub fallback_votes :
    DeterministicResolver → String → AuctionDecision → ℕ → String → Result (List VoteRecord)
fallback_votes resolver contest_id decision now_ms nonce = do
  choice ← lead_choice decision
  ok (unanimous resolver.peer_ids choice contest_id now_ms nonce)

-- `Counter(vote.choice for vote in votes)`, in the order of the first occurrences.
unfoldable pub count_choices : List VoteRecord → Dict String ℕ → Dict String ℕ
count_choices [] counts = counts
count_choices (vote ∷ votes) counts =
    count_choices votes
      (insert vote.choice (suc (get_or_else (lookup vote.choice counts) 0)) counts)

-- `most_common()`
abbrev pub more_common : String × ℕ → String × ℕ → Bool
more_common p q = ltb q.1 p.1

abbrev pub leader_of : String → List (String × ℕ) → String
leader_of fallback [] = fallback
leader_of fallback (p ∷ []) = p.0
leader_of fallback (p ∷ q ∷ rest) = if p.1 == q.1 then fallback else p.0

unfoldable pub majority_choice : List VoteRecord → String → String
majority_choice votes fallback = leader_of fallback (sorted more_common (count_choices votes []))

-- `VoteRecord(…)` of an envelope's payload.
unfoldable pub vote_of : {M : Type 0} → Payload M → Result VoteRecord
vote_of (consensus_vote vote round_id) = ok vote
vote_of _ = raise key_error

abbrev pub seen_cap : ℕ
seen_cap = 2000

-- The set and the queue of keys after a new key: the oldest is forgotten where there are too many.
unfoldable pub remember_key :
    String × String
    → List (String × String)
    → List (String × String)
    → List (String × String) × List (String × String)
remember_key key seen [] = (add key seen, key ∷ [])
remember_key key seen (oldest ∷ order) =
    let grown = add key seen in
    if ltb seen_cap (length grown)
    then (discard oldest grown, order ++ (key ∷ []))
    else (grown, oldest ∷ (order ++ (key ∷ [])))

unfoldable pub see_vote : VoteRecord → DeterministicResolver → DeterministicResolver
see_vote vote resolver =
    let (seen, order) =
      remember_key (vote.contest_id, vote.voter_id) resolver.seen_votes resolver.seen_votes_order in
    record resolver { seen_votes = seen; seen_votes_order = order }

unfoldable pub receive_vote :
    VoteRecord
    → DeterministicResolver × Dict String VoteRecord
    → DeterministicResolver × Dict String VoteRecord
unfolding see_vote
receive_vote vote (resolver, received) =
    if contains resolver.seen_votes (vote.contest_id, vote.voter_id)
    then (resolver, received)
    else (see_vote vote resolver, insert vote.voter_id vote received)

abbrev pub Tally : Type 0
Tally = DeterministicResolver × Dict String VoteRecord

-- The votes of a poll, up to a payload that is no vote.
unfoldable pub receive_all :
    {M : Type 0} → List (MeshEnvelope (Payload M)) → Tally → Tally × Option Error
receive_all [] tally = (tally, none)
receive_all (envelope ∷ envelopes) tally = elim (vote_of envelope.payload) [
  | raise error ↦ (tally, some error)
  | ok vote ↦ receive_all envelopes (receive_vote vote tally)
]

-- The loop of `_collect_quorum_votes`: `polls` counts down to the deadline.
unfoldable pub collect_votes :
    {M : Type 0} → ℕ → String → String → ℕ → Bus M → Tally → Bus M × Tally × Option Error
collect_votes zero subscriber topic quorum bus tally = (bus, tally, none)
collect_votes (suc polls) subscriber topic quorum bus tally =
    let (bus', envelopes) = poll (some subscriber) (some topic) bus in
    let (tally', error) = receive_all envelopes tally in
    let more = collect_votes polls subscriber topic quorum bus' tally' in
    if leb quorum (length tally.1)
    then (bus, tally, none)
    else if is_some error
    then (bus', tally', error)
    else more

abbrev pub votes_topic : String → String
votes_topic contest_id = f_string ("swarm/consensus_votes/" ∷ contest_id ∷ [])

-- `tuple(sorted(received.values(), key=lambda v: v.voter_id))`
abbrev pub by_voter : List VoteRecord → List VoteRecord
by_voter votes = sorted (by_key text_lt λ v. v.voter_id) votes

unfoldable pub collect_quorum_votes :
    {M : Type 0}
    → ℕ
    → String
    → String
    → ℕ
    → Bus M
    → DeterministicResolver
    → DeterministicResolver × Bus M × Result (List VoteRecord)
collect_quorum_votes polls initiator_subscriber contest_id quorum bus resolver =
    let (bus', tally, error) =
      collect_votes polls initiator_subscriber (votes_topic contest_id) quorum bus (resolver, []) in
    (tally.0, bus', elim error [ none ↦ ok (by_voter (values tally.1)) | some e ↦ raise e ])
