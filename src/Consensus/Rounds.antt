-- ===== src/Consensus/Rounds.antt =====
-- core/consensus.py: `_collect_peer_votes`, `resolve_claims` and `confirm_release`. The order in which the
-- voting threads finish is an argument; a thread that is late is left out of it.
use entropyhunt.Base.{
  leb, if◌then◌else◌, get_or_else, length, ◌==◌, runtime_error, Result, ok, raise, ◌>>=◌, ℕ, suc,
  ◌+◌, ◌/◌, String, Option, none, some, List, [], ◌∷◌, ◌++◌, string_eq, nat_eq, pair_eq, int_eq,
}
use entropyhunt.Base.Dict.{lookup}
use entropyhunt.Base.Text.{f_string}
use entropyhunt.Base.Numeric.{Floats}
use entropyhunt.Mesh.{publish, poll}
use entropyhunt.Auction.{ClaimRequest, AuctionDecision, resolve_conflict}
use entropyhunt.Consensus.{
  VoteRecord, ConsensusRoundResult, claim_contest, consensus_result, DeterministicResolver, Bus,
  subscriber_id_of, contest_id_of, apply_round, lead_choice, fallback_votes, majority_choice,
  collect_quorum_votes,
}
use entropyhunt.Consensus.Ballots.{
  ResolveClaimsRequest, Schedule, Outcome, promote, initiator_of, cast_votes, votes_of,
  publish_votes,
}

-- A round without votes over the mesh: every peer is taken to vote for the lead.
unfoldable pub settle_alone :
    {M : Type 0}
    → AuctionDecision
    → String
    → ℕ
    → String
    → DeterministicResolver
    → Option (Bus M)
    → Outcome M ConsensusRoundResult
settle_alone decision contest_id now_ms nonce resolver mesh =
    elim (fallback_votes resolver contest_id decision now_ms nonce) [
      | raise error ↦ (resolver, mesh, raise error)
      | ok votes ↦ (
        record resolver { last_received_votes = votes },
        mesh,
        ok (apply_round resolver.round_id contest_id decision votes),
      )
    ]

-- A round whose votes reached the quorum: the result is published.
unfoldable pub conclude :
    {M : Type 0}
    → AuctionDecision
    → String
    → String
    → ℕ
    → String
    → List VoteRecord
    → DeterministicResolver
    → Bus M
    → Outcome M ConsensusRoundResult
conclude decision fallback_choice contest_id now_ms initiator votes resolver bus =
    let result_decision =
      promote (majority_choice votes fallback_choice) fallback_choice decision in
    let result = apply_round resolver.round_id contest_id result_decision votes in
    let topic = f_string ("swarm/consensus_result/" ∷ contest_id ∷ []) in
    let announced =
      publish topic (consensus_result result (length votes)) now_ms (some initiator) none bus in
    (record resolver { last_received_votes = votes }, some announced.0, ok result)

-- What becomes of the received votes: enough of them, none, or some but too few.
unfoldable pub judge :
    {M : Type 0}
    → AuctionDecision
    → String
    → String
    → ℕ
    → String
    → String
    → List VoteRecord
    → DeterministicResolver
    → Bus M
    → Outcome M ConsensusRoundResult
judge decision fallback_choice contest_id now_ms nonce initiator votes resolver bus =
    let quorum = length resolver.peer_ids / 2 + 1 in
    if leb quorum (length votes)
    then conclude decision fallback_choice contest_id now_ms initiator votes resolver bus
    else if length votes == 0
    then (resolver, some bus, raise runtime_error)
    else settle_alone decision contest_id now_ms nonce resolver (some bus)

unfoldable pub after_votes :
    {M : Type 0}
    → AuctionDecision
    → String
    → String
    → ℕ
    → String
    → String
    → DeterministicResolver × Bus M × Result (List VoteRecord)
    → Outcome M ConsensusRoundResult
after_votes decision fallback_choice contest_id now_ms nonce initiator
      (resolver, bus, raise error) =
    (resolver, some bus, raise error)
after_votes decision fallback_choice contest_id now_ms nonce initiator (resolver, bus, ok votes) =
    judge decision fallback_choice contest_id now_ms nonce initiator votes resolver bus

module _ ⦃fl : Floats⦄ where
  open fl use {Float}

  -- The threads of `_collect_peer_votes`: each polls its inbox and casts its votes; one that cannot decide
  -- ends without a vote.
  unfoldable pub peer_votes :
      {M : Type 0}
      → List ClaimRequest
      → ResolveClaimsRequest Float
      → String
      → String
      → List String
      → Bus M
      → Bus M × List VoteRecord
  peer_votes claims request contest_id nonce [] bus = (bus, [])
  peer_votes claims request contest_id nonce (peer_id ∷ voters) bus =
      let (bus', envelopes) = poll (some (subscriber_id_of peer_id)) none bus in
      let peer_map = get_or_else (lookup peer_id request.per_peer_maps) request.certainty_map in
      let (bus'', rest) = peer_votes claims request contest_id nonce voters bus' in
      let cast =
        votes_of (resolve_conflict claims peer_map request.claimed_zones >>= lead_choice) (λ choice.
          cast_votes
            (record {
              voter_id = peer_id;
              choice = choice;
              contest_id = contest_id;
              timestamp_ms = request.now_ms;
              nonce = nonce;
            })
            envelopes) in
      (bus'', cast ++ rest)

  unfoldable pub collect_peer_votes :
      {M : Type 0}
      → List ClaimRequest
      → ResolveClaimsRequest Float
      → String
      → ℕ
      → Schedule
      → Bus M
      → Bus M
  collect_peer_votes claims request contest_id round_id schedule bus =
      let (bus', votes) = peer_votes claims request contest_id schedule.nonce schedule.voters bus in
      publish_votes votes contest_id round_id request.now_ms bus'

  -- A contest over the mesh.
  unfoldable pub contest :
      {M : Type 0}
      → List ClaimRequest
      → ResolveClaimsRequest Float
      → Schedule
      → AuctionDecision
      → String
      → String
      → DeterministicResolver
      → Bus M
      → Outcome M ConsensusRoundResult
  contest claims request schedule decision contest_id initiator resolver bus =
      let round_id = resolver.round_id in
      let announced =
        publish "swarm/zone_claims" (claim_contest contest_id round_id claims) request.now_ms
          (some initiator) none bus in
      let voted = collect_peer_votes claims request contest_id round_id schedule announced.0 in
      let quorum = length resolver.peer_ids / 2 + 1 in
      elim (lead_choice decision) [
        | raise error ↦ (resolver, some announced.0, raise error)
        | ok fallback_choice ↦
            after_votes decision fallback_choice contest_id request.now_ms schedule.nonce initiator
              (collect_quorum_votes schedule.polls (subscriber_id_of initiator) contest_id quorum
                voted resolver)
      ]

  -- A round on a decision: alone, or as a contest over the mesh between at least two claims.
  unfoldable pub hold :
      {M : Type 0}
      → List ClaimRequest
      → ResolveClaimsRequest Float
      → Schedule
      → AuctionDecision
      → String
      → Result String
      → DeterministicResolver
      → Option (Bus M)
      → Outcome M ConsensusRoundResult
  hold claims request schedule decision contest_id (raise error) resolver mesh =
      (resolver, mesh, raise error)
  hold claims request schedule decision contest_id (ok initiator) resolver none =
      settle_alone decision contest_id request.now_ms schedule.nonce resolver none
  hold claims request schedule decision contest_id (ok initiator) resolver (some bus) =
      if length claims == 1
      then settle_alone decision contest_id request.now_ms schedule.nonce resolver (some bus)
      else contest claims request schedule decision contest_id initiator resolver bus

  unfoldable pub resolve_claims :
      {M : Type 0}
      → List ClaimRequest
      → ResolveClaimsRequest Float
      → Schedule
      → DeterministicResolver
      → Option (Bus M)
      → Outcome M ConsensusRoundResult
  resolve_claims claims request schedule resolver mesh =
      let counted = record resolver { round_id = suc resolver.round_id } in
      elim (resolve_conflict claims request.certainty_map request.claimed_zones) [
        | raise error ↦ (counted, mesh, raise error)
        | ok decision ↦
            hold claims request schedule decision
              (contest_id_of counted.round_id decision.cell request.now_ms)
              (initiator_of request.initiator_id resolver.peer_ids) counted mesh
      ]
