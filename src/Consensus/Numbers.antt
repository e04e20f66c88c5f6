-- ===== src/Consensus/Numbers.antt =====
-- Round numbers of core/consensus.py: no two rounds of a resolver share one.
use entropyhunt.Base.{
  leb, Bool-cases, is_some, length, ◌==◌, Result, ok, raise, Result-cases, ℕ, zero, suc, ◌+◌, ◌/◌,
  String, ◌≡◌, refl, ◌∙◌, inl, inr, Option, none, some, List, [], ◌∷◌, arith, string_eq, nat_eq,
  pair_eq, int_eq,
}
use entropyhunt.Base.Numeric.{Floats}
use entropyhunt.Mesh.{MeshEnvelope, publish, poll}
use entropyhunt.Auction.{ClaimRequest, AuctionDecision, resolve_conflict}
use entropyhunt.Consensus.{
  VoteRecord, ConsensusRoundResult, Payload, claim_contest, DeterministicResolver, Bus,
  subscriber_id_of, contest_id_of, apply_round, lead_choice, fallback_votes, vote_of, see_vote,
  receive_vote, Tally, receive_all, collect_votes, votes_topic, collect_quorum_votes,
}
use entropyhunt.Consensus.Rounds.{
  settle_alone, conclude, judge, after_votes, collect_peer_votes, contest, hold, resolve_claims,
}
use entropyhunt.Consensus.Ballots.{ResolveClaimsRequest, Schedule, Outcome, initiator_of}

receive_vote-round_id :
    (vote : VoteRecord) (tally : Tally) → (receive_vote vote tally).0.round_id ≡ tally.0.round_id
unfolding receive_vote see_vote
receive_vote-round_id vote (r, received) = ground arith

receive_all-round_id :
    {M : Type 0}
    → (envelopes : List (MeshEnvelope (Payload M))) (tally : Tally)
    → (receive_all envelopes tally).0.0.round_id ≡ tally.0.round_id
unfolding receive_all
receive_all-round_id [] tally = refl
receive_all-round_id (envelope ∷ envelopes) tally = elim (Result-cases (vote_of envelope.payload)) [
  | inl (vote, e) ↦
      rw (e, receive_all)
        (receive_all-round_id envelopes (receive_vote vote tally)
          ∙ receive_vote-round_id vote tally)
  | inr (error, e) ↦ rw (e, receive_all) refl
]

collect_votes-round_id :
    {M : Type 0}
    → (polls : ℕ) (subscriber topic : String) (quorum : ℕ) (bus : Bus M) (tally : Tally)
    → (collect_votes polls subscriber topic quorum bus tally).1.0.round_id ≡ tally.0.round_id
unfolding collect_votes
collect_votes-round_id zero subscriber topic quorum bus tally = refl
collect_votes-round_id (suc polls) subscriber topic quorum bus tally =
    let (bus', envelopes) = poll (some subscriber) (some topic) bus in
    let (tally', error) = receive_all envelopes tally in
    let received = receive_all-round_id envelopes tally in
    let later = collect_votes-round_id polls subscriber topic quorum bus' tally' in
    elim (Bool-cases (leb quorum (length tally.1))) [
      | inl enough ↦ rw enough refl
      | inr few ↦ elim (Bool-cases (is_some error)) [
        | inl broken ↦ rw (few, broken) received
        | inr fine ↦ rw (few, fine) (later ∙ received)
      ]
    ]

settle_alone-round_id :
    {M : Type 0}
    → (d : AuctionDecision) (contest_id : String) (now : ℕ) (nonce : String)
      (r : DeterministicResolver) (mesh : Option (Bus M))
    → (settle_alone d contest_id now nonce r mesh).0.round_id ≡ r.round_id
unfolding settle_alone
settle_alone-round_id d contest_id now nonce r mesh =
    elim (Result-cases (fallback_votes r contest_id d now nonce)) [
      | inl (votes, e) ↦ rw (e, settle_alone) refl
      | inr (error, e) ↦ rw (e, settle_alone) refl
    ]

after_votes-round_id :
    {M : Type 0}
    → (d : AuctionDecision) (fallback contest_id : String) (now : ℕ) (nonce initiator : String)
      (collected : DeterministicResolver × Bus M × Result (List VoteRecord))
    → (after_votes d fallback contest_id now nonce initiator collected).0.round_id
      ≡ collected.0.round_id
unfolding after_votes judge
after_votes-round_id d fallback contest_id now nonce initiator (r, bus, raise error) = refl
after_votes-round_id d fallback contest_id now nonce initiator (r, bus, ok votes) =
    elim (Bool-cases (leb (length r.peer_ids / 2 + 1) (length votes))) [
      | inl enough ↦ rw enough (unfold conclude in refl)
      | inr few ↦ elim (Bool-cases (length votes == 0)) [
        | inl empty ↦ rw (few, empty) refl
        | inr some_votes ↦
            rw (few, some_votes) (settle_alone-round_id d contest_id now nonce r (some bus))
      ]
    ]

-- A round that is answered has the number that the resolver has then.
abbrev pub IsNumbered : {M : Type 0} → Outcome M ConsensusRoundResult → Type 0
IsNumbered (r, mesh, raise error) = Unit
IsNumbered (r, mesh, ok round) = round.round_id ≡ r.round_id

settle_alone-IsNumbered :
    {M : Type 0}
    → (d : AuctionDecision) (contest_id : String) (now : ℕ) (nonce : String)
      (r : DeterministicResolver) (mesh : Option (Bus M))
    → IsNumbered (settle_alone d contest_id now nonce r mesh)
unfolding settle_alone
settle_alone-IsNumbered d contest_id now nonce r mesh =
    elim (Result-cases (fallback_votes r contest_id d now nonce)) [
      | inl (votes, e) ↦ rw (e, settle_alone) (unfold apply_round in refl)
      | inr (error, e) ↦ rw (e, settle_alone) tt
    ]

after_votes-IsNumbered :
    {M : Type 0}
    → (d : AuctionDecision) (fallback contest_id : String) (now : ℕ) (nonce initiator : String)
      (collected : DeterministicResolver × Bus M × Result (List VoteRecord))
    → IsNumbered (after_votes d fallback contest_id now nonce initiator collected)
unfolding after_votes judge
after_votes-IsNumbered d fallback contest_id now nonce initiator (r, bus, raise error) = tt
after_votes-IsNumbered d fallback contest_id now nonce initiator (r, bus, ok votes) =
    elim (Bool-cases (leb (length r.peer_ids / 2 + 1) (length votes))) [
      | inl enough ↦ rw enough (unfold conclude apply_round in refl)
      | inr few ↦ elim (Bool-cases (length votes == 0)) [
        | inl empty ↦ rw (few, empty) tt
        | inr some_votes ↦
            rw (few, some_votes) (settle_alone-IsNumbered d contest_id now nonce r (some bus))
      ]
    ]

module _ ⦃fl : Floats⦄ where
  open fl use {Float}

  contest-round_id :
      {M : Type 0}
      → (claims : List ClaimRequest) (request : ResolveClaimsRequest Float) (schedule : Schedule)
        (d : AuctionDecision) (contest_id initiator : String) (r : DeterministicResolver)
        (bus : Bus M)
      → (contest claims request schedule d contest_id initiator r bus).0.round_id ≡ r.round_id
  unfolding contest
  contest-round_id claims request schedule d contest_id initiator r bus =
      elim (Result-cases (lead_choice d)) [
        | inl (fallback, e) ↦
            rw (e, contest)
              (after_votes-round_id d fallback contest_id request.now_ms schedule.nonce initiator _
                ∙ unfold collect_quorum_votes in
                  collect_votes-round_id schedule.polls (subscriber_id_of initiator)
                    (votes_topic contest_id) (length r.peer_ids / 2 + 1)
                    (collect_peer_votes claims request contest_id r.round_id schedule
                      (publish "swarm/zone_claims" (claim_contest contest_id r.round_id claims)
                        request.now_ms (some initiator) none bus).0)
                    (r, []))
        | inr (error, e) ↦ rw (e, contest) refl
      ]

  hold-round_id :
      {M : Type 0}
      → (claims : List ClaimRequest) (request : ResolveClaimsRequest Float) (schedule : Schedule)
        (d : AuctionDecision) (contest_id : String) (initiator : Result String)
        (r : DeterministicResolver) (mesh : Option (Bus M))
      → (hold claims request schedule d contest_id initiator r mesh).0.round_id ≡ r.round_id
  unfolding hold
  hold-round_id claims request schedule d contest_id (raise error) r mesh = refl
  hold-round_id claims request schedule d contest_id (ok initiator) r none =
      settle_alone-round_id d contest_id request.now_ms schedule.nonce r none
  hold-round_id claims request schedule d contest_id (ok initiator) r (some bus) =
      elim (Bool-cases (length claims == 1)) [
        | inl lone ↦
            rw lone (settle_alone-round_id d contest_id request.now_ms schedule.nonce r (some bus))
        | inr several ↦
            rw several (contest-round_id claims request schedule d contest_id initiator r bus)
      ]

  pub resolve_claims-round_id :
      {M : Type 0}
      → (claims : List ClaimRequest) (request : ResolveClaimsRequest Float) (schedule : Schedule)
        (r : DeterministicResolver) (mesh : Option (Bus M))
      → (resolve_claims claims request schedule r mesh).0.round_id ≡ suc r.round_id
  unfolding resolve_claims
  resolve_claims-round_id claims request schedule r mesh =
      let counted = record r { round_id = suc r.round_id } in
      elim (Result-cases (resolve_conflict claims request.certainty_map request.claimed_zones)) [
        | inr (error, e) ↦ rw (e, resolve_claims) refl
        | inl (d, e) ↦
            rw (e, resolve_claims)
              (hold-round_id claims request schedule d
                (contest_id_of counted.round_id d.cell request.now_ms)
                (initiator_of request.initiator_id r.peer_ids) counted mesh)
      ]

  hold-IsNumbered :
      {M : Type 0}
      → (claims : List ClaimRequest) (request : ResolveClaimsRequest Float) (schedule : Schedule)
        (d : AuctionDecision) (contest_id : String) (initiator : Result String)
        (r : DeterministicResolver) (mesh : Option (Bus M))
      → IsNumbered (hold claims request schedule d contest_id initiator r mesh)
  unfolding hold contest
  hold-IsNumbered claims request schedule d contest_id (raise error) r mesh = tt
  hold-IsNumbered claims request schedule d contest_id (ok initiator) r none =
      settle_alone-IsNumbered d contest_id request.now_ms schedule.nonce r none
  hold-IsNumbered claims request schedule d contest_id (ok initiator) r (some bus) =
      elim (Bool-cases (length claims == 1)) [
        | inl lone ↦
            rw lone
              (settle_alone-IsNumbered d contest_id request.now_ms schedule.nonce r (some bus))
        | inr several ↦ elim (Result-cases (lead_choice d)) [
          | inl (fallback, e) ↦
              rw (several, e, contest)
                (after_votes-IsNumbered d fallback contest_id request.now_ms schedule.nonce
                  initiator _)
          | inr (error, e) ↦ rw (several, e, contest) (tt)
        ]
      ]

  pub resolve_claims-IsNumbered :
      {M : Type 0}
      → (claims : List ClaimRequest) (request : ResolveClaimsRequest Float) (schedule : Schedule)
        (r : DeterministicResolver) (mesh : Option (Bus M))
      → IsNumbered (resolve_claims claims request schedule r mesh)
  unfolding resolve_claims
  resolve_claims-IsNumbered claims request schedule r mesh =
      let counted = record r { round_id = suc r.round_id } in
      elim (Result-cases (resolve_conflict claims request.certainty_map request.claimed_zones)) [
        | inr (error, e) ↦ rw (e, resolve_claims) (tt)
        | inl (d, e) ↦
            rw (e, resolve_claims)
              (hold-IsNumbered claims request schedule d
                (contest_id_of counted.round_id d.cell request.now_ms)
                (initiator_of request.initiator_id r.peer_ids) counted mesh)
      ]
