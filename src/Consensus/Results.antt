-- ===== src/Consensus/Results.antt =====
-- What a round of core/consensus.py can result in: the auction's assignments, in another order at most.
use mathlib.Core.List.{Permᴰ}
use mathlib.Core.List.Permᴰ
use entropyhunt.Base.{
  leb, Bool-cases, length, All, All-map, All-mono, All-of_map, ◌==◌, Result, ok, raise,
  Result-cases, ok-injective, Coordinate, ℕ, suc, ◌+◌, ◌/◌, String, ◌≡◌, refl, sym, subst, ◌∙◌, inl,
  inr, Option, none, some, List, [], ◌∷◌, map, arith, string_eq, nat_eq, pair_eq, int_eq,
}
use entropyhunt.Auction.{ClaimRequest, ZoneAssignment, AuctionDecision, claim_lt, resolve_conflict}
use entropyhunt.Consensus.Rounds.{
  settle_alone, conclude, judge, after_votes, contest, hold, resolve_claims,
}
use entropyhunt.Consensus.Ballots.{ResolveClaimsRequest, Schedule, initiator_of}
use entropyhunt.Consensus.{
  VoteRecord, ConsensusRoundResult, DeterministicResolver, Bus, contest_id_of, apply_round,
  lead_choice, fallback_votes, majority_choice,
}
use entropyhunt.Base.Sort.{sorted}
use entropyhunt.Base.Numeric.{Floats}
use entropyhunt.Certainty.{CertaintyMap}
use entropyhunt.Auction.Exclusion.{resolve_conflict-Decides}
use entropyhunt.Auction.Order.{AreDistinct, sorted-AreDistinct}
use entropyhunt.Consensus.Promotion.{OneEach, promote-perm}

-- A round that answers has the cell of the decision, and its assignments in some order.
abbrev pub Reorders : AuctionDecision → Result ConsensusRoundResult → Type 0
Reorders d (raise error) = Unit
Reorders d (ok round) = Permᴰ round.assignments d.assignments × (round.cell ≡ d.cell)

settle_alone-Reorders :
    {M : Type 0}
    → (d : AuctionDecision) (contest_id : String) (now : ℕ) (nonce : String)
      (r : DeterministicResolver) (mesh : Option (Bus M))
    → Reorders d (settle_alone d contest_id now nonce r mesh).2
unfolding settle_alone apply_round
settle_alone-Reorders d contest_id now nonce r mesh =
    elim (Result-cases (fallback_votes r contest_id d now nonce)) [
      | inl (votes, e) ↦ rw (e, settle_alone) (Permᴰ.refl d.assignments, refl)
      | inr (error, e) ↦ rw (e, settle_alone) tt
    ]

judge-Reorders :
    {M : Type 0}
    → (d : AuctionDecision) (fallback contest_id : String) (now : ℕ) (nonce initiator : String)
      (votes : List VoteRecord) (r : DeterministicResolver) (bus : Bus M)
    → OneEach d.assignments
    → Reorders d (judge d fallback contest_id now nonce initiator votes r bus).2
unfolding judge
judge-Reorders d fallback contest_id now nonce initiator votes r bus o =
    elim (Bool-cases (leb (length r.peer_ids / 2 + 1) (length votes))) [
      | inl enough ↦ rw enough (
          unfold conclude apply_round in promote-perm (majority_choice votes fallback) fallback d o)
      | inr few ↦ elim (Bool-cases (length votes == 0)) [
        | inl empty ↦ rw (few, empty) tt
        | inr some_votes ↦
            rw (few, some_votes) (settle_alone-Reorders d contest_id now nonce r (some bus))
      ]
    ]

after_votes-Reorders :
    {M : Type 0}
    → (d : AuctionDecision) (fallback contest_id : String) (now : ℕ) (nonce initiator : String)
      (collected : DeterministicResolver × Bus M × Result (List VoteRecord))
    → OneEach d.assignments
    → Reorders d (after_votes d fallback contest_id now nonce initiator collected).2
unfolding after_votes
after_votes-Reorders d fallback contest_id now nonce initiator (r, bus, raise error) o = tt
after_votes-Reorders d fallback contest_id now nonce initiator (r, bus, ok votes) o =
    judge-Reorders d fallback contest_id now nonce initiator votes r bus o

-- One assignment for each of distinct claimants.
OneEach-of_ids :
    (as' : List ZoneAssignment) (claims : List ClaimRequest)
    → map (λ a. a.drone_id) as' ≡ map (λ c. c.drone_id) claims
    → AreDistinct claims
    → OneEach as'
OneEach-of_ids [] claims e h = tt
OneEach-of_ids (a ∷ as') [] e h = absurd (ground arith)
OneEach-of_ids (a ∷ as') (c ∷ claims) e h =
    let tails : map (λ b. b.drone_id) as' ≡ map (λ d. d.drone_id) claims = ground arith in
    let heads : a.drone_id ≡ c.drone_id = ground arith in
    (
      All-of_map (λ i. ¬ (a.drone_id ≡ i)) (λ b. b.drone_id) as'
          (subst (All (λ i. ¬ (a.drone_id ≡ i))) (sym tails) (
            All-map (λ i. ¬ (a.drone_id ≡ i)) (λ d. d.drone_id) claims
              (All-mono (λ d. ¬ (c.drone_id ≡ d.drone_id)) (λ d. ¬ (a.drone_id ≡ d.drone_id)) claims
                (λ d n same. n (sym heads ∙ same)) h.0))),
      OneEach-of_ids as' claims tails h.1,
    )

module _ ⦃fl : Floats⦄ where
  open fl use {Float}

  OneEach-resolve_conflict :
      (claims : List ClaimRequest) (m : CertaintyMap Float) (claimed : List Coordinate)
      (d : AuctionDecision)
      → AreDistinct claims
      → resolve_conflict claims m claimed ≡ ok d
      → OneEach d.assignments
  OneEach-resolve_conflict [] m claimed d h e = absurd (unfold resolve_conflict in ground arith)
  OneEach-resolve_conflict (claim ∷ claims) m claimed d h e =
      let (d', e', decides) = resolve_conflict-Decides claim claims m claimed in
      subst (λ x. OneEach x.assignments) (ok-injective (sym e' ∙ e))
        (OneEach-of_ids d'.assignments (sorted claim_lt (claim ∷ claims)) decides.ids
          (sorted-AreDistinct (claim ∷ claims) h))

  contest-Reorders :
      {M : Type 0}
      → (claims : List ClaimRequest) (request : ResolveClaimsRequest Float) (schedule : Schedule)
        (d : AuctionDecision) (contest_id initiator : String) (r : DeterministicResolver)
        (bus : Bus M)
      → OneEach d.assignments
      → Reorders d (contest claims request schedule d contest_id initiator r bus).2
  unfolding contest
  contest-Reorders claims request schedule d contest_id initiator r bus o =
      elim (Result-cases (lead_choice d)) [
        | inl (fallback, e) ↦
            rw (e, contest)
              (after_votes-Reorders d fallback contest_id request.now_ms schedule.nonce initiator _
                o)
        | inr (error, e) ↦ rw (e, contest) tt
      ]

  hold-Reorders :
      {M : Type 0}
      → (claims : List ClaimRequest) (request : ResolveClaimsRequest Float) (schedule : Schedule)
        (d : AuctionDecision) (contest_id : String) (initiator : Result String)
        (r : DeterministicResolver) (mesh : Option (Bus M))
      → OneEach d.assignments
      → Reorders d (hold claims request schedule d contest_id initiator r mesh).2
  unfolding hold
  hold-Reorders claims request schedule d contest_id (raise error) r mesh o = tt
  hold-Reorders claims request schedule d contest_id (ok initiator) r none o =
      settle_alone-Reorders d contest_id request.now_ms schedule.nonce r none
  hold-Reorders claims request schedule d contest_id (ok initiator) r (some bus) o =
      elim (Bool-cases (length claims == 1)) [
        | inl lone ↦
            rw lone (settle_alone-Reorders d contest_id request.now_ms schedule.nonce r (some bus))
        | inr several ↦
            rw several (contest-Reorders claims request schedule d contest_id initiator r bus o)
      ]

  -- A round of distinct claimants that answers is about the auction's decision: on the same cell it
  -- has the same assignments, in another order at most, whatever was voted and whatever got lost.
  pub resolve_claims-Reorders :
      {M : Type 0}
      → (claims : List ClaimRequest) (request : ResolveClaimsRequest Float) (schedule : Schedule)
        (r : DeterministicResolver) (mesh : Option (Bus M)) (round : ConsensusRoundResult)
      → AreDistinct claims
      → (resolve_claims claims request schedule r mesh).2 ≡ ok round
      → (d : AuctionDecision) × (resolve_conflict claims request.certainty_map request.claimed_zones
          ≡ ok d)
        × Permᴰ round.assignments d.assignments
        × (round.cell ≡ d.cell)
  resolve_claims-Reorders claims request schedule r mesh round h answered =
      let counted = record r { round_id = suc r.round_id } in
      elim (Result-cases (resolve_conflict claims request.certainty_map request.claimed_zones)) [
        | inr (error, e) ↦
            let raised : (resolve_claims claims request schedule r mesh).2 ≡ raise error =
              unfold resolve_claims in rw (e, resolve_claims) refl in
            absurd (ground (arith, raised, answered))
        | inl (d, e) ↦
            let contest_id = contest_id_of counted.round_id d.cell request.now_ms in
            let initiator = initiator_of request.initiator_id r.peer_ids in
            let held : (resolve_claims claims request schedule r mesh).2
                ≡ (hold claims request schedule d contest_id initiator counted mesh).2 =
              unfold resolve_claims in rw (e, resolve_claims) refl in
            let (reordered, same_cell) = subst (Reorders d) (sym held ∙ answered) (
              hold-Reorders claims request schedule d contest_id initiator counted mesh (
                OneEach-resolve_conflict claims request.certainty_map request.claimed_zones d h
                  e)) in
            (d, e, reordered, same_cell)
      ]
