-- ===== src/Tests/Votes.antt =====
-- Votes and rounds of three peers: core/consensus.py.
use mathlib.Core.List.{Permᴰ}
use entropyhunt.Base.{
  text_ne, string_discrete, pair_discrete, contains, false, ok, ℤ, pos, ℕ, String, ◌≡◌, refl, none,
  List, [], ◌∷◌, arith, ℕ_discrete, string_eq, nat_eq, pair_eq, int_eq,
}
use entropyhunt.Base.Int.{ℤ_discrete}
use entropyhunt.Base.Sort.{insert_sorted, sorted}
use entropyhunt.Base.Text.{show_ℕ, show_ℤ}
use entropyhunt.Mesh.{new_bus}
use entropyhunt.Auction.{
  ClaimRequest, AuctionDecision, winner_decision, is_tie, settle, resolve_conflict,
}
use entropyhunt.Auction.Order.{AreDistinct}
use entropyhunt.Consensus.{
  VoteRecord, ConsensusRoundResult, Payload, DeterministicResolver, contest_id_of, apply_round,
  lead_choice, unanimous, fallback_votes, majority_choice, receive_vote, collect_votes,
}
use entropyhunt.Consensus.Rounds.{settle_alone, hold, resolve_claims}
use entropyhunt.Consensus.Ballots.{ResolveClaimsRequest, Schedule}
use entropyhunt.Consensus.Majority.{majority_choice_lem}
use entropyhunt.Consensus.Ranking.{IsPlurality, IsTied}
use entropyhunt.Consensus.Seen.{IsSeen, collect_votes-IsSeen}
use entropyhunt.Consensus.Repeats.{receive_votes, receive_vote_twice}
use entropyhunt.Consensus.Results.{resolve_claims-Reorders}
use entropyhunt.Consensus.Runs.{resolves, releases, syncs, AreRising, numbers, numbers-AreRising}
use entropyhunt.Tests.Numbers.{paces, thousandths}
use entropyhunt.Tests.Maps.{left_map}

abbrev vote_by : String → String → VoteRecord
vote_by voter choice = record {
  voter_id = voter;
  choice = choice;
  contest_id = "1:0:0:0";
  timestamp_ms = 0;
  nonce = "n";
}

abbrev votes : List VoteRecord
votes = vote_by "a" "a" ∷ vote_by "b" "b" ∷ vote_by "c" "a" ∷ []

majority_choice_lem_example :
    ((c : String) → IsPlurality c votes → majority_choice votes "b" ≡ c)
    × ((c d : String) → IsTied c d votes → majority_choice votes "b" ≡ "b")
majority_choice_lem_example = majority_choice_lem votes "b"

abbrev resolver : DeterministicResolver
resolver = record {
  peer_ids = "a" ∷ "b" ∷ "c" ∷ [];
  round_id = 0;
  last_received_votes = [];
  seen_votes = ("0:0:0:0", "a") ∷ [];
  seen_votes_order = ("0:0:0:0", "a") ∷ [];
}

resolver-IsSeen : IsSeen resolver
resolver-IsSeen = (refl, (refl, tt), omega arith)

a_is_new : contains resolver.seen_votes ("1:0:0:0", "a") ≡ false
unfolding string_discrete pair_discrete
a_is_new = refl

receive_vote_twice_example :
    receive_vote (vote_by "a" "b") (
      receive_votes
        (vote_by "b" "b" ∷ vote_by "c" "c" ∷ [])
        (receive_vote (vote_by "a" "a") (resolver, [])))
    ≡ receive_votes
        (vote_by "b" "b" ∷ vote_by "c" "c" ∷ [])
        (receive_vote (vote_by "a" "a") (resolver, []))
receive_vote_twice_example =
    receive_vote_twice (vote_by "a" "a") (vote_by "a" "b") (vote_by "b" "b" ∷ vote_by "c" "c" ∷ [])
      (resolver, []) resolver-IsSeen a_is_new refl refl (omega arith)

collect_votes-IsSeen_example :
    IsSeen
      (collect_votes 2 "consensus::a" "swarm/consensus_votes/1:0:0:0" 2
        (new_bus (Payload ℕ) "a" 10)
        (resolver, [])).1.0
collect_votes-IsSeen_example =
    collect_votes-IsSeen 2 "consensus::a" "swarm/consensus_votes/1:0:0:0" 2
      (new_bus (Payload ℕ) "a" 10) (resolver, []) resolver-IsSeen

abbrev claim_by : String → ℕ → ClaimRequest
claim_by drone time = record {
  claim_id = drone;
  drone_id = drone;
  cell = (pos 0, pos 0);
  position = (pos 1, pos 0);
  timestamp_ms = time;
}

abbrev request : ResolveClaimsRequest ℤ
request = record {
  certainty_map = left_map;
  claimed_zones = [];
  now_ms = 7;
  initiator_id = none;
  per_peer_maps = [];
}

abbrev schedule : Schedule
schedule = record { nonce = "n"; voters = "b" ∷ "a" ∷ "c" ∷ []; polls = 3 }

abbrev claims : List ClaimRequest
claims = claim_by "b" 5 ∷ claim_by "a" 4 ∷ []

abbrev decision : AuctionDecision
decision =
    winner_decision (pos 0, pos 0) left_map ((pos 0, pos 0) ∷ []) (claim_by "a" 4)
      (claim_by "b" 5 ∷ [])

abbrev answered : ConsensusRoundResult
answered = record {
  round_id = 1;
  contest_id = "1:0:0:7";
  cell = (pos 0, pos 0);
  assignments = decision.assignments;
  votes = unanimous ("a" ∷ "b" ∷ "c" ∷ []) "a" "1:0:0:7" 7 "n";
  rationale = decision.rationale;
}

answers : (resolve_claims {M = ℕ} claims request schedule resolver none).2 ≡ ok answered
unfolding resolve_claims resolve_conflict settle sorted insert_sorted is_tie paces ℤ_discrete
    pair_discrete ℕ_discrete hold settle_alone fallback_votes lead_choice apply_round contest_id_of
    show_ℤ show_ℕ winner_decision
answers = refl

claims-AreDistinct : AreDistinct claims
claims-AreDistinct = ((text_ne "b" "a" refl, tt), (tt, tt))

resolve_claims-Reorders_example :
    (d : AuctionDecision) × (resolve_conflict claims left_map [] ≡ ok d)
    × Permᴰ answered.assignments d.assignments
    × (answered.cell ≡ d.cell)
resolve_claims-Reorders_example =
    resolve_claims-Reorders claims request schedule resolver none answered claims-AreDistinct
      answers

numbers-AreRising_example : AreRising 0 (
    numbers {M = ℕ}
      (resolver, none)
      (resolves claims request schedule ∷ syncs 9 ∷ releases "b" (pos 0, pos 0) none ∷ []))
numbers-AreRising_example =
    numbers-AreRising
      (resolves claims request schedule ∷ syncs 9 ∷ releases "b" (pos 0, pos 0) none ∷ [])
      (resolver, none)
