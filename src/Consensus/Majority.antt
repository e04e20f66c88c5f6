-- ===== src/Consensus/Majority.antt =====
-- Which choice wins a vote: `_majority_choice` of core/consensus.py.
use entropyhunt.Base.{
  All-mono, string_discrete, ℕ, ◌≤◌, ◌<◌, String, ◌≡◌, refl, sym, subst, ◌∙◌, ◌⊎◌, inl, inr, false,
  List, [], ◌∷◌, arith, string_eq, nat_eq, pair_eq, int_eq,
}
use entropyhunt.Consensus.{VoteRecord, more_common, leader_of, majority_choice}
use entropyhunt.Consensus.Ranking.{votes_for, Ranking, ranking, IsPlurality, IsTied}

-- No choice has more votes than the first of the ranking.
top_most :
    (votes : List VoteRecord) (p : String × ℕ) (s : List (String × ℕ)) (c : String)
    → Ranking votes (p ∷ s)
    → 0 < votes_for c votes
    → votes_for c votes ≤ votes_for p.0 votes
top_most votes p s c r some_votes =
    r.complete (λ q. q.1 ≤ votes_for p.0 votes) c
      (
        omega (arith, r.counted.0),
        All-mono (λ q. more_common q p ≡ false) (λ q. q.1 ≤ votes_for p.0 votes) s
            (λ q h. ground (arith, r.counted.0)) r.falling.0,
      )
      some_votes

leader-IsPlurality :
    (votes : List VoteRecord) (s : List (String × ℕ)) (fallback c : String)
    → Ranking votes s
    → IsPlurality c votes
    → leader_of fallback s ≡ c
leader-IsPlurality votes [] fallback c r h = absurd (r.complete (λ _. ⊥) c tt h.0)
leader-IsPlurality votes (p ∷ []) fallback c r h = elim (string_discrete p.0 c) [
  | yes same ↦ same
  | no differs ↦ absurd (omega (arith, top_most votes p [] c r h.0, h.1 p.0 differs))
]
leader-IsPlurality votes (p ∷ q ∷ rest) fallback c r h = elim (string_discrete p.0 c) [
  | yes same ↦
      let fewer : votes_for q.0 votes < votes_for p.0 votes =
        subst (λ k. votes_for q.0 votes < votes_for k votes) (sym same)
          (h.1 q.0 (λ e. r.apart.0.0 (same ∙ sym e))) in
      let less : q.1 < p.1 = omega (arith, fewer, r.counted.0, r.counted.1.0) in
      ground (arith, same, less)
  | no differs ↦ absurd (omega (arith, top_most votes p (q ∷ rest) c r h.0, h.1 p.0 differs))
]

-- A choice with votes comes first in the ranking, or has no more of them than the second.
in_second :
    (votes : List VoteRecord) (p q : String × ℕ) (rest : List (String × ℕ)) (c : String)
    → Ranking votes (p ∷ q ∷ rest)
    → 0 < votes_for c votes
    → (c ≡ p.0) ⊎ (votes_for c votes ≤ q.1)
in_second votes p q rest c r some_votes =
    r.complete (λ x. (x.0 ≡ p.0) ⊎ (x.1 ≤ q.1)) c
      (
        inl refl,
        (
          inr (omega arith),
          All-mono (λ x. more_common x q ≡ false) (λ x. (x.0 ≡ p.0) ⊎ (x.1 ≤ q.1)) rest
              (λ x h. inr (ground arith)) r.falling.1.0,
        ),
      )
      some_votes

leader-IsTied :
    (votes : List VoteRecord) (s : List (String × ℕ)) (fallback c d : String)
    → Ranking votes s
    → IsTied c d votes
    → leader_of fallback s ≡ fallback
leader-IsTied votes [] fallback c d r h = refl
leader-IsTied votes (p ∷ []) fallback c d r h =
    let lone = λ (e : String) (some_votes : 0 < votes_for e votes).
      r.complete (λ x. x.0 ≡ p.0) e (refl, tt) some_votes in
    absurd (h.0 (lone c h.1 ∙ sym (lone d (omega (arith, h.1, h.2)))))
leader-IsTied votes (p ∷ q ∷ rest) fallback c d r h =
    let first_two : p.1 ≡ q.1 = elim (in_second votes p q rest c r h.1) [
      | inr high ↦ omega (
        arith,
        high,
        r.counted.0,
        r.counted.1.0,
        h.3 p.0,
        h.3 q.0,
        top_most votes p (q ∷ rest) c r h.1,
      )
      | inl c_first ↦ elim (in_second votes p q rest d r (omega (arith, h.1, h.2))) [
        | inr high ↦ omega (
          arith,
          high,
          h.2,
          r.counted.0,
          r.counted.1.0,
          h.3 p.0,
          h.3 q.0,
          top_most votes p (q ∷ rest) c r h.1,
        )
        | inl d_first ↦ absurd (h.0 (c_first ∙ sym d_first))
      ]
    ] in
    ground (arith, first_two)

-- The majority choice is the choice with more votes than any other where there is one, and the
-- fallback where two choices share the first place, however the votes are ordered.
pub majority_choice_lem :
    (votes : List VoteRecord) (fallback : String)
    → ((c : String) → IsPlurality c votes → majority_choice votes fallback ≡ c)
      × ((c d : String) → IsTied c d votes → majority_choice votes fallback ≡ fallback)
unfolding majority_choice
majority_choice_lem votes fallback = (
  λ c. leader-IsPlurality votes _ fallback c (ranking votes),
  λ c d. leader-IsTied votes _ fallback c d (ranking votes),
)
