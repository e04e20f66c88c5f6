-- ===== src/Consensus/Ranking.antt =====
-- How the choices of the votes are counted and ranked: core/consensus.py.
use entropyhunt.Base.{
  if◌then◌else◌, Bool-cases, Option-cases, get_or_else, All, All-mono, ◌==◌, ℕ, suc, ◌+◌, ◌≤◌, ◌<◌,
  String, ◌≡◌, sym, subst, ◌≢◌, inl, inr, none, some, List, [], ◌∷◌, arith, string_eq, nat_eq,
  pair_eq, int_eq,
}
use entropyhunt.Base.Dict.{Dict, lookup, insert, lookup-insert, IsDict, insert-IsDict}
use entropyhunt.Consensus.{VoteRecord, count_choices, more_common}
use entropyhunt.Base.Arrangement.{All-of_sorted, Pairs, Pairs-sorted}
use entropyhunt.Base.Sort.{sorted, IsSorted, All-sorted, sorted-IsSorted}
use entropyhunt.Base.Order.{IsOrder}

-- How many votes a choice has.
unfoldable pub votes_for : String → List VoteRecord → ℕ
votes_for c [] = 0
votes_for c (vote ∷ votes) = (if vote.choice == c then 1 else 0) + votes_for c votes

count_in : String → Dict String ℕ → ℕ
count_in c counts = get_or_else (lookup c counts) 0

count_choices-votes_for :
    (votes : List VoteRecord) (counts : Dict String ℕ) (c : String)
    → count_in c (count_choices votes counts) ≡ count_in c counts + votes_for c votes
unfolding count_choices votes_for count_in
count_choices-votes_for [] counts c = omega arith
count_choices-votes_for (vote ∷ votes) counts c =
    let counted = insert vote.choice (suc (get_or_else (lookup vote.choice counts) 0)) counts in
    ground (
      arith,
      count_choices-votes_for votes counted c,
      lookup-insert vote.choice c (suc (get_or_else (lookup vote.choice counts) 0)) counts,
    )

count_choices-IsDict :
    (votes : List VoteRecord) (counts : Dict String ℕ)
    → IsDict counts
    → IsDict (count_choices votes counts)
unfolding count_choices
count_choices-IsDict [] counts h = h
count_choices-IsDict (vote ∷ votes) counts h =
    count_choices-IsDict votes _ (insert-IsDict vote.choice _ counts h)

-- What is true of the entries of a dict, from its lookups, and back.
All-lookup :
    (P : String × ℕ → Type 0) (d : Dict String ℕ) (k : String) (n : ℕ)
    → All P d
    → lookup k d ≡ some n
    → P (k, n)
unfolding lookup
All-lookup P [] k n h e = absurd (ground arith)
All-lookup P ((j, m) ∷ d) k n h e = elim (Bool-cases (j == k)) [
  | inl hit ↦ subst P (ground arith) h.0
  | inr miss ↦ All-lookup P d k n h.1 (ground arith)
]

entries-lookup : (d : Dict String ℕ) → IsDict d → All (λ p. lookup p.0 d ≡ some p.1) d
unfolding lookup
entries-lookup [] h = tt
entries-lookup ((j, m) ∷ d) h = (
  ground arith,
  All-mono _ _ d
      (λ p e. elim (Bool-cases (j == p.0)) [
        | inl hit ↦
            let same : j ≡ p.0 = ground arith in
            absurd (ground (arith, e, subst (λ k. lookup k d ≡ none) same h.0))
        | inr miss ↦ rw miss e
      ])
      (entries-lookup d h.1),
)

abbrev OtherKey : String × ℕ → String × ℕ → Type 0
OtherKey p q = ¬ (p.0 ≡ q.0)

keys-Pairs : (d : Dict String ℕ) → IsDict d → Pairs more_common OtherKey d
keys-Pairs [] h = tt
keys-Pairs ((j, m) ∷ d) h = (
  All-mono _ _ d (λ p e same. ground (arith, e, subst (λ k. lookup k d ≡ none) same h.0))
      (entries-lookup d h.1),
  keys-Pairs d h.1,
)

-- The counts of the choices, the most common first.
pub record Ranking (votes : List VoteRecord) (s : List (String × ℕ)) : Type 1 where
  pub counted : All (λ p. p.1 ≡ votes_for p.0 votes) s
  pub apart : Pairs more_common OtherKey s
  pub complete :
      (P : String × ℕ → Type 0) (c : String)
      → All P s
      → 0 < votes_for c votes
      → P (c, votes_for c votes)
  pub falling : IsSorted more_common s

more_common-IsOrder : IsOrder more_common
more_common-IsOrder = record { asymm = λ p q h. ground arith; weak = λ p q r h k. ground arith }

pub ranking :
    (votes : List VoteRecord) → Ranking votes (sorted more_common (count_choices votes []))
ranking votes =
    let counts = count_choices votes [] in
    let dict : IsDict counts = count_choices-IsDict votes [] tt in
    let total : (c : String) → count_in c counts ≡ votes_for c votes =
      λ c. unfold count_in lookup in omega (arith, count_choices-votes_for votes [] c) in
    record {
      counted =
          All-sorted more_common (λ p. p.1 ≡ votes_for p.0 votes) counts
            (All-mono (λ p. lookup p.0 counts ≡ some p.1) (λ p. p.1 ≡ votes_for p.0 votes) counts
              (λ p e. unfold count_in in ground (arith, total p.0, e))
              (entries-lookup counts dict));
      apart =
          Pairs-sorted more_common OtherKey counts (λ p q h e. h (sym e)) (keys-Pairs counts dict);
      complete = λ P c h some_votes. elim (Option-cases (lookup c counts)) [
        | inl e ↦ absurd (unfold count_in in ground (arith, total c, e))
        | inr (n, e) ↦
            let same : n ≡ votes_for c votes = unfold count_in in ground (arith, total c, e) in
            subst (λ k. P (c, k)) same
              (All-lookup P counts c n (All-of_sorted more_common P counts h) e)
      ];
      falling = sorted-IsSorted more_common more_common-IsOrder counts;
    }

-- A choice with more votes than any other.
abbrev pub IsPlurality : String → List VoteRecord → Type 0
IsPlurality c votes =
    (0 < votes_for c votes) × ((d : String) → d ≢ c → votes_for d votes < votes_for c votes)

-- Two choices that share the first place.
abbrev pub IsTied : String → String → List VoteRecord → Type 0
IsTied c d votes =
    (c ≢ d)
    × (0 < votes_for c votes)
    × (votes_for d votes ≡ votes_for c votes)
    × ((e : String) → votes_for e votes ≤ votes_for c votes)
