-- ===== src/Consensus/Repeats.antt =====
-- The window of seen votes in core/consensus.py, over votes that are received one after the other.
use entropyhunt.Base.{
  ltb, Bool-cases, length, length-append, contains, contains-append, ℕ, suc, ◌+◌, ◌≤◌, ◌<◌, ◌≡◌,
  refl, sym, ap, subst, ◌∙◌, inl, inr, true, false, List, [], ◌∷◌, ◌++◌, arith, string_eq, nat_eq,
  pair_eq, int_eq,
}
use entropyhunt.Consensus.{VoteRecord, seen_cap, remember_key, see_vote, receive_vote, Tally}
use entropyhunt.Consensus.Seen.{Key, vote_key, IsSeen, receive_vote-IsSeen, receive_known}

-- The votes of a list, received one after the other.
unfoldable pub receive_votes : List VoteRecord → Tally → Tally
receive_votes [] tally = tally
receive_votes (vote ∷ votes) tally = receive_votes votes (receive_vote vote tally)

-- The key is in the queue, with at most `n` later ones.
abbrev Within : ℕ → Key → List Key → Type 0
Within n k order =
    (before : List Key) × (later : List Key) × (order ≡ before ++ (k ∷ later)) × (length later ≤ n)

append_assoc : {A : Type 0} (xs ys zs : List A) → (xs ++ ys) ++ zs ≡ xs ++ (ys ++ zs)
append_assoc [] ys zs = refl
append_assoc (x ∷ xs) ys zs = ap (◌∷◌ x) (append_assoc xs ys zs)

append-Within :
    (n : ℕ) (k new : Key) (before later : List Key)
    → length later ≤ n
    → Within (suc n) k ((before ++ (k ∷ later)) ++ (new ∷ []))
append-Within n k new before later b = (
  before,
  later ++ (new ∷ []),
  append_assoc before (k ∷ later) (new ∷ []),
  omega (arith, b, length-append later (new ∷ [])),
)

-- Another key moves the window on by one.
remember-Within :
    (n : ℕ) (k new : Key) (before later : List Key)
    → suc n < seen_cap
    → length later ≤ n
    → contains (before ++ (k ∷ later)) new ≡ false
    → let order = before ++ (k ∷ later) in Within (suc n) k (remember_key new order order).1
unfolding remember_key
remember-Within n k new [] later room b fresh =
    let fits : ltb seen_cap (length ((k ∷ later) ++ (new ∷ []))) ≡ false =
      ground (arith, length-append later (new ∷ [])) in
    rw (fresh, fits) (append-Within n k new [] later b)
remember-Within n k new (oldest ∷ before) later room b fresh =
    let order : List Key = oldest ∷ (before ++ (k ∷ later)) in
    elim (Bool-cases (ltb seen_cap (length (order ++ (new ∷ []))))) [
      | inl over ↦ rw (fresh, over) (append-Within n k new before later b)
      | inr fits ↦ rw (fresh, fits) (append-Within n k new (oldest ∷ before) later b)
    ]

-- A key that was not there becomes the last one.
remember-last :
    (k : Key) (order : List Key)
    → contains order k ≡ false
    → Within 0 k (remember_key k order order).1
unfolding remember_key
remember-last k [] fresh = ([], [], refl, omega arith)
remember-last k (oldest ∷ order) fresh =
    elim (Bool-cases (ltb seen_cap (length ((oldest ∷ order) ++ (k ∷ []))))) [
      | inl over ↦ rw (fresh, over) (order, [], refl, omega arith)
      | inr fits ↦ rw (fresh, fits) (oldest ∷ order, [], refl, omega arith)
    ]

-- The queue after a vote that was not seen.
order-receive_vote :
    (vote : VoteRecord) (tally : Tally)
    → IsSeen tally.0
    → contains tally.0.seen_votes (vote_key vote) ≡ false
    → let order = tally.0.seen_votes_order in
      (contains order (vote_key vote) ≡ false)
      × ((receive_vote vote tally).0.seen_votes_order
          ≡ (remember_key (vote_key vote) order order).1)
unfolding receive_vote see_vote
order-receive_vote vote (r, received) h fresh = (
  ap (λ s. contains s (vote_key vote)) (sym h.0) ∙ fresh,
  rw fresh (ap (λ s. (remember_key (vote_key vote) s r.seen_votes_order).1) h.0),
)

receive_vote-Within :
    (n : ℕ) (k : Key) (vote : VoteRecord) (tally : Tally)
    → suc n < seen_cap
    → IsSeen tally.0
    → Within n k tally.0.seen_votes_order
    → Within (suc n) k (receive_vote vote tally).0.seen_votes_order
receive_vote-Within n k vote tally room h (before, later, e, b) =
    elim (Bool-cases (contains tally.0.seen_votes (vote_key vote))) [
      | inl old ↦
          subst (λ w. Within (suc n) k w.0.seen_votes_order) (sym (receive_known vote tally old))
            (before, later, e, omega (arith, b))
      | inr new ↦
          let (fresh, order) = order-receive_vote vote tally h new in
          let at = ap (λ o. contains o (vote_key vote)) (sym e) ∙ fresh in
          subst (Within (suc n) k) (sym (order ∙ ap (λ o. (remember_key (vote_key vote) o o).1) e))
            (remember-Within n k (vote_key vote) before later room b at)
    ]

still_seen :
    (n : ℕ) (k : Key) (others : List VoteRecord) (tally : Tally)
    → n + length others < seen_cap
    → IsSeen tally.0
    → Within n k tally.0.seen_votes_order
    → contains (receive_votes others tally).0.seen_votes k ≡ true
unfolding receive_votes
still_seen n k [] tally room h (before, later, e, b) =
    ap (λ s. contains s k) (h.0 ∙ e) ∙ ground (arith, contains-append before (k ∷ later) k)
still_seen n k (vote ∷ others) tally room h w =
    still_seen (suc n) k others (receive_vote vote tally) (omega (arith, room))
      (receive_vote-IsSeen vote tally h).0
      (receive_vote-Within n k vote tally (omega (arith, room)) h w)

-- Where the memory of seen votes is as it should be and a vote that is not in it is received, a
-- second vote of the same peer in the same contest changes nothing, whatever it says, as long as
-- fewer than 2000 votes were received in between.
pub receive_vote_twice :
    (vote again : VoteRecord) (others : List VoteRecord) (tally : Tally)
    → IsSeen tally.0
    → contains tally.0.seen_votes (vote.contest_id, vote.voter_id) ≡ false
    → again.contest_id ≡ vote.contest_id
    → again.voter_id ≡ vote.voter_id
    → length others < seen_cap
    → receive_vote again (receive_votes others (receive_vote vote tally))
      ≡ receive_votes others (receive_vote vote tally)
receive_vote_twice vote again others tally h new same_contest same_voter few =
    let first = receive_vote vote tally in
    let (fresh, order) = order-receive_vote vote tally h new in
    let last =
      subst (Within 0 (vote_key vote)) (sym order)
        (remember-last (vote_key vote) tally.0.seen_votes_order fresh) in
    let seen =
      still_seen 0 (vote_key vote) others first (omega (arith, few))
        (receive_vote-IsSeen vote tally h).0 last in
    receive_known again (receive_votes others first) (rw (same_contest, same_voter) seen)
