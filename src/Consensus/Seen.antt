-- ===== src/Consensus/Seen.antt =====
-- The memory of the votes that were counted: `_seen_votes` of core/consensus.py.
use entropyhunt.Base.{
  ltb, leb, if◌then◌else◌, Bool-cases, is_some, length, length-append, contains, discard,
  contains-append, Error, Result-cases, ℕ, zero, suc, ◌≤◌, String, ◌≡◌, refl, sym, ap, subst, ◌∙◌,
  inl, inr, Bool, true, false, Option, none, some, List, [], ◌∷◌, ◌++◌, arith, string_eq, nat_eq,
  pair_eq, int_eq,
}
use entropyhunt.Consensus.{
  VoteRecord, Payload, DeterministicResolver, Bus, vote_of, seen_cap, remember_key, see_vote,
  receive_vote, Tally, receive_all, collect_votes,
}
use entropyhunt.Mesh.{MeshEnvelope, poll}

abbrev pub Key : Type 0
Key = String × String

abbrev IsDistinct : List Key → Type 0
IsDistinct [] = Unit
IsDistinct (k ∷ ks) = (contains ks k ≡ false) × IsDistinct ks

-- The set and the queue hold the same keys, each once, and at most `seen_cap` of them.
abbrev IsWindow : List Key → List Key → Type 0
IsWindow seen order = (seen ≡ order) × IsDistinct order × (length order ≤ seen_cap)

abbrev pub IsSeen : DeterministicResolver → Type 0
IsSeen r = IsWindow r.seen_votes r.seen_votes_order

IsDistinct-append :
    (ks : List Key) (k : Key) → IsDistinct ks → contains ks k ≡ false → IsDistinct (ks ++ (k ∷ []))
IsDistinct-append [] k h c = (refl, tt)
IsDistinct-append (j ∷ ks) k h c =
    (ground (arith, contains-append ks (k ∷ []) j, h.0), IsDistinct-append ks k h.1 (ground arith))

discard_absent : (ks : List Key) (k : Key) → contains ks k ≡ false → discard k ks ≡ ks
discard_absent [] k h = refl
discard_absent (j ∷ ks) k h = ground (arith, discard_absent ks k)

abbrev pub vote_key : VoteRecord → Key
vote_key vote = (vote.contest_id, vote.voter_id)

remember_lem :
    (k : Key) (ks : List Key)
    → IsDistinct ks
    → length ks ≤ seen_cap
    → contains ks k ≡ false
    → let (seen, order) = remember_key k ks ks in IsWindow seen order × (contains seen k ≡ true)
unfolding remember_key
remember_lem k [] d b new = ((refl, (refl, tt), omega arith), ground arith)
remember_lem k (j ∷ js) d b new =
    let ks = j ∷ js in
    let grown : List Key = ks ++ (k ∷ []) in
    let longer = length-append ks (k ∷ []) in
    let distinct_grown = IsDistinct-append ks k d new in
    let full = ltb seen_cap (length grown) in
    elim (Bool-cases full) [
      | inl over ↦
          let both : remember_key k ks ks ≡ (discard j grown, js ++ (k ∷ [])) =
            rw (new, over) refl in
          let dropped : discard j grown ≡ js ++ (k ∷ []) =
            ground (arith, discard_absent (js ++ (k ∷ [])) j distinct_grown.0) in
          subst (λ w. IsWindow w.0 w.1 × (contains w.0 k ≡ true)) (sym both)
            (
              (dropped, distinct_grown.1, omega (arith, length-append js (k ∷ []), b)),
              ap (λ l. contains l k) dropped ∙ ground (arith, contains-append js (k ∷ []) k),
            )
      | inr fits ↦
          let both : remember_key k ks ks ≡ (grown, grown) = rw (new, fits) refl in
          subst (λ w. IsWindow w.0 w.1 × (contains w.0 k ≡ true)) (sym both)
            ((refl, distinct_grown, ground arith), ground (arith, contains-append ks (k ∷ []) k))
    ]

-- What a vote that was counted leaves behind, once and for all.
pub receive_vote-IsSeen :
    (vote : VoteRecord) (tally : Tally)
    → IsSeen tally.0
    → IsSeen (receive_vote vote tally).0
      × (contains (receive_vote vote tally).0.seen_votes (vote_key vote) ≡ true)
unfolding receive_vote see_vote
receive_vote-IsSeen vote (r, received) h =
    elim (Bool-cases (contains r.seen_votes (vote_key vote))) [
      | inl old ↦ rw old (h, old)
      | inr new ↦
          let order = r.seen_votes_order in
          let moved : remember_key (vote_key vote) r.seen_votes order
              ≡ remember_key (vote_key vote) order order =
            ap (λ s. remember_key (vote_key vote) s order) h.0 in
          let at_order : contains order (vote_key vote) ≡ false =
            subst (λ s. contains s (vote_key vote) ≡ false) h.0 new in
          rw new (
            subst (λ w. IsWindow w.0 w.1 × (contains w.0 (vote_key vote) ≡ true)) (sym moved)
              (remember_lem (vote_key vote) order h.1 h.2 at_order))
    ]

pub receive_known :
    (vote : VoteRecord) (tally : Tally)
    → contains tally.0.seen_votes (vote_key vote) ≡ true
    → receive_vote vote tally ≡ tally
unfolding receive_vote
receive_known vote (r, received) h = rw h refl

-- The memory stays as it should over the envelopes of any polls.
receive_all-IsSeen :
    {M : Type 0}
    → (envelopes : List (MeshEnvelope (Payload M))) (tally : Tally) → IsSeen tally.0
    → IsSeen (receive_all envelopes tally).0.0
unfolding receive_all
receive_all-IsSeen [] tally h = h
receive_all-IsSeen (envelope ∷ envelopes) tally h = elim (Result-cases (vote_of envelope.payload)) [
  | inl (vote, e) ↦
      rw (e, receive_all)
        (receive_all-IsSeen envelopes (receive_vote vote tally)
          (receive_vote-IsSeen vote tally h).0)
  | inr (error, e) ↦ rw (e, receive_all) h
]

any-IsSeen :
    {M : Type 0}
    → (b c : Bool) (x y z : Bus M × Tally × Option Error) → IsSeen x.1.0
    → IsSeen y.1.0
    → IsSeen z.1.0
    → IsSeen (if b then x else if c then y else z).1.0
any-IsSeen true c x y z hx hy hz = hx
any-IsSeen false true x y z hx hy hz = hy
any-IsSeen false false x y z hx hy hz = hz

-- Over the polls of a round the set and the queue of seen votes hold the same keys, each once, and
-- at most 2000 of them, if they did before.
pub collect_votes-IsSeen :
    {M : Type 0}
    → (polls : ℕ) (subscriber topic : String) (quorum : ℕ) (bus : Bus M) (tally : Tally)
    → IsSeen tally.0
    → IsSeen (collect_votes polls subscriber topic quorum bus tally).1.0
unfolding collect_votes
collect_votes-IsSeen zero subscriber topic quorum bus tally h = h
collect_votes-IsSeen (suc polls) subscriber topic quorum bus tally h =
    let (bus', envelopes) = poll (some subscriber) (some topic) bus in
    let (tally', error) = receive_all envelopes tally in
    let received = receive_all-IsSeen envelopes tally h in
    any-IsSeen (leb quorum (length tally.1)) (is_some error) (bus, tally, none)
      (bus', tally', error) (collect_votes polls subscriber topic quorum bus' tally') h received
      (collect_votes-IsSeen polls subscriber topic quorum bus' tally' received)
