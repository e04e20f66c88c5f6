-- ===== src/Claims/Pending.antt =====
-- The index of the pending claims by cell, in simulation/claim_manager.py: no claim is left out of it.
use entropyhunt.Base.{
  if◌then◌else◌, Bool-cases, get_or_else, holds, ◌==◌, pair_discrete, contains, remove,
  contains-append, Coordinate, ℕ, String, ◌≡◌, refl, sym, ap, subst, ◌∙◌, ◌≢◌, inl, inr, Bool, true,
  false, ◌&&◌, ◌||◌, none, some, List, [], ◌∷◌, ◌++◌, arith, string_eq, nat_eq, pair_eq, int_eq,
}
use entropyhunt.Base.Int.{ℤ_discrete}
use entropyhunt.Base.Dict.{Dict, lookup, insert, erase, lookup-insert, lookup-erase}
use entropyhunt.Auction.{ClaimRequest}
use entropyhunt.Claims.{
  PeerClaimManager, track_claim, erase_all, evict_pending_claims_for_cell, remove_everywhere,
  forget_claim,
}

-- The changes that the claim manager makes to its pending claims.
pub data Change : Type 0 where
  tracks : ClaimRequest → ℕ → Change
  evicts : Coordinate → Change
  forgets : String → Change

unfoldable pub change : PeerClaimManager → Change → PeerClaimManager
unfolding track_claim evict_pending_claims_for_cell forget_claim
change m (tracks claim t) = track_claim claim t m
change m (evicts zone) = evict_pending_claims_for_cell zone m
change m (forgets claim_id) = forget_claim m claim_id

unfoldable pub run : PeerClaimManager → List Change → PeerClaimManager
run m [] = m
run m (c ∷ cs) = run (change m c) cs

abbrev pub ids_at : Coordinate → Dict Coordinate (List String) → List String
ids_at zone by_cell = get_or_else (lookup zone by_cell) []

-- Each pending claim is among the ids of its cell.
abbrev pub IsIndexed : PeerClaimManager → Type 0
IsIndexed m =
    (i : String) (c : ClaimRequest)
    → lookup i m.pending_claims ≡ some c
    → contains (ids_at c.cell m.pending_claims_by_cell) i ≡ true

lookup-erase_all :
    (ks : List String) (d : Dict String ClaimRequest) (j : String)
    → lookup j (erase_all ks d) ≡ (if contains ks j then none else lookup j d)
lookup-erase_all [] d j = refl
lookup-erase_all (k ∷ ks) d j =
    ground (arith, lookup-erase_all ks (erase k d) j, lookup-erase k j d)

contains-remove :
    (k i : String) (xs : List String) → k ≢ i → contains (remove k xs) i ≡ contains xs i
contains-remove k i [] n = refl
contains-remove k i (x ∷ xs) n = ground (arith, contains-remove k i xs n)

ids_at-remove_everywhere :
    (k : String) (zone : Coordinate) (d : Dict Coordinate (List String))
    → ids_at zone (remove_everywhere k d) ≡ remove k (ids_at zone d)
unfolding lookup
ids_at-remove_everywhere k zone [] = refl
ids_at-remove_everywhere k zone ((z, ids) ∷ d) = elim (Bool-cases (z == zone)) [
  | inl hit ↦ rw hit refl
  | inr miss ↦ rw miss (ids_at-remove_everywhere k zone d)
]

ids_at-insert :
    (zone z : Coordinate) (ids : List String) (d : Dict Coordinate (List String))
    → ids_at z (insert zone ids d) ≡ (if zone == z then ids else ids_at z d)
ids_at-insert zone z ids d = elim (Bool-cases (zone == z)) [
  | inl hit ↦ rw (lookup-insert zone z ids d, hit) refl
  | inr miss ↦ rw (lookup-insert zone z ids d, miss) refl
]

or_nothing : (a b : Bool) → (a || false && b) ≡ a
or_nothing a b = ground arith

ids_at-grown :
    (zone z : Coordinate) (k i : String) (d : Dict Coordinate (List String))
    → contains (ids_at z (insert zone (ids_at zone d ++ (k ∷ [])) d)) i
      ≡ (contains (ids_at z d) i || zone == z && k == i)
ids_at-grown zone z k i d =
    ap (λ ids. contains ids i) (ids_at-insert zone z (ids_at zone d ++ (k ∷ [])) d)
    ∙ elim (pair_discrete ℤ_discrete ℤ_discrete zone z)
        as (λ b.
          contains (if holds b then ids_at zone d ++ (k ∷ []) else ids_at z d) i
          ≡ (contains (ids_at z d) i || holds b && k == i)) [
            | yes same ↦
                let there : contains (ids_at zone d ++ (k ∷ [])) i
                    ≡ contains (ids_at z d ++ (k ∷ [])) i =
                  ap (λ y. contains (ids_at y d ++ (k ∷ [])) i) same in
                ground (arith, there, contains-append (ids_at z d) (k ∷ []) i)
            | no other ↦ sym (or_nothing (contains (ids_at z d) i) (k == i))
          ]

ids_at-erase :
    (zone z : Coordinate) (d : Dict Coordinate (List String))
    → ids_at z (erase zone d) ≡ (if zone == z then [] else ids_at z d)
ids_at-erase zone z d = elim (Bool-cases (zone == z)) [
  | inl hit ↦ rw (lookup-erase zone z d, hit) refl
  | inr miss ↦ rw (lookup-erase zone z d, miss) refl
]

track-IsIndexed :
    (claim : ClaimRequest) (t : ℕ) (m : PeerClaimManager)
    → IsIndexed m
    → IsIndexed (track_claim claim t m)
unfolding track_claim
track-IsIndexed claim t m h i c e =
    let found = sym (lookup-insert claim.claim_id i claim m.pending_claims) ∙ e in
    ids_at-grown claim.cell c.cell claim.claim_id i m.pending_claims_by_cell
    ∙ elim (Bool-cases (claim.claim_id == i)) [
      | inl hit ↦ let same : claim ≡ c = ground (arith, found, hit) in rw (hit, same) (ground arith)
      | inr miss ↦
          let old : lookup i m.pending_claims ≡ some c = ground (arith, found, miss) in
          rw (h i c old) refl
    ]

-- A claim that is still pending was pending, on another cell.
evict_survivor :
    (zone : Coordinate) (m : PeerClaimManager)
    → IsIndexed m
    → (i : String) (c : ClaimRequest)
    → lookup i (evict_pending_claims_for_cell zone m).pending_claims ≡ some c
    → (lookup i m.pending_claims ≡ some c) × ((zone == c.cell) ≡ false)
unfolding evict_pending_claims_for_cell
evict_survivor zone m h i c e =
    let ids = ids_at zone m.pending_claims_by_cell in
    let found = sym (lookup-erase_all ids m.pending_claims i) ∙ e in
    let out : contains ids i ≡ false = ground (arith, found) in
    let kept : lookup i m.pending_claims ≡ some c = ground (arith, found) in
    (
      kept,
      elim (Bool-cases (zone == c.cell)) [
        | inr other ↦ other
        | inl same ↦
            let at_cell : zone ≡ c.cell = ground arith in
            absurd (
              ground (
                arith,
                out,
                subst (λ z. contains (ids_at z m.pending_claims_by_cell) i ≡ true) (sym at_cell)
                    (h i c kept),
              ))
      ],
    )

evict-IsIndexed :
    (zone : Coordinate) (m : PeerClaimManager)
    → IsIndexed m
    → IsIndexed (evict_pending_claims_for_cell zone m)
unfolding evict_pending_claims_for_cell
evict-IsIndexed zone m h i c e =
    let (kept, elsewhere) = evict_survivor zone m h i c e in
    ap (λ ids. contains ids i) (ids_at-erase zone c.cell m.pending_claims_by_cell)
    ∙ rw elsewhere (h i c kept)

forget-IsIndexed : (k : String) (m : PeerClaimManager) → IsIndexed m → IsIndexed (forget_claim m k)
unfolding forget_claim
forget-IsIndexed k m h i c e =
    let found = sym (lookup-erase k i m.pending_claims) ∙ e in
    let other : k ≢ i = ground (arith, found) in
    let kept : lookup i m.pending_claims ≡ some c = ground (arith, found) in
    ap (λ ids. contains ids i) (ids_at-remove_everywhere k c.cell m.pending_claims_by_cell)
    ∙ contains-remove k i (ids_at c.cell m.pending_claims_by_cell) other
    ∙ h i c kept

run-IsIndexed : (cs : List Change) (m : PeerClaimManager) → IsIndexed m → IsIndexed (run m cs)
unfolding run change
run-IsIndexed [] m h = h
run-IsIndexed (tracks claim t ∷ cs) m h =
    run-IsIndexed cs (track_claim claim t m) (track-IsIndexed claim t m h)
run-IsIndexed (evicts zone ∷ cs) m h =
    run-IsIndexed cs (evict_pending_claims_for_cell zone m) (evict-IsIndexed zone m h)
run-IsIndexed (forgets k ∷ cs) m h = run-IsIndexed cs (forget_claim m k) (forget-IsIndexed k m h)

-- Over any changes of the pending claims, from a complete index by cell on, the index stays
-- complete; so after a round on a cell no claim of that cell is pending any more.
pub run-evicts :
    (cs : List Change) (m : PeerClaimManager) (zone : Coordinate) (i : String) (c : ClaimRequest)
    → IsIndexed m
    → lookup i (evict_pending_claims_for_cell zone (run m cs)).pending_claims ≡ some c
    → zone ≢ c.cell
run-evicts cs m zone i c h e =
    let elsewhere = (evict_survivor zone (run m cs) (run-IsIndexed cs m h) i c e).1 in
    λ same. ground (arith, elsewhere, same)
