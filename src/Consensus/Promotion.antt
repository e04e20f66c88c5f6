-- ===== src/Consensus/Promotion.antt =====
-- What promoting a choice does to a decision: core/consensus.py.
use mathlib.Core.List.{Permᴰ}
use mathlib.Core.List.Permᴰ
use entropyhunt.Base.{
  Bool-cases, Option-cases, keep, first, All, All-mono, ◌==◌, String, ◌≡◌, refl, sym, subst, ◌∙◌,
  inl, inr, not, ◌||◌, some, List, [], ◌∷◌, arith, string_eq, nat_eq, pair_eq, int_eq,
}
use entropyhunt.Auction.{ZoneAssignment, AuctionDecision}
use entropyhunt.Consensus.Ballots.{promote}

-- Each drone has one assignment at most.
abbrev pub OneEach : List ZoneAssignment → Type 0
OneEach [] = Unit
OneEach (a ∷ as') = All (λ b. ¬ (a.drone_id ≡ b.drone_id)) as' × OneEach as'

others : String → List ZoneAssignment → List ZoneAssignment
others c as' = keep (λ a. not (a.drone_id == c)) as'

others-All :
    (c : String) (as' : List ZoneAssignment)
    → All (λ b. ¬ (b.drone_id ≡ c)) as'
    → others c as' ≡ as'
unfolding others
others-All c [] h = refl
others-All c (a ∷ as') h = ground (arith, others-All c as' h.1, h.0)

first-others :
    (c : String) (as' : List ZoneAssignment) (w : ZoneAssignment)
    → OneEach as'
    → first (λ a. a.drone_id == c) as' ≡ some w
    → Permᴰ (w ∷ others c as') as'
unfolding others
first-others c [] w o h = cc
first-others c (a ∷ as') w o h = elim (Bool-cases (a.drone_id == c)) [
  | inl hit ↦
      let here : a.drone_id ≡ c = ground arith in
      let same : w ≡ a = ground arith in
      rw hit (
        Permᴰ.cons same (
          subst (λ l. Permᴰ l as')
            (sym (others-All c as' (All-mono _ _ as' (λ b n e. n (here ∙ sym e)) o.0)))
            (Permᴰ.refl as')))
  | inr miss ↦ rw miss (
      Permᴰ.trans (Permᴰ.swap refl refl)
        (Permᴰ.cons refl (first-others c as' w o.1 (ground arith))))
]

-- A promoted decision has the same assignments on the same cell, each drone's once.
pub promote-perm :
    (c fallback : String) (d : AuctionDecision)
    → OneEach d.assignments
    → Permᴰ (promote c fallback d).assignments d.assignments
      × ((promote c fallback d).cell ≡ d.cell)
unfolding promote
promote-perm c fallback d o = elim (Bool-cases (c == fallback || c == "split")) [
  | inl stays ↦ rw (stays, promote) (Permᴰ.refl d.assignments, refl)
  | inr moves ↦ elim (Option-cases (first (λ a. a.drone_id == c) d.assignments)) [
    | inl absent ↦ rw (moves, absent, promote) (Permᴰ.refl d.assignments, refl)
    | inr (w, e) ↦
        rw (moves, e, promote) (unfold others in first-others c d.assignments w o e, refl)
  ]
]
