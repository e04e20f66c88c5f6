-- ===== src/Auction/Exclusion.antt =====
-- No two drones are sent to one fallback cell: auction/protocol.py, `_fallback_assignments`.
use entropyhunt.Base.Sort.{insert_sorted, sorted, length-sorted}
use entropyhunt.Base.{
  if◌then◌else◌, Bool-cases, Option-cases, length, All, All-mono, ◌==◌, string_discrete, text_ne,
  contains, add, ok, Coordinate, ◌≤◌, String, ◌≡◌, refl, sym, ap, ◌∙◌, inl, inr, true, false, none,
  some, List, [], ◌∷◌, map, arith, string_eq, nat_eq, pair_eq, int_eq,
}
use entropyhunt.Base.Numeric.{Floats}
use entropyhunt.Certainty.{coordinate, CertaintyMap, cells}
use entropyhunt.Selector.{select_next_zone}
use entropyhunt.Selector.Choice.{IsFree, select_next_zone-IsFree, select_next_zone-eq-none}
use entropyhunt.Auction.{
  ClaimRequest, ZoneAssignment, AuctionDecision, assignment, single_decision, place_loser,
  fallback_assignments, claim_lt, split_decision, winner_decision, is_tie, settle, resolve_conflict,
}

module _ ⦃fl : Floats⦄ where
  open fl use {Float}

  -- A fallback cell is not reserved yet, and a drone idles only if every cell of the map is.
  abbrev pub IsPlaced : CertaintyMap Float → List Coordinate → ZoneAssignment → Type 0
  IsPlaced m reserved a =
      (a.reason ≡ "fallback" → contains reserved a.cell ≡ false)
      × (a.reason ≡ "idle" → All (λ c. contains reserved (coordinate c) ≡ true) (cells m))

  -- The same of a list, where each fallback cell is reserved for the assignments behind it.
  abbrev pub AreExclusive : CertaintyMap Float → List Coordinate → List ZoneAssignment → Type 0
  AreExclusive m reserved [] = Unit
  AreExclusive m reserved (a ∷ rest) =
      IsPlaced m reserved a
      × AreExclusive m (if a.reason == "fallback" then add a.cell reserved else reserved) rest

  reserved_of_not-IsFree :
      (m : CertaintyMap Float) (reserved : List Coordinate) (here : Coordinate)
      → All (λ c. ¬ IsFree m reserved here [] c) (cells m)
      → All (λ c. contains reserved (coordinate c) ≡ true) (cells m)
  reserved_of_not-IsFree m reserved here = All-mono _ _ (cells m) (λ c f.
      elim (Bool-cases (contains reserved (coordinate c))) [
        | inl taken ↦ taken
        | inr open' ↦ absurd (f (open', refl))
      ])

  fallback-AreExclusive :
      (losers : List ClaimRequest) (m : CertaintyMap Float) (reserved : List Coordinate)
      → AreExclusive m reserved (fallback_assignments losers m reserved)
  unfolding fallback_assignments place_loser string_discrete
  fallback-AreExclusive [] m reserved = tt
  fallback-AreExclusive (loser ∷ losers) m reserved =
      elim (Option-cases (select_next_zone m reserved loser.position [] false)) [
        | inl e ↦
            rw (e, place_loser, fallback_assignments)
              (
                (
                  (λ k. absurd (text_ne "idle" "fallback" refl k)),
                  (λ _.
                      reserved_of_not-IsFree m reserved loser.position
                        ((select_next_zone-eq-none m reserved loser.position [] false).0 e)),
                ),
                fallback-AreExclusive losers m reserved,
              )
        | inr (s, e) ↦
            rw (e, place_loser, fallback_assignments)
              (
                (
                  (λ _. (select_next_zone-IsFree m reserved loser.position [] false s e).0),
                  (λ k. absurd (text_ne "fallback" "idle" refl k)),
                ),
                fallback-AreExclusive losers m (add s.coordinate reserved),
              )
      ]

  fallback-ids :
      (losers : List ClaimRequest) (m : CertaintyMap Float) (reserved : List Coordinate)
      → map (λ a. a.drone_id) (fallback_assignments losers m reserved)
        ≡ map (λ c. c.drone_id) losers
  unfolding fallback_assignments place_loser
  fallback-ids [] m reserved = refl
  fallback-ids (loser ∷ losers) m reserved = ground (
    arith,
    fallback-ids losers m
        (place_loser loser reserved (select_next_zone m reserved loser.position [] false)).1,
  )

  -- A decision on `cell` for the claims in the order `ranked`.
  pub record Decides (cell : Coordinate) (ranked : List ClaimRequest) (m : CertaintyMap Float)
      (claimed : List Coordinate) (d : AuctionDecision) : Type 0 where
    pub on_cell : d.cell ≡ cell
    pub ids : map (λ a. a.drone_id) d.assignments ≡ map (λ c. c.drone_id) ranked
    pub exclusive : AreExclusive m (add cell claimed) d.assignments

  not-IsPlaced :
      (reason : String) (m : CertaintyMap Float) (reserved : List Coordinate) (a : ZoneAssignment)
      → a.reason ≡ reason
      → ¬ (reason ≡ "fallback")
      → ¬ (reason ≡ "idle")
      → IsPlaced m reserved a
  not-IsPlaced reason m reserved a e k l =
      ((λ f. absurd (k (sym e ∙ f))), (λ i. absurd (l (sym e ∙ i))))

  split-Decides :
      (zone : Coordinate) (winner runner_up : ClaimRequest) (losers : List ClaimRequest)
      (m : CertaintyMap Float) (claimed : List Coordinate)
      → Decides zone
          (winner ∷ runner_up ∷ losers)
          m
          claimed
          (split_decision zone m (add zone claimed) winner runner_up losers)
  unfolding split_decision string_discrete
  split-Decides zone winner runner_up losers m claimed =
      let taken = add zone claimed in
      let placed = λ (a : ZoneAssignment) (e : a.reason ≡ "split").
        not-IsPlaced "split" m taken a e (text_ne "split" "fallback" refl)
          (text_ne "split" "idle" refl) in
      record {
        on_cell = refl;
        ids = ap (λ l. winner.drone_id ∷ runner_up.drone_id ∷ l) (fallback-ids losers m taken);
        exclusive = (
          placed (assignment winner.drone_id zone "split" (some "left")) refl,
          (
            placed (assignment runner_up.drone_id zone "split" (some "right")) refl,
            fallback-AreExclusive losers m taken,
          ),
        );
      }

  winner-Decides :
      (zone : Coordinate) (winner : ClaimRequest) (losers : List ClaimRequest)
      (m : CertaintyMap Float) (claimed : List Coordinate)
      → Decides zone
          (winner ∷ losers)
          m
          claimed
          (winner_decision zone m (add zone claimed) winner losers)
  unfolding winner_decision string_discrete
  winner-Decides zone winner losers m claimed =
      let taken = add zone claimed in
      record {
        on_cell = refl;
        ids = ap (◌∷◌ winner.drone_id) (fallback-ids losers m taken);
        exclusive = (
          not-IsPlaced "winner" m taken (assignment winner.drone_id zone "winner" none) refl
              (text_ne "winner" "fallback" refl) (text_ne "winner" "idle" refl),
          fallback-AreExclusive losers m taken,
        );
      }

  settle-Decides :
      (zone : Coordinate) (ranked : List ClaimRequest) (m : CertaintyMap Float)
      (claimed : List Coordinate)
      → 2 ≤ length ranked
      → (d : AuctionDecision) × (settle zone m claimed ranked ≡ ok d)
        × Decides zone ranked m claimed d
  unfolding settle
  settle-Decides zone [] m claimed h = absurd (omega arith)
  settle-Decides zone (winner ∷ []) m claimed h = absurd (omega arith)
  settle-Decides zone (winner ∷ runner_up ∷ losers) m claimed h =
      let taken = add zone claimed in
      elim (Bool-cases (is_tie zone winner runner_up)) [
        | inl tie ↦ (
          split_decision zone m taken winner runner_up losers,
          rw tie refl,
          split-Decides zone winner runner_up losers m claimed,
        )
        | inr clear ↦ (
          winner_decision zone m taken winner (runner_up ∷ losers),
          rw clear refl,
          winner-Decides zone winner (runner_up ∷ losers) m claimed,
        )
      ]

  single-Decides :
      (claim : ClaimRequest) (m : CertaintyMap Float) (claimed : List Coordinate)
      → Decides claim.cell (claim ∷ []) m claimed (single_decision claim)
  unfolding string_discrete
  single-Decides claim m claimed = record {
    on_cell = refl;
    ids = refl;
    exclusive = (
      not-IsPlaced "winner" m (add claim.cell claimed)
          (assignment claim.drone_id claim.cell "winner" none) refl
          (text_ne "winner" "fallback" refl) (text_ne "winner" "idle" refl),
      tt,
    );
  }

  -- A contest with at least one claim is decided, on the cell of the first claim: each claim gets
  -- one assignment, in the order of the claims' keys, a fallback cell is neither the contested
  -- cell, nor claimed, nor given to an earlier loser, and a drone idles only where no cell of the
  -- map is left.
  pub resolve_conflict-Decides :
      (claim : ClaimRequest) (claims : List ClaimRequest) (m : CertaintyMap Float)
      (claimed : List Coordinate)
      → (d : AuctionDecision) × (resolve_conflict (claim ∷ claims) m claimed ≡ ok d)
        × Decides claim.cell (sorted claim_lt (claim ∷ claims)) m claimed d
  unfolding resolve_conflict sorted insert_sorted
  resolve_conflict-Decides claim [] m claimed =
      (single_decision claim, refl, single-Decides claim m claimed)
  resolve_conflict-Decides claim (claim' ∷ claims) m claimed =
      settle-Decides claim.cell (sorted claim_lt (claim ∷ claim' ∷ claims)) m claimed
        (omega (arith, length-sorted claim_lt (claim ∷ claim' ∷ claims)))
