-- ===== src/Auction/Order.antt =====
-- Who wins a contest, and that the order in which the claims came does not matter: auction/protocol.py.
use mathlib.Core.List.{Permᴰ}
use entropyhunt.Base.{
  true, false, Among, All-self, dec_lt, ◌<◌, ◌⊎◌, Bool-cases, length, get_elem?, All, All-mono,
  value_error, Result, ok, raise, ok-injective, Coordinate, ◌≤◌, String, ◌≡◌, refl, sym, ap, ◌∙◌,
  inl, inr, Option, some, List, [], ◌∷◌, map, arith, string_eq, nat_eq, pair_eq, int_eq,
}
use entropyhunt.Base.Order.{IsOrder, ltb-IsOrder, by_key-IsOrder, lex-IsOrder}
use entropyhunt.Base.Arrangement.{
  All-least_from, Pairs, Pairs-sorted, IsSeparated, Apart, All-perm, sorted-eq_of_perm, head-sorted,
}
use entropyhunt.Base.Sort.{insert_sorted, sorted, least_from, least, length-sorted, least-IsBelow}
use entropyhunt.Base.Text.{text_lt, text_lt-IsOrder, text_lt-IsConnected}
use entropyhunt.Base.Numeric.{Floats}
use entropyhunt.Certainty.{CertaintyMap}
use entropyhunt.Auction.Exclusion.{resolve_conflict-Decides}
use entropyhunt.Auction.{
  ClaimRequest, AuctionDecision, single_decision, claim_lt, settle, resolve_conflict,
}

-- The claims are from distinct drones.
abbrev pub AreDistinct : List ClaimRequest → Type 0
AreDistinct [] = Unit
AreDistinct (c ∷ cs) = All (λ d. ¬ (c.drone_id ≡ d.drone_id)) cs × AreDistinct cs

abbrev OtherDrone : ClaimRequest → ClaimRequest → Type 0
OtherDrone c d = ¬ (c.drone_id ≡ d.drone_id)

module _ ⦃fl : Floats⦄ where
  open fl use {Float, lt, order}

  pub claim_lt-IsOrder : IsOrder claim_lt
  claim_lt-IsOrder = lex-IsOrder (by_key-IsOrder (λ c. c.timestamp_ms) ltb-IsOrder) (
      lex-IsOrder (by_key-IsOrder (λ c. fl.dist c.position c.cell) order)
        (by_key-IsOrder (λ c. c.drone_id) text_lt-IsOrder))

  claim_lt-Apart : (c d : ClaimRequest) → ¬ (c.drone_id ≡ d.drone_id) → Apart claim_lt c d
  claim_lt-Apart c d h = elim (Bool-cases (text_lt c.drone_id d.drone_id)) [
    | inl l ↦ ground arith
    | inr l ↦ elim (Bool-cases (text_lt d.drone_id c.drone_id)) [
      | inl l' ↦ ground arith
      | inr l' ↦ absurd (h (text_lt-IsConnected c.drone_id d.drone_id l l'))
    ]
  ]

  AreDistinct-IsSeparated :
      (claims : List ClaimRequest) → AreDistinct claims → IsSeparated claim_lt claims
  AreDistinct-IsSeparated [] h = tt
  AreDistinct-IsSeparated (c ∷ cs) h =
      (All-mono _ _ cs (λ d. claim_lt-Apart c d) h.0, AreDistinct-IsSeparated cs h.1)

  -- The zone for which all the claims contend.
  abbrev pub AreFor : Coordinate → List ClaimRequest → Type 0
  AreFor zone = All λ c. c.cell ≡ zone

  -- The decision for contenders of one zone, without reference to which of them came first.
  settled :
      Coordinate → CertaintyMap Float → List Coordinate → List ClaimRequest → Result AuctionDecision
  settled zone m claimed [] = raise value_error
  settled zone m claimed (claim ∷ []) = ok (single_decision claim)
  settled zone m claimed (claim ∷ claim' ∷ claims) = settle zone m claimed (claim ∷ claim' ∷ claims)

  settled-settle :
      (zone : Coordinate) (m : CertaintyMap Float) (claimed : List Coordinate)
      (ranked : List ClaimRequest)
      → 2 ≤ length ranked
      → settled zone m claimed ranked ≡ settle zone m claimed ranked
  unfolding settled
  settled-settle zone m claimed [] h = absurd (omega arith)
  settled-settle zone m claimed (claim ∷ []) h = absurd (omega arith)
  settled-settle zone m claimed (claim ∷ claim' ∷ claims) h = refl

  resolve_conflict-settled :
      (claims : List ClaimRequest) (zone : Coordinate) (m : CertaintyMap Float)
      (claimed : List Coordinate)
      → AreFor zone claims
      → resolve_conflict claims m claimed ≡ settled zone m claimed (sorted claim_lt claims)
  unfolding settled resolve_conflict sorted insert_sorted
  resolve_conflict-settled [] zone m claimed h = refl
  resolve_conflict-settled (claim ∷ []) zone m claimed h = refl
  resolve_conflict-settled (claim ∷ claim' ∷ claims) zone m claimed h =
      let all = claim ∷ claim' ∷ claims in
      ap (λ z. settle z m claimed (sorted claim_lt all)) h.0
      ∙ sym (
          settled-settle zone m claimed (sorted claim_lt all)
            (omega (arith, length-sorted claim_lt all)))

  -- Where distinct drones contend for one zone, every order of their claims gives the same
  -- decision.
  pub resolve_conflict-perm :
      {claims claims' : List ClaimRequest}
      → Permᴰ claims claims'
      → (zone : Coordinate) (m : CertaintyMap Float) (claimed : List Coordinate)
      → AreFor zone claims
      → AreDistinct claims
      → resolve_conflict claims m claimed ≡ resolve_conflict claims' m claimed
  resolve_conflict-perm {claims} {claims'} p zone m claimed h d =
      resolve_conflict-settled claims zone m claimed h
      ∙ ap (settled zone m claimed)
          (sorted-eq_of_perm claim_lt claim_lt-IsOrder p (AreDistinct-IsSeparated claims d))
      ∙ sym (
          resolve_conflict-settled claims' zone m claimed
            (All-perm claim_lt (λ c. c.cell ≡ zone) p h))

  -- The winner of a decision is the drone of its first assignment.
  abbrev pub lead : AuctionDecision → Option String
  lead d = get_elem? (map (λ a. a.drone_id) d.assignments) 0

  head-map :
      (w : ClaimRequest) (l : List ClaimRequest)
      → get_elem? l 0 ≡ some w
      → get_elem? (map (λ c. c.drone_id) l) 0 ≡ some w.drone_id
  head-map w [] h = cc
  head-map w (c ∷ l) h = ground arith

  -- The claim `c` does not precede the winner: it is later, or of the same time and further away, or of
  -- the same time and distance and of a drone whose id is not smaller.
  abbrev pub Yields : ClaimRequest → ClaimRequest → Type 0
  Yields winner c =
      (winner.timestamp_ms < c.timestamp_ms)
      ⊎ ((winner.timestamp_ms ≡ c.timestamp_ms)
          × ((lt (fl.dist winner.position winner.cell) (fl.dist c.position c.cell) ≡ true)
              ⊎ ((fl.dist winner.position winner.cell ≡ fl.dist c.position c.cell)
                  × (text_lt c.drone_id winner.drone_id ≡ false))))

  below-Yields : (winner c : ClaimRequest) → claim_lt c winner ≡ false → Yields winner c
  below-Yields winner c h =
      let near = fl.dist winner.position winner.cell in
      let far = fl.dist c.position c.cell in
      elim (dec_lt winner.timestamp_ms c.timestamp_ms) [
        | yes later ↦ inl later
        | no not_later ↦
            let same : winner.timestamp_ms ≡ c.timestamp_ms = ground arith in
            elim (Bool-cases (lt near far)) [
              | inl further ↦ inr (same, inl further)
              | inr not_further ↦
                  let not_nearer : lt far near ≡ false = ground arith in
                  inr (same, inr (fl.connected near far not_further not_nearer, ground arith))
            ]
      ]

  -- The first assignment of a decision goes to the drone of one of the claims, and each of the
  -- claims yields to that claim: it is later; or of the same time and farther from the cell; or of
  -- the same time and as far from the cell, and its drone id is not smaller.
  pub lead-Yields :
      (claim : ClaimRequest) (claims : List ClaimRequest) (m : CertaintyMap Float)
      (claimed : List Coordinate) (d : AuctionDecision)
      → resolve_conflict (claim ∷ claims) m claimed ≡ ok d
      → (winner : ClaimRequest) × (lead d ≡ some winner.drone_id)
        × Among winner (claim ∷ claims)
        × All (Yields winner) (claim ∷ claims)
  unfolding least
  lead-Yields claim claims m claimed d h =
      let all = claim ∷ claims in
      let winner = least_from claim_lt claim claims in
      let (d', e, decides) = resolve_conflict-Decides claim claims m claimed in
      let same : d' ≡ d = ok-injective (sym e ∙ h) in
      (
        winner,
        ap lead (sym same)
            ∙ ap (λ l. get_elem? l 0) decides.ids
            ∙ head-map winner (sorted claim_lt all) (head-sorted claim_lt claim_lt-IsOrder all),
        All-least_from claim_lt (λ c. Among c all) claim claims (inl refl)
            (All-mono _ _ claims (λ c h. inr h) (All-self claims)),
        All-mono _ _ all (below-Yields winner)
            (least-IsBelow claim_lt claim_lt-IsOrder all winner refl),
      )

  AreDistinct-Pairs :
      (claims : List ClaimRequest) → AreDistinct claims → Pairs claim_lt OtherDrone claims
  AreDistinct-Pairs [] h = tt
  AreDistinct-Pairs (c ∷ cs) h = (h.0, AreDistinct-Pairs cs h.1)

  AreDistinct-of_Pairs :
      (claims : List ClaimRequest) → Pairs claim_lt OtherDrone claims → AreDistinct claims
  AreDistinct-of_Pairs [] h = tt
  AreDistinct-of_Pairs (c ∷ cs) h = (h.0, AreDistinct-of_Pairs cs h.1)

  -- Sorting keeps the drones distinct.
  pub sorted-AreDistinct :
      (claims : List ClaimRequest) → AreDistinct claims → AreDistinct (sorted claim_lt claims)
  sorted-AreDistinct claims h =
      AreDistinct-of_Pairs (sorted claim_lt claims) (
        Pairs-sorted claim_lt OtherDrone claims (λ c d n e. n (sym e)) (AreDistinct-Pairs claims h))
