-- ===== src/Auction.antt =====
-- auction/protocol.py: which drone gets a contested cell, and where the others go.
pub mod Order
pub mod Exclusion
use entropyhunt.Base.{
  ltb, if◌then◌else◌, ◌==◌, add, value_error, index_error, Result, ok, raise, Coordinate, ℕ, String,
  Bool, false, ◌&&◌, Option, none, some, List, [], ◌∷◌, string_eq, nat_eq, pair_eq, int_eq,
}
use entropyhunt.Base.Order.{lex, by_key}
use entropyhunt.Base.Sort.{sorted}
use entropyhunt.Base.Text.{text_lt}
use entropyhunt.Base.Numeric.{Floats}
use entropyhunt.Certainty.{CertaintyMap, cell}
use entropyhunt.Selector.{ZoneSelection, select_next_zone}

pub record ClaimRequest : Type 0 where
  pub claim_id : String
  pub drone_id : String
  pub cell : Coordinate
  pub position : Coordinate
  pub timestamp_ms : ℕ

pub record ZoneAssignment : Type 0 where
  pub drone_id : String
  pub cell : Coordinate
  pub reason : String
  pub subzone : Option String

pub record AuctionDecision : Type 0 where
  pub cell : Coordinate
  pub assignments : List ZoneAssignment
  pub rationale : String

abbrev pub assignment : String → Coordinate → String → Option String → ZoneAssignment
assignment drone_id cell reason subzone = record {
  drone_id = drone_id;
  cell = cell;
  reason = reason;
  subzone = subzone;
}

-- The decision for a lone claim.
abbrev pub single_decision : ClaimRequest → AuctionDecision
single_decision claim = record {
  cell = claim.cell;
  assignments = assignment claim.drone_id claim.cell "winner" none ∷ [];
  rationale = "single-claim quorum";
}

module _ ⦃fl : Floats⦄ where
  open fl use {Float, lt, dist, is_close}

  -- Where a loser goes, and the zones that are reserved after it.
  unfoldable pub place_loser :
      ClaimRequest
      → List Coordinate
      → Option (ZoneSelection Float)
      → ZoneAssignment × List Coordinate
  place_loser loser reserved none = (assignment loser.drone_id loser.cell "idle" none, reserved)
  place_loser loser reserved (some selection) = (
    assignment loser.drone_id selection.coordinate "fallback" none,
    add selection.coordinate reserved,
  )

  unfoldable pub fallback_assignments :
      List ClaimRequest → CertaintyMap Float → List Coordinate → List ZoneAssignment
  fallback_assignments [] certainty_map reserved = []
  fallback_assignments (loser ∷ losers) certainty_map reserved =
      let selection = select_next_zone certainty_map reserved loser.position [] false in
      let (placed, reserved') = place_loser loser reserved selection in
      placed ∷ fallback_assignments losers certainty_map reserved'

  -- The key `(timestamp_ms, dist(position, cell), drone_id)`.
  abbrev pub claim_lt : ClaimRequest → ClaimRequest → Bool
  claim_lt =
      lex (by_key ltb (λ c. c.timestamp_ms))
        (lex (by_key lt (λ c. dist c.position c.cell)) (by_key text_lt (λ c. c.drone_id)))

  unfoldable pub split_decision :
      Coordinate
      → CertaintyMap Float
      → List Coordinate
      → ClaimRequest
      → ClaimRequest
      → List ClaimRequest
      → AuctionDecision
  split_decision cell certainty_map taken winner runner_up losers = record {
    cell = cell;
    assignments =
        assignment winner.drone_id cell "split" (some "left")
        ∷ assignment runner_up.drone_id cell "split" (some "right")
        ∷ fallback_assignments losers certainty_map taken;
    rationale = "distance tie -> split zone";
  }

  unfoldable pub winner_decision :
      Coordinate
      → CertaintyMap Float
      → List Coordinate
      → ClaimRequest
      → List ClaimRequest
      → AuctionDecision
  winner_decision cell certainty_map taken winner losers = record {
    cell = cell;
    assignments =
        assignment winner.drone_id cell "winner" none
        ∷ fallback_assignments losers certainty_map taken;
    rationale = "timestamp precedence + proximity tiebreak";
  }

  -- The zone is split where the two first claims are of one time and equally far.
  unfoldable pub is_tie : Coordinate → ClaimRequest → ClaimRequest → Bool
  is_tie cell winner runner_up =
      winner.timestamp_ms == runner_up.timestamp_ms
      && is_close (dist winner.position cell) (dist runner_up.position cell)

  -- The contest for `cell` between claims in the order of their keys, at least two.
  unfoldable pub settle :
      Coordinate → CertaintyMap Float → List Coordinate → List ClaimRequest → Result AuctionDecision
  settle cell certainty_map claimed_zones [] = raise index_error
  settle cell certainty_map claimed_zones (winner ∷ []) = raise index_error
  settle cell certainty_map claimed_zones (winner ∷ runner_up ∷ losers) =
      let taken = add cell claimed_zones in
      if is_tie cell winner runner_up
      then ok (split_decision cell certainty_map taken winner runner_up losers)
      else ok (winner_decision cell certainty_map taken winner (runner_up ∷ losers))

  unfoldable pub resolve_conflict :
      List ClaimRequest → CertaintyMap Float → List Coordinate → Result AuctionDecision
  resolve_conflict [] certainty_map claimed_zones = raise value_error
  resolve_conflict (claim ∷ []) certainty_map claimed_zones = ok (single_decision claim)
  resolve_conflict (claim ∷ claim' ∷ claims) certainty_map claimed_zones =
      settle claim.cell certainty_map claimed_zones (sorted claim_lt (claim ∷ claim' ∷ claims))
