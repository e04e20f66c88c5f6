-- ===== src/Selector.antt =====
-- core/selector.py: the next zone of a drone, by entropy, distance and coordinate.
pub mod Choice
use entropyhunt.Base.{
  if◌then◌else◌, take, union, Coordinate, ℕ, Bool, Option, List, map, string_eq, nat_eq, pair_eq,
  int_eq,
}
use entropyhunt.Base.Int.{ltb_ℤ}
use entropyhunt.Base.Order.{lex, by_key}
use entropyhunt.Base.Sort.{sorted, least}
use entropyhunt.Base.Numeric.{Floats}
use entropyhunt.Certainty.{coordinate, CertaintyMap, CellScore, ranked_cells}

pub record ZoneSelection (F : Type 0) : Type 0 where
  pub coordinate : Coordinate
  pub certainty : F
  pub entropy : F
  pub distance : F

module _ ⦃fl : Floats⦄ where
  open fl use {Float, lt, neg, dist}

  abbrev pub selection_of : Coordinate → CellScore Float → ZoneSelection Float
  selection_of current_position s = record {
    coordinate = s.coordinate;
    certainty = s.certainty;
    entropy = s.entropy;
    distance = dist current_position s.coordinate;
  }

  unfoldable pub selections :
      CertaintyMap Float
      → List Coordinate
      → Coordinate
      → List Coordinate
      → List (ZoneSelection Float)
  selections m claimed_zones current_position blocked_zones =
      map (selection_of current_position) (ranked_cells (union claimed_zones blocked_zones) m)

  abbrev pub by_row : ZoneSelection Float → ZoneSelection Float → Bool
  by_row = lex (by_key ltb_ℤ (λ s. s.coordinate.1)) (by_key ltb_ℤ (λ s. s.coordinate.0))

  abbrev pub by_entropy : ZoneSelection Float → ZoneSelection Float → Bool
  by_entropy = by_key lt (λ s. neg s.entropy)

  -- The keys `(-entropy, distance, y, x)` and `(-entropy, y, x)`.
  abbrev pub nearest_lt : ZoneSelection Float → ZoneSelection Float → Bool
  nearest_lt = lex by_entropy (lex (by_key lt (λ s. s.distance)) by_row)

  abbrev pub entropy_lt : ZoneSelection Float → ZoneSelection Float → Bool
  entropy_lt = lex by_entropy by_row

  unfoldable pub select_next_zone :
      CertaintyMap Float
      → List Coordinate
      → Coordinate
      → List Coordinate
      → Bool
      → Option (ZoneSelection Float)
  select_next_zone m claimed_zones current_position blocked_zones ignore_distance =
      least (if ignore_distance then entropy_lt else nearest_lt)
        (selections m claimed_zones current_position blocked_zones)

  unfoldable pub top_candidates :
      CertaintyMap Float
      → List Coordinate
      → Coordinate
      → ℕ
      → List Coordinate
      → List (ZoneSelection Float)
  top_candidates m claimed_zones current_position limit blocked_zones =
      take limit (sorted nearest_lt (selections m claimed_zones current_position blocked_zones))
