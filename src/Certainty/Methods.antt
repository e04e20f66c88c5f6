-- ===== src/Certainty/Methods.antt =====
-- core/certainty.py: the methods of `CertaintyMap` that go over all cells. A loop over the map's own
-- cells reads each cell when it comes to it, from the map as it is by then.
use entropyhunt.Base.{
  ltb, if◌then◌else◌, get_or_else, length, keep, tabulate, holds, ◌==◌, nat_eq, contains,
  zero_division_error, Result, ok, raise, ◌>>=◌, each, pos, Coordinate, ℕ, suc, ◌*◌, String, Bool,
  not, ◌&&◌, ◌||◌, Option, none, some, List, [], ◌∷◌, ◌++◌, map, string_eq, pair_eq, int_eq,
}
use entropyhunt.Base.Int.{ltb_ℤ}
use entropyhunt.Base.Numeric.{Floats, max_f, le_f}
use entropyhunt.Base.Order.{lex, by_key}
use entropyhunt.Base.Sort.{sorted}
use entropyhunt.Base.Dict.{Dict, lookup}
use entropyhunt.Certainty.Cells.{
  CellState, coordinate, CertaintyMap, cells, grid_get, clamp_certainty, shannon_entropy, new_map,
  cell, assign, set_certainty,
}

pub record CellScore (F : Type 0) : Type 0 where
  pub coordinate : Coordinate
  pub certainty : F
  pub entropy : F

-- A cell of a grid message: each key may be missing.
pub record CellPayload (F : Type 0) : Type 0 where
  pub x : Option ℕ
  pub y : Option ℕ
  pub certainty : Option F
  pub entropy : Option F
  pub last_updated_ms : Option ℕ
  pub updated_by : Option String
  pub decay_rate : Option F
  pub owner : Option String

abbrev pub GridPayload : Type 0 → Type 0
GridPayload F = List (List (CellPayload F))

-- The places of a grid's cells, row by row, as (column, row).
abbrev pub places_from : {A : Type 0} → ℕ → List (List A) → List (ℕ × ℕ)
places_from y [] = []
places_from y (row ∷ rows) = tabulate (length row) (λ x. (x, y)) ++ places_from (suc y) rows

-- `enumerate` over the rows of a message.
abbrev pub enumerate_from : {A : Type 0} → ℕ → List A → List (ℕ × A)
enumerate_from i [] = []
enumerate_from i (a ∷ as') = (i, a) ∷ enumerate_from (suc i) as'

module _ ⦃fl : Floats⦄ where
  open fl use {Float, lt, zero_f, one, sub_f, mul_f, div_f, neg, of_nat, sum_f, ratio, round4}

  -- What `decay_all` does to one cell.
  unfoldable pub decay_cell :
      Float
      → ℕ
      → List Coordinate
      → CellState Float
      → CertaintyMap Float
      → Result (CertaintyMap Float)
  decay_cell seconds now_ms skipped c m =
      if contains skipped (coordinate c)
      then ok m
      else set_certainty (coordinate c) (mul_f c.certainty (sub_f one (mul_f c.decay_rate seconds)))
          c.updated_by now_ms m

  unfoldable pub decay_place :
      Float → ℕ → List Coordinate → ℕ × ℕ → CertaintyMap Float → Result (CertaintyMap Float)
  decay_place seconds now_ms skipped (x, y) m = elim (grid_get m.grid x y) [
    | none ↦ ok m
    | some c ↦ decay_cell seconds now_ms skipped c m
  ]

  unfoldable pub decay_all :
      Float → ℕ → List Coordinate → CertaintyMap Float → Result (CertaintyMap Float)
  decay_all seconds now_ms skipped m =
      each (decay_place seconds now_ms skipped) (places_from 0 m.grid) m

  abbrev pub score : CellState Float → CellScore Float
  score c = record {
    coordinate = coordinate c;
    certainty = c.certainty;
    entropy = shannon_entropy c.certainty;
  }

  -- The key `(-entropy, y, x)`.
  abbrev pub score_lt : CellScore Float → CellScore Float → Bool
  score_lt =
      lex (by_key lt (λ s. neg s.entropy))
        (lex (by_key ltb_ℤ (λ s. s.coordinate.1)) (by_key ltb_ℤ (λ s. s.coordinate.0)))

  unfoldable pub ranked_cells : List Coordinate → CertaintyMap Float → List (CellScore Float)
  ranked_cells claimed m =
      sorted score_lt (map score (keep (λ c. not (contains claimed (coordinate c))) (cells m)))

  unfoldable pub average_entropy : CertaintyMap Float → Result Float
  average_entropy m =
      let total = sum_f (map (λ c. shannon_entropy c.certainty) (cells m)) in
      if m.size * m.size == 0
      then raise zero_division_error
      else ok (div_f total (of_nat (m.size * m.size)))

  unfoldable pub coverage : Float → CertaintyMap Float → Result Float
  coverage threshold m =
      let searched = length (keep (λ c. le_f threshold c.certainty) (cells m)) in
      if m.size * m.size == 0
      then raise zero_division_error
      else ok (ratio searched (m.size * m.size))

  -- `clone` copies four fields as they are, `reset_from` clamps the certainty.
  unfoldable pub clone_cell : CellState Float → CertaintyMap Float → Result (CertaintyMap Float)
  clone_cell c m =
      assign (coordinate c)
        (λ t. record t {
          certainty = c.certainty;
          updated_by = c.updated_by;
          last_updated_ms = c.last_updated_ms;
          decay_rate = c.decay_rate;
        })
        m

  unfoldable pub clone : CertaintyMap Float → Result (CertaintyMap Float)
  clone m = each clone_cell (cells m) (new_map m.size zero_f m.decay_rate 0)

  unfoldable pub reset_cell : CellState Float → CertaintyMap Float → Result (CertaintyMap Float)
  reset_cell c m =
      assign (coordinate c)
        (λ t. record t {
          certainty = clamp_certainty c.certainty;
          last_updated_ms = c.last_updated_ms;
          updated_by = c.updated_by;
          decay_rate = c.decay_rate;
        })
        m

  unfoldable pub reset_from : CertaintyMap Float → CertaintyMap Float → Result (CertaintyMap Float)
  reset_from source m = each reset_cell (cells source) m

  unfoldable pub replace_from_rows :
      GridPayload Float → CertaintyMap Float → Result (CertaintyMap Float)
  replace_from_rows rows =
      each
        (λ row.
          each
            (λ entry.
              set_certainty (pos entry.0, pos row.0) (get_or_else entry.1.certainty zero_f)
                (get_or_else entry.1.updated_by "peer") (get_or_else entry.1.last_updated_ms 0))
            (enumerate_from 0 row.1))
        (enumerate_from 0 rows)

  -- `_merge_max_from`, for one cell of the other map.
  unfoldable pub merge_max_cell : CellState Float → CertaintyMap Float → Result (CertaintyMap Float)
  merge_max_cell c m = do
    current ← cell (coordinate c) m
    if lt current.certainty c.certainty
        then set_certainty (coordinate c) c.certainty c.updated_by c.last_updated_ms m
        else ok m

  unfoldable pub merge_max_from :
      CertaintyMap Float → CertaintyMap Float → Result (CertaintyMap Float)
  merge_max_from other m = each merge_max_cell (cells other) m

  -- A later observation wins, and of two of one time the more certain one.
  abbrev pub is_newer : ℕ → Float → CellState Float → Bool
  is_newer time certainty current =
      ltb current.last_updated_ms time
      || holds (nat_eq.dec time current.last_updated_ms) && lt current.certainty certainty

  -- The body that `merge_timestamped_from`, `merge_rows_timestamped`, and the handlers of certainty
  -- messages share.
  unfoldable pub merge_newer :
      Coordinate → Float → String → ℕ → CertaintyMap Float → Result (CertaintyMap Float)
  merge_newer p certainty updated_by time m = do
    current ← cell p m
    if is_newer time certainty current then set_certainty p certainty updated_by time m else ok m

  unfoldable pub merge_timestamped_cell :
      CellState Float → CertaintyMap Float → Result (CertaintyMap Float)
  merge_timestamped_cell c m =
      merge_newer (coordinate c) c.certainty c.updated_by c.last_updated_ms m

  unfoldable pub merge_timestamped_from :
      CertaintyMap Float → CertaintyMap Float → Result (CertaintyMap Float)
  merge_timestamped_from other m = each merge_timestamped_cell (cells other) m

  abbrev pub payload_coordinate : CellPayload Float → Coordinate
  payload_coordinate payload = (pos (get_or_else payload.x 0), pos (get_or_else payload.y 0))

  unfoldable pub merge_rows_timestamped :
      GridPayload Float → ℕ → String → CertaintyMap Float → Result (CertaintyMap Float)
  merge_rows_timestamped rows now_ms updated_by =
      each
        (each λ payload.
          merge_newer (payload_coordinate payload) (get_or_else payload.certainty zero_f) updated_by
            (get_or_else payload.last_updated_ms now_ms))
        rows

  unfoldable pub merge_rows_max :
      GridPayload Float → ℕ → String → CertaintyMap Float → Result (CertaintyMap Float)
  merge_rows_max rows now_ms updated_by =
      each
        (each λ payload m. do
          current ← cell (payload_coordinate payload) m
          set_certainty (payload_coordinate payload)
              (max_f current.certainty (get_or_else payload.certainty zero_f)) updated_by now_ms m)
        rows

  abbrev pub cell_payload : Dict Coordinate String → CellState Float → CellPayload Float
  cell_payload owners c = record {
    x = some c.x;
    y = some c.y;
    certainty = some (round4 c.certainty);
    entropy = some (round4 (shannon_entropy c.certainty));
    last_updated_ms = some c.last_updated_ms;
    updated_by = some c.updated_by;
    decay_rate = some c.decay_rate;
    owner = lookup (coordinate c) owners;
  }

  unfoldable pub to_rows : Dict Coordinate String → CertaintyMap Float → GridPayload Float
  to_rows owners m = map (map (cell_payload owners)) m.grid
