-- ===== src/Certainty/Cells.antt =====
-- core/certainty.py: a cell, the entropy of a certainty, and the single-cell methods of the map.
use entropyhunt.Base.{
  if◌then◌else◌, get_elem?, set, tabulate, index_error, Result, ok, raise, ◌>>=◌, or_raise, pos,
  Coordinate, ℕ, String, ◌≡◌, false, ◌||◌, Option, none, some, List, flatten, arith, string_eq,
  nat_eq, pair_eq, int_eq,
}
use entropyhunt.Base.Int.{pos_part, ltb_ℤ}
use entropyhunt.Base.Numeric.{Floats, max_f, min_f, le_f, lt_irrefl}

pub record CellState (F : Type 0) : Type 0 where
  pub x : ℕ
  pub y : ℕ
  pub certainty : F
  pub last_updated_ms : ℕ
  pub updated_by : String
  pub decay_rate : F

abbrev pub coordinate : {F : Type 0} → CellState F → Coordinate
coordinate c = (pos c.x, pos c.y)

pub record CertaintyMap (F : Type 0) : Type 0 where
  pub size : ℕ
  pub decay_rate : F
  pub grid : List (List (CellState F))

-- `for cell in self`: row by row.
abbrev pub cells : {F : Type 0} → CertaintyMap F → List (CellState F)
cells m = flatten m.grid

abbrev pub grid_get : {A : Type 0} → List (List A) → ℕ → ℕ → Option A
grid_get g x y = elim (get_elem? g y) [ none ↦ none | some row ↦ get_elem? row x ]

abbrev pub grid_set : {A : Type 0} → List (List A) → ℕ → ℕ → A → List (List A)
grid_set g x y a = elim (get_elem? g y) [ none ↦ g | some row ↦ set g y (set row x a) ]

module _ ⦃fl : Floats⦄ where
  open fl use {Float, lt, zero_f, one, add_f, sub_f, mul_f, neg, log2}

  unfoldable pub clamp_certainty : Float → Float
  clamp_certainty value = max_f zero_f (min_f one value)

  unfoldable pub shannon_entropy : Float → Float
  shannon_entropy certainty =
      let p = clamp_certainty certainty in
      let q = sub_f one p in
      if le_f p zero_f || le_f one p
      then zero_f
      else neg (add_f (mul_f p (log2 p)) (mul_f q (log2 q)))

  -- `CertaintyMap(size, …)`
  unfoldable pub new_map : ℕ → Float → Float → ℕ → CertaintyMap Float
  new_map size initial_certainty decay_rate now_ms = record {
    size = size;
    decay_rate = decay_rate;
    grid = tabulate size λ y. tabulate size λ x. record {
      x = x;
      y = y;
      certainty = clamp_certainty initial_certainty;
      last_updated_ms = now_ms;
      updated_by = "bootstrap";
      decay_rate = decay_rate;
    };
  }

  unfoldable pub cell : Coordinate → CertaintyMap Float → Result (CellState Float)
  cell (x, y) m =
      if ltb_ℤ x (pos 0) || ltb_ℤ y (pos 0)
      then raise index_error
      else or_raise (grid_get m.grid (pos_part x) (pos_part y)) index_error

  -- A method assigns to fields of the cell object at a coordinate.
  unfoldable pub assign :
      Coordinate
      → (CellState Float → CellState Float)
      → CertaintyMap Float
      → Result (CertaintyMap Float)
  assign p f m = do
    c ← cell p m
    ok (record m { grid = grid_set m.grid (pos_part p.0) (pos_part p.1) (f c) })

  abbrev pub certainty_set : Float → String → ℕ → CellState Float → CellState Float
  certainty_set certainty updated_by now_ms c = record c {
    certainty = clamp_certainty certainty;
    updated_by = updated_by;
    last_updated_ms = now_ms;
  }

  unfoldable pub set_certainty :
      Coordinate → Float → String → ℕ → CertaintyMap Float → Result (CertaintyMap Float)
  set_certainty p certainty updated_by now_ms m =
      assign p (certainty_set certainty updated_by now_ms) m

  unfoldable pub update_cell :
      Coordinate → String → Float → ℕ → CertaintyMap Float → Result (CertaintyMap Float)
  update_cell p updated_by increment now_ms m = do
    c ← cell p m
    set_certainty p (add_f c.certainty increment) updated_by now_ms m

  unfoldable pub entropy_at : Coordinate → CertaintyMap Float → Result Float
  entropy_at p m = do c ← cell p m; ok (shannon_entropy c.certainty)

  -- A certainty that is a probability.
  abbrev pub IsProbability : Float → Type 0
  IsProbability v = (lt v zero_f ≡ false) × (lt one v ≡ false)

  -- A clamped certainty is between 0 and 1.
  pub clamp_certainty-IsProbability : (v : Float) → IsProbability (clamp_certainty v)
  unfolding clamp_certainty
  clamp_certainty-IsProbability v = ground (
    arith,
    fl.order.asymm zero_f v,
    fl.order.asymm v one,
    fl.zero_lt_one,
    fl.order.asymm zero_f one,
    lt_irrefl zero_f,
    lt_irrefl one,
  )

  -- Clamping leaves a probability alone, and so is idempotent.
  pub clamp_certainty_id : (v : Float) → IsProbability v → clamp_certainty v ≡ v
  unfolding clamp_certainty
  clamp_certainty_id v h =
      ground (
        arith,
        fl.connected v one,
        fl.connected v zero_f,
        fl.zero_lt_one,
        fl.order.asymm zero_f one,
      )
