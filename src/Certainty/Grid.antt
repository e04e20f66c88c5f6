-- ===== src/Certainty/Grid.antt =====
-- Reading a cell after an assignment to a cell: core/certainty.py, `cell` and the assignments.
use entropyhunt.Base.{
  Option-cases, get_elem?, set, get_elem?-set_self, get_elem?-set_ne, get_elem?-lt_length, set_self,
  ok, map_ok, Coordinate, ℕ, ◌≡◌, refl, ap, ◌∙◌, ◌≢◌, ◌⊎◌, inl, inr, some, List, arith, ℕ_discrete,
  string_eq, nat_eq, pair_eq, int_eq,
}
use entropyhunt.Base.Int.{pos_part, eq_of_parts}
use entropyhunt.Base.Numeric.{Floats}
use entropyhunt.Certainty.{CellState, CertaintyMap, grid_get, grid_set, cell, assign}

module _ {A : Type 0} (g : List (List A)) (x y : ℕ) where
  pub grid_get-grid_set_self :
      (c a : A) → grid_get g x y ≡ some c → grid_get (grid_set g x y a) x y ≡ some a
  grid_get-grid_set_self c a h = elim (Option-cases (get_elem? g y)) [
    | inl e ↦ ground arith
    | inr (row, e) ↦ ground (
      arith,
      get_elem?-set_self g y (set row x a) (get_elem?-lt_length g y row e),
      get_elem?-set_self row x a (get_elem?-lt_length row x c (ground arith)),
    )
  ]

  pub grid_get-grid_set_ne :
      (x' y' : ℕ) (a : A)
      → (x ≢ x') ⊎ (y ≢ y')
      → grid_get (grid_set g x y a) x' y' ≡ grid_get g x' y'
  grid_get-grid_set_ne x' y' a h = elim (Option-cases (get_elem? g y)) [
    | inl e ↦ ground arith
    | inr (row, e) ↦ elim (ℕ_discrete y y') [
      | yes p ↦ ground (
        arith,
        get_elem?-set_self g y (set row x a) (get_elem?-lt_length g y row e),
        get_elem?-set_ne row x x' a,
      )
      | no d ↦ ground (arith, get_elem?-set_ne g y y' (set row x a) d)
    ]
  ]

  pub grid_set_self : (c : A) → grid_get g x y ≡ some c → grid_set g x y c ≡ g
  grid_set_self c h = elim (Option-cases (get_elem? g y)) [
    | inl e ↦ ground arith
    | inr (row, e) ↦
        rw (e, grid_set) (ap (set g y) (set_self row x c (ground arith)) ∙ set_self g y row e)
  ]

module _ ⦃fl : Floats⦄ where
  open fl use {Float}

  -- What an assignment to the cell at `p` leaves to be read at `q`, and what it keeps.
  pub record Assigned (p : Coordinate) (f : CellState Float → CellState Float)
      (m m' : CertaintyMap Float) : Type 0 where
    pub here : cell p m' ≡ map_ok f (cell p m)
    pub there : (q : Coordinate) → p ≢ q → cell q m' ≡ cell q m
    pub same_size : m'.size ≡ m.size

  abbrev written :
      Coordinate
      → (CellState Float → CellState Float)
      → CellState Float
      → CertaintyMap Float
      → CertaintyMap Float
  written p f c m = record m { grid = grid_set m.grid (pos_part p.0) (pos_part p.1) (f c) }

  cell-written :
      (p : Coordinate) (f : CellState Float → CellState Float) (c : CellState Float)
      (m : CertaintyMap Float)
      → cell p m ≡ ok c
      → Assigned p f m (written p f c m)
  unfolding cell
  cell-written p f c m h = record {
    here = ground (arith, grid_get-grid_set_self m.grid (pos_part p.0) (pos_part p.1) c (f c));
    there = λ q d. ground (
      arith,
      grid_get-grid_set_ne m.grid (pos_part p.0) (pos_part p.1) (pos_part q.0) (pos_part q.1) (f c),
      eq_of_parts p.0 q.0,
      eq_of_parts p.1 q.1,
    );
    same_size = refl;
  }

  -- An assignment succeeds where the cell exists, and writes there alone.
  pub assign-Assigned :
      (p : Coordinate) (f : CellState Float → CellState Float) (c : CellState Float)
      (m : CertaintyMap Float)
      → cell p m ≡ ok c
      → (m' : CertaintyMap Float) × (assign p f m ≡ ok m') × Assigned p f m m'
  unfolding assign
  assign-Assigned p f c m h = (written p f c m, rw h refl, cell-written p f c m h)
