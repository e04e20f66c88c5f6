-- ===== src/Certainty/Square.antt =====
-- A well-formed map of core/certainty.py: `size` rows of `size` cells, each at its own coordinate.
use entropyhunt.Base.{
  Option-cases, length, get_elem?, set, length-set, get_elem?-lt_length, get_elem?-of_lt, Error,
  index_error, ok, raise, >>=-eq-ok, Result-cases, ok-injective, pos, Coordinate, ℕ, zero, suc, ◌+◌,
  ◌<◌, ◌≡◌, subst, ◌∙◌, ◌⊎◌, inl, inr, some, List, [], ◌∷◌, arith, string_eq, nat_eq, pair_eq,
  int_eq,
}
use entropyhunt.Base.Int.{pos_part}
use entropyhunt.Base.Numeric.{Floats}
use entropyhunt.Certainty.{CellState, coordinate, CertaintyMap, grid_get, grid_set, cell, assign}

module _ {F : Type 0} where
  abbrev pub RowAt : ℕ → ℕ → List (CellState F) → Type 0
  RowAt y x [] = Unit
  RowAt y x (c ∷ cs) = (c.x ≡ x) × (c.y ≡ y) × RowAt y (suc x) cs

  abbrev pub RowsAt : ℕ → ℕ → List (List (CellState F)) → Type 0
  RowsAt n y [] = Unit
  RowsAt n y (row ∷ rows) = RowAt y 0 row × (length row ≡ n) × RowsAt n (suc y) rows

  abbrev pub IsSquare : CertaintyMap F → Type 0
  IsSquare m = RowsAt m.size 0 m.grid × (length m.grid ≡ m.size)

  -- An update that leaves a cell where it is.
  abbrev pub KeepsPlace : (CellState F → CellState F) → Type 0
  KeepsPlace f = (c : CellState F) → ((f c).x ≡ c.x) × ((f c).y ≡ c.y)

  RowAt-get :
      (y x i : ℕ) (row : List (CellState F)) (c : CellState F)
      → RowAt y x row
      → get_elem? row i ≡ some c
      → (c.x ≡ x + i) × (c.y ≡ y)
  RowAt-get y x i [] c r h = cc
  RowAt-get y x zero (d ∷ row) c r h = ground (arith, r.0)
  RowAt-get y x (suc i) (d ∷ row) c r h =
      let (a, b) = RowAt-get y (suc x) i row c r.2 h in (omega arith, b)

  RowsAt-get :
      (n y j : ℕ) (rows : List (List (CellState F))) (row : List (CellState F))
      → RowsAt n y rows
      → get_elem? rows j ≡ some row
      → RowAt (y + j) 0 row × (length row ≡ n)
  RowsAt-get n y j [] row r h = cc
  RowsAt-get n y zero (d ∷ rows) row r h =
      subst (λ z. RowAt (y + 0) 0 z × (length z ≡ n)) (ground arith)
        (subst (λ k. RowAt k 0 d × (length d ≡ n)) (omega arith) (r.0, r.1))
  RowsAt-get n y (suc j) (d ∷ rows) row r h =
      subst (λ k. RowAt k 0 row × (length row ≡ n)) (omega arith)
        (RowsAt-get n (suc y) j rows row r.2 h)

  RowAt-set :
      (y x i : ℕ) (row : List (CellState F)) (c d : CellState F)
      → RowAt y x row
      → get_elem? row i ≡ some c
      → d.x ≡ c.x
      → d.y ≡ c.y
      → RowAt y x (set row i d)
  RowAt-set y x i [] c d r h p q = tt
  RowAt-set y x zero (e ∷ row) c d r h p q = (ground (arith, r.0), ground (arith, r.1), r.2)
  RowAt-set y x (suc i) (e ∷ row) c d r h p q = (r.0, r.1, RowAt-set y (suc x) i row c d r.2 h p q)

  RowsAt-set :
      (n y j : ℕ) (rows : List (List (CellState F))) (row : List (CellState F))
      → RowsAt n y rows
      → RowAt (y + j) 0 row
      → length row ≡ n
      → RowsAt n y (set rows j row)
  RowsAt-set n y j [] row r s h = tt
  RowsAt-set n y zero (d ∷ rows) row r s h = (subst (λ k. RowAt k 0 row) (omega arith) s, h, r.2)
  RowsAt-set n y (suc j) (d ∷ rows) row r s h =
      (r.0, r.1, RowsAt-set n (suc y) j rows row r.2 (subst (λ k. RowAt k 0 row) (omega arith) s) h)

  RowsAt-grid_set :
      (n x y : ℕ) (g : List (List (CellState F))) (c d : CellState F)
      → RowsAt n 0 g
      → grid_get g x y ≡ some c
      → d.x ≡ c.x
      → d.y ≡ c.y
      → RowsAt n 0 (grid_set g x y d) × (length (grid_set g x y d) ≡ length g)
  RowsAt-grid_set n x y g c d r h p q = elim (Option-cases (get_elem? g y)) [
    | inl e ↦ ground arith
    | inr (row, e) ↦
        let (at_row, wide) = RowsAt-get n 0 y g row r e in
        rw (e, grid_set)
          (
            RowsAt-set n 0 y g (set row x d) r
                (RowAt-set (0 + y) 0 x row c d at_row (ground arith) p q)
                (length-set row x d ∙ wide),
            length-set g y (set row x d),
          )
  ]

module _ ⦃fl : Floats⦄ where
  open fl use {Float}

  -- The cells of a well-formed map are at the coordinates from (0, 0) to (size - 1, size - 1); any
  -- other coordinate raises IndexError.
  abbrev pub InRange : Coordinate → CertaintyMap Float → Type 0
  InRange p m = (x : ℕ) × (y : ℕ) × (p ≡ (pos x, pos y)) × (x < m.size) × (y < m.size)

  pub cell-eq-ok :
      (p : Coordinate) (m : CertaintyMap Float) (c : CellState Float)
      → cell p m ≡ ok c
      → (grid_get m.grid (pos_part p.0) (pos_part p.1) ≡ some c)
        × (p ≡ (pos (pos_part p.0), pos (pos_part p.1)))
  unfolding cell
  cell-eq-ok p m c h = (ground arith, ground arith)

  module _ (p : Coordinate) (m : CertaintyMap Float) (c : CellState Float) (s : IsSquare m) where
    cell-at :
        cell p m ≡ ok c
        → (c.x ≡ pos_part p.0)
          × (c.y ≡ pos_part p.1)
          × (pos_part p.0 < m.size)
          × (pos_part p.1 < m.size)
    cell-at h =
        let (got, _) = cell-eq-ok p m c h in
        let x = pos_part p.0 in
        let y = pos_part p.1 in
        elim (Option-cases (get_elem? m.grid y)) [
          | inl e ↦ absurd (ground arith)
          | inr (row, e) ↦
              let (at_row, wide) = RowsAt-get m.size 0 y m.grid row s.0 e in
              let found : get_elem? row x ≡ some c = ground arith in
              let (cx, cy) = RowAt-get (0 + y) 0 x row c at_row found in
              (
                omega arith,
                omega arith,
                omega (arith, get_elem?-lt_length row x c found),
                omega (arith, get_elem?-lt_length m.grid y row e, s.1),
              )
        ]

    pub cell-coordinate : cell p m ≡ ok c → coordinate c ≡ p
    cell-coordinate h =
        let (cx, cy, _, _) = cell-at h in
        let (_, e) = cell-eq-ok p m c h in ground (arith, cx, cy, e)

    cell-InRange : cell p m ≡ ok c → InRange p m
    cell-InRange h =
        let (_, _, x_lt, y_lt) = cell-at h in
        (pos_part p.0, pos_part p.1, (cell-eq-ok p m c h).1, x_lt, y_lt)

  pub InRange-cell :
      (p : Coordinate) (m : CertaintyMap Float)
      → IsSquare m
      → InRange p m
      → (c : CellState Float) × (cell p m ≡ ok c)
  unfolding cell
  InRange-cell p m s (x, y, e, x_lt, y_lt) =
      let (row, got) = get_elem?-of_lt m.grid y (omega (arith, s.1)) in
      let wide = (RowsAt-get m.size 0 y m.grid row s.0 got).1 in
      let (c, found) = get_elem?-of_lt row x (omega (arith, wide)) in
      (c, ground (arith, got, found))

  only_index_error :
      (p : Coordinate) (m : CertaintyMap Float) (e : Error)
      → cell p m ≡ raise e
      → cell p m ≡ raise index_error
  unfolding cell
  only_index_error p m e h = ground arith

  -- On a well-formed map `cell` answers exactly on the coordinates from (0, 0) to (size - 1, size -
  -- 1), with the cell of that coordinate; elsewhere it raises IndexError.
  pub cell_total :
      (p : Coordinate) (m : CertaintyMap Float)
      → IsSquare m
      → (InRange p m × ((c : CellState Float) × (cell p m ≡ ok c) × (coordinate c ≡ p)))
        ⊎ ((¬ InRange p m) × (cell p m ≡ raise index_error))
  cell_total p m s = elim (Result-cases (cell p m)) [
    | inl (c, h) ↦ inl (cell-InRange p m c s h, (c, h, cell-coordinate p m c s h))
    | inr (e, h) ↦
        inr ((λ r. let (c, g) = InRange-cell p m s r in cc (h, g)), only_index_error p m e h)
  ]

  pub assign-IsSquare :
      (p : Coordinate) (f : CellState Float → CellState Float) (m m' : CertaintyMap Float)
      → KeepsPlace f
      → IsSquare m
      → assign p f m ≡ ok m'
      → IsSquare m'
  unfolding assign
  assign-IsSquare p f m m' k s h =
      let (c, found, written) = >>=-eq-ok (cell p m) _ h in
      let (got, _) = cell-eq-ok p m c found in
      let (kx, ky) = k c in
      let (rows, long) =
        RowsAt-grid_set m.size (pos_part p.0) (pos_part p.1) m.grid c (f c) s.0 got kx ky in
      subst IsSquare (ok-injective written) (rows, long ∙ s.1)

  -- Maps of one size have cells at the same coordinates.
  pub same_range :
      (q : Coordinate) (o m : CertaintyMap Float) (s : CellState Float)
      → IsSquare o
      → IsSquare m
      → o.size ≡ m.size
      → cell q m ≡ ok s
      → (c : CellState Float) × (cell q o ≡ ok c)
  same_range q o m s so sm e h =
      let (x, y, p, x_lt, y_lt) = cell-InRange q m s sm h in
      InRange-cell q o so (x, y, p, omega arith, omega arith)
