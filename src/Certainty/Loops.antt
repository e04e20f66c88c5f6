-- ===== src/Certainty/Loops.antt =====
-- Loops over cells in core/certainty.py: a sequence of assignments, read cell by cell.
use mathlib.Core.Path.{fun_ext}
use entropyhunt.Base.{
  if◌then◌else◌, length, first, All, All-append, All-map, All-mono, ◌==◌, pair_discrete, Result, ok,
  each, map_ok, map_ok-map_ok, map_ok_id, Coordinate, ℕ, suc, ◌+◌, ◌<◌, ◌≡◌, refl, sym, ap, subst,
  ◌∙◌, List, [], ◌∷◌, flatten, arith, string_eq, nat_eq, pair_eq, int_eq,
}
use entropyhunt.Certainty.{CellState, coordinate, CertaintyMap, cells, cell, assign}
use entropyhunt.Certainty.Square.{
  RowAt, RowsAt, IsSquare, KeepsPlace, InRange, cell-eq-ok, InRange-cell, assign-IsSquare,
}
use entropyhunt.Base.Numeric.{Floats}
use entropyhunt.Base.Int.{pos_part, ℤ_discrete}
use entropyhunt.Certainty.Grid.{Assigned, assign-Assigned}
use entropyhunt.Certainty.Updates.{Update, updated, updates, updated-rows}

module _ ⦃fl : Floats⦄ where
  open fl use {Float}

  abbrev pub Exists : Coordinate → CertaintyMap Float → Type 0
  Exists p m = (c : CellState Float) × (cell p m ≡ ok c)

  -- What a loop of updates leaves to be read, and what it keeps.
  pub record Looped (us : List (Update Float)) (m m' : CertaintyMap Float) : Type 0 where
    pub reads : (q : Coordinate) → cell q m' ≡ map_ok (updated us q) (cell q m)
    pub square : All (λ u. KeepsPlace u.1) us → IsSquare m → IsSquare m'
    pub same_size : m'.size ≡ m.size

  abbrev pub assign_all : List (Update Float) → CertaintyMap Float → Result (CertaintyMap Float)
  assign_all = each λ u. assign u.0 u.1

  module _ (u : Update Float) (m m' : CertaintyMap Float) (a : Assigned u.0 u.1 m m') where
    cell-Assigned :
        (q : Coordinate) → cell q m' ≡ map_ok (λ s. if u.0 == q then u.1 s else s) (cell q m)
    cell-Assigned q = elim (pair_discrete ℤ_discrete ℤ_discrete u.0 q) [
      | yes e ↦
          subst (λ p. cell p m' ≡ map_ok (λ s. if u.0 == p then u.1 s else s) (cell p m)) e
            (a.here ∙ ap (λ f. map_ok f (cell u.0 m)) (fun_ext (λ s. ground arith)))
      | no d ↦
          a.there q d
          ∙ sym (map_ok_id (cell q m))
          ∙ ap (λ f. map_ok f (cell q m)) (fun_ext (λ s. ground arith))
    ]

    Exists-Assigned : (q : Coordinate) → Exists q m → Exists q m'
    Exists-Assigned q (c, h) = (
      (if u.0 == q then u.1 c else c),
      cell-Assigned q ∙ ap (map_ok (λ s. if u.0 == q then u.1 s else s)) h,
    )

  -- A loop of updates at cells that exist does not raise, and every cell gets its own updates in order.
  pub assign_all-Looped :
      (us : List (Update Float)) (m : CertaintyMap Float)
      → All (λ u. Exists u.0 m) us
      → (m' : CertaintyMap Float) × (assign_all us m ≡ ok m') × Looped us m m'
  unfolding each
  assign_all-Looped [] m h =
      (m, refl, record { reads = λ q. ground arith; square = λ _ s. s; same_size = refl })
  assign_all-Looped (u ∷ us) m h =
      let (m1, first, a) = assign-Assigned u.0 u.1 h.0.0 m h.0.1 in
      let (m2, rest, l) =
        assign_all-Looped us m1 (All-mono _ _ us (λ v. Exists-Assigned u m m1 a v.0) h.1) in
      (
        m2,
        rw first rest,
        record {
          reads = λ q.
              l.reads q
              ∙ ap (map_ok (updated us q)) (cell-Assigned u m m1 a q)
              ∙ map_ok-map_ok (updated us q) (λ s. if u.0 == q then u.1 s else s) (cell q m);
          square = λ k s. l.square k.1 (assign-IsSquare u.0 u.1 m m1 k.0 s first);
          same_size = l.same_size ∙ a.same_size;
        },
      )

  -- The loop over the cells of another map of the same size that updates the cell at the same place by
  -- `f`: it does not raise, and each cell is updated once, by the cell of the same coordinate.
  pub record Pointwise (f : CellState Float → CellState Float → CellState Float)
      (other m m' : CertaintyMap Float) : Type 0 where
    pub reads :
        (q : Coordinate) (c s : CellState Float)
        → cell q other ≡ ok c
        → cell q m ≡ ok s
        → cell q m' ≡ ok (f c s)
    pub square : IsSquare m'
    pub same_size : m'.size ≡ m.size

  updated-cells :
      (f : CellState Float → CellState Float → CellState Float) (other : CertaintyMap Float)
      (q : Coordinate) (c s : CellState Float)
      → IsSquare other
      → cell q other ≡ ok c
      → updated (updates f (cells other)) q s ≡ f c s
  updated-cells f other q c s sq h =
      let (got, e) = cell-eq-ok q other c h in
      subst (λ p. updated (updates f (cells other)) p s ≡ f c s) (sym e)
        (updated-rows f other.size 0 (pos_part q.1) (pos_part q.0) (pos_part q.1) other.grid c s
          sq.0 got (omega arith))

  -- The cells of a well-formed map are in the range of any map of its size.
  InRange-row :
      (y x : ℕ) (row : List (CellState Float)) (m : CertaintyMap Float)
      → RowAt y x row
      → x + length row ≡ m.size
      → y < m.size
      → All (λ c. InRange (coordinate c) m) row
  InRange-row y x [] m r h l = tt
  InRange-row y x (c ∷ row) m r h l = (
    (c.x, c.y, refl, omega (arith, r.0), omega (arith, r.1)),
    InRange-row y (suc x) row m r.2 (omega arith) l,
  )

  InRange-rows :
      (n y : ℕ) (rows : List (List (CellState Float))) (m : CertaintyMap Float)
      → RowsAt n y rows
      → n ≡ m.size
      → y + length rows ≡ m.size
      → All (λ c. InRange (coordinate c) m) (flatten rows)
  unfolding flatten
  InRange-rows n y [] m r e h = tt
  InRange-rows n y (row ∷ rows) m r e h =
      All-append _ row (flatten rows) (InRange-row y 0 row m r.0 (omega (arith, r.1)) (omega arith))
        (InRange-rows n (suc y) rows m r.2 e (omega arith))

  pub cells-InRange :
      (other m : CertaintyMap Float)
      → IsSquare other
      → other.size ≡ m.size
      → All (λ c. InRange (coordinate c) m) (cells other)
  cells-InRange other m so e = InRange-rows other.size 0 other.grid m so.0 e (omega (arith, so.1))

  pub assign_cells-Pointwise :
      (f : CellState Float → CellState Float → CellState Float) (other m : CertaintyMap Float)
      → ((c : CellState Float) → KeepsPlace (f c))
      → IsSquare other
      → IsSquare m
      → other.size ≡ m.size
      → (m' : CertaintyMap Float) × (assign_all (updates f (cells other)) m ≡ ok m')
        × Pointwise f other m m'
  assign_cells-Pointwise f other m keeps so sm e =
      let exist =
        All-mono _ _ (cells other) (λ c r. InRange-cell (coordinate c) m sm r)
          (cells-InRange other m so e) in
      let (m', done, l) =
        assign_all-Looped (updates f (cells other)) m (All-map _ _ (cells other) exist) in
      (
        m',
        done,
        record {
          reads = λ q c s h k.
              l.reads q
              ∙ ap (map_ok (updated (updates f (cells other)) q)) k
              ∙ ap ok (updated-cells f other q c s so h);
          square =
              l.square
                (All-map _ _ (cells other) (All-mono _ _ (cells other) (λ c _. keeps c) exist)) sm;
          same_size = l.same_size;
        },
      )
