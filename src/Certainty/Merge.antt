-- ===== src/Certainty/Merge.antt =====
-- Merging of maps in core/certainty.py: which observation of a cell is kept.
use mathlib.Core.Path.{fun_ext}
use entropyhunt.Base.{
  ltb, if◌then◌else◌, Bool-cases, Result, ok, ◌>>=◌, each, Result-cases, Coordinate, ℕ, String, ◌≡◌,
  refl, sym, ap, ◌∙◌, inl, inr, Bool, List, [], ◌∷◌, arith, string_eq, nat_eq, pair_eq, int_eq,
}
use entropyhunt.Base.Int.{pos_part}
use entropyhunt.Base.Numeric.{Floats}
use entropyhunt.Certainty.{
  clamp_certainty, CellState, coordinate, CertaintyMap, cells, cell, assign, certainty_set,
  set_certainty, is_newer, merge_newer, merge_timestamped_cell, merge_timestamped_from,
}
use entropyhunt.Certainty.Grid.{grid_set_self}
use entropyhunt.Certainty.Square.{IsSquare, cell-eq-ok}
use entropyhunt.Certainty.Loops.{assign_all, Pointwise, assign_cells-Pointwise}
use entropyhunt.Certainty.Updates.{updates}

module _ ⦃fl : Floats⦄ where
  open fl use {Float, lt}

  -- What a merge makes of the current cell when the observation `c` comes in.
  abbrev pub newest : Float → String → ℕ → CellState Float → CellState Float
  newest v updated_by time s = if is_newer time v s then certainty_set v updated_by time s else s

  -- What the observation of `c` makes of a cell that takes it.
  abbrev taken : CellState Float → CellState Float → CellState Float
  taken c s = record s {
    certainty = clamp_certainty c.certainty;
    updated_by = c.updated_by;
    last_updated_ms = c.last_updated_ms;
  }

  -- The newer observation, of one time the more certain one, and of equals the cell's own.
  abbrev pub newest_of : CellState Float → CellState Float → CellState Float
  newest_of c s =
      if ltb s.last_updated_ms c.last_updated_ms
      then taken c s
      else if ltb c.last_updated_ms s.last_updated_ms
      then s
      else if lt s.certainty c.certainty
      then taken c s
      else s

  newest-newest_of :
      (c s : CellState Float) → newest c.certainty c.updated_by c.last_updated_ms s ≡ newest_of c s
  newest-newest_of c s = ground arith

  pub assign_same :
      (p : Coordinate) (f : CellState Float → CellState Float) (c : CellState Float)
      (m : CertaintyMap Float)
      → cell p m ≡ ok c
      → f c ≡ c
      → assign p f m ≡ ok m
  unfolding assign
  assign_same p f c m h e =
      rw (h, e)
        (ap (λ g. ok (record m { grid = g }))
          (grid_set_self m.grid (pos_part p.0) (pos_part p.1) c (cell-eq-ok p m c h).0))

  -- Only the cell that is there matters.
  pub assign_ext :
      (p : Coordinate) (f g : CellState Float → CellState Float) (c : CellState Float)
      (m : CertaintyMap Float)
      → cell p m ≡ ok c
      → f c ≡ g c
      → assign p f m ≡ assign p g m
  unfolding assign
  assign_ext p f g c m h e = rw (h, e) refl

  -- A guarded assignment writes the cell back where its guard fails.
  assign_if :
      (p : Coordinate) (b : CellState Float → Bool) (f : CellState Float → CellState Float)
      (m : CertaintyMap Float)
      → (cell p m >>= λ c. if b c then assign p f m else ok m)
        ≡ assign p (λ s. if b s then f s else s) m
  assign_if p b f m = elim (Result-cases (cell p m)) [
    | inr (e, h) ↦ unfold assign in rw h refl
    | inl (c, h) ↦ elim (Bool-cases (b c)) [
      | inl passes ↦ unfold assign in rw (h, passes) refl
      | inr fails ↦
          rw (h, fails) (sym (assign_same p (λ s. if b s then f s else s) c m h (rw fails refl)))
    ]
  ]

  pub merge_newer-assign :
      (p : Coordinate) (v : Float) (by : String) (t : ℕ) (m : CertaintyMap Float)
      → merge_newer p v by t m ≡ assign p (newest v by t) m
  unfolding merge_newer set_certainty
  merge_newer-assign p v by t m = assign_if p (is_newer t v) (certainty_set v by t) m

  pub greatest_of : CellState Float → CellState Float → CellState Float
  greatest_of c s =
      if lt s.certainty c.certainty
      then certainty_set c.certainty c.updated_by c.last_updated_ms s
      else s

  -- A loop whose steps are assignments, as a sequence of updates.
  pub each-assign_all :
      (step : CellState Float → CertaintyMap Float → Result (CertaintyMap Float))
      (f : CellState Float → CellState Float → CellState Float) (cs : List (CellState Float))
      (m : CertaintyMap Float)
      → ((c : CellState Float) (n : CertaintyMap Float) → step c n ≡ assign (coordinate c) (f c) n)
      → each step cs m ≡ assign_all (updates f cs) m
  unfolding each
  each-assign_all step f [] m h = refl
  each-assign_all step f (c ∷ cs) m h =
      ap (λ r. r >>= each step cs) (h c m)
      ∙ ap (λ g. assign (coordinate c) (f c) m >>= g) (fun_ext (λ n. each-assign_all step f cs n h))

  -- A timestamped merge of two well-formed maps of one size does not raise and keeps, of each cell,
  -- the newest observation: of equal times the more certain one, and of equal certainties its own.
  pub merge_timestamped_from-Pointwise :
      (other m : CertaintyMap Float)
      → IsSquare other
      → IsSquare m
      → other.size ≡ m.size
      → (m' : CertaintyMap Float) × (merge_timestamped_from other m ≡ ok m')
        × Pointwise newest_of other m m'
  unfolding merge_timestamped_from merge_timestamped_cell
  merge_timestamped_from-Pointwise other m so sm e =
      let (m', done, p) = assign_cells-Pointwise newest_of other m (λ c s. ground arith) so sm e in
      (
        m',
        each-assign_all _ newest_of (cells other) m (λ c n.
              merge_newer-assign (coordinate c) c.certainty c.updated_by c.last_updated_ms n
              ∙ ap (λ f. assign (coordinate c) f n) (fun_ext (newest-newest_of c)))
            ∙ done,
        p,
      )
