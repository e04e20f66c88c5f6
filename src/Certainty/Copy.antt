-- ===== src/Certainty/Copy.antt =====
-- New maps, copies and decay in core/certainty.py, read cell by cell.
use entropyhunt.Base.{
  if◌then◌else◌, tabulate_from, tabulate, length-tabulate_from, contains, ok, pos, Coordinate, ℕ,
  zero, suc, ◌≡◌, refl, sym, ap, ◌∙◌, List, arith, string_eq, nat_eq, pair_eq, int_eq,
}
use entropyhunt.Base.Numeric.{Floats}
use entropyhunt.Certainty.{
  CellState, coordinate, CertaintyMap, cells, clamp_certainty, new_map, cell, certainty_set,
  clone_cell, clone, reset_cell, reset_from,
}
use entropyhunt.Certainty.Square.{RowAt, RowsAt, IsSquare, cell-coordinate, same_range}
use entropyhunt.Certainty.Loops.{Pointwise, assign_cells-Pointwise}
use entropyhunt.Certainty.Merge.{each-assign_all}

module _ ⦃fl : Floats⦄ where
  open fl use {Float, zero_f, one, sub_f, mul_f}

  abbrev fresh : Float → Float → ℕ → ℕ → ℕ → CellState Float
  fresh v d t y x = record {
    x = x;
    y = y;
    certainty = clamp_certainty v;
    last_updated_ms = t;
    updated_by = "bootstrap";
    decay_rate = d;
  }

  RowAt-fresh : (v d : Float) (t y s n : ℕ) → RowAt y s (tabulate_from s n (fresh v d t y))
  RowAt-fresh v d t y s zero = tt
  RowAt-fresh v d t y s (suc n) = (refl, refl, RowAt-fresh v d t y (suc s) n)

  RowsAt-fresh :
      (v d : Float) (t n s k : ℕ) → RowsAt n s (tabulate_from s k (λ y. tabulate n (fresh v d t y)))
  RowsAt-fresh v d t n s zero = tt
  RowsAt-fresh v d t n s (suc k) = (
    RowAt-fresh v d t s 0 n,
    length-tabulate_from 0 n (fresh v d t s),
    RowsAt-fresh v d t n (suc s) k,
  )

  -- A new map is well-formed.
  pub new_map-IsSquare : (n : ℕ) (v d : Float) (t : ℕ) → IsSquare (new_map n v d t)
  unfolding new_map
  new_map-IsSquare n v d t =
      (RowsAt-fresh v d t n 0 n, length-tabulate_from 0 n (λ y. tabulate n (fresh v d t y)))

  abbrev copied : CellState Float → CellState Float → CellState Float
  copied c t = record t {
    certainty = c.certainty;
    updated_by = c.updated_by;
    last_updated_ms = c.last_updated_ms;
    decay_rate = c.decay_rate;
  }

  copied-same : (c t : CellState Float) → coordinate c ≡ coordinate t → copied c t ≡ c
  copied-same c t e = ground arith

  -- A clone of a well-formed map is a well-formed map of the same size with, at every coordinate,
  -- an equal cell.
  pub clone_lem :
      (m : CertaintyMap Float)
      → IsSquare m
      → (m' : CertaintyMap Float) × (clone m ≡ ok m')
        × IsSquare m'
        × (m'.size ≡ m.size)
        × ((q : Coordinate) (c : CellState Float) → cell q m ≡ ok c → cell q m' ≡ ok c)
  unfolding clone clone_cell
  clone_lem m sm =
      let empty = new_map m.size zero_f m.decay_rate 0 in
      let se = new_map-IsSquare m.size zero_f m.decay_rate 0 in
      let size_eq : empty.size ≡ m.size = unfold new_map in refl in
      let (m', done, p) =
        assign_cells-Pointwise copied m empty (λ c t. (refl, refl)) sm se (sym size_eq) in
      (
        m',
        each-assign_all clone_cell copied (cells m) empty (λ c n. refl) ∙ done,
        p.square,
        p.same_size ∙ size_eq,
        λ q c h.
            let (t, got) = same_range q empty m c se sm size_eq h in
            let at_m = cell-coordinate q m c sm h in
            let at_t = cell-coordinate q empty t se got in
            p.reads q c t h got ∙ ap ok (copied-same c t (at_m ∙ sym at_t)),
      )

  abbrev pub reset : CellState Float → CellState Float → CellState Float
  reset c t = record t {
    certainty = clamp_certainty c.certainty;
    last_updated_ms = c.last_updated_ms;
    updated_by = c.updated_by;
    decay_rate = c.decay_rate;
  }

  -- A reset from a well-formed map of the same size does not raise, and each cell takes the time,
  -- the author, the rate and the clamped certainty of the source.
  pub reset_from-Pointwise :
      (source m : CertaintyMap Float)
      → IsSquare source
      → IsSquare m
      → source.size ≡ m.size
      → (m' : CertaintyMap Float) × (reset_from source m ≡ ok m') × Pointwise reset source m m'
  unfolding reset_from reset_cell
  reset_from-Pointwise source m so sm e =
      let (m', done, p) = assign_cells-Pointwise reset source m (λ c t. (refl, refl)) so sm e in
      (m', each-assign_all reset_cell reset (cells source) m (λ c n. refl) ∙ done, p)

  -- The certainty of a cell after `seconds` of decay, unless its coordinate is skipped.
  pub decayed : Float → ℕ → List Coordinate → CellState Float → CellState Float
  decayed seconds now skipped c =
      if contains skipped (coordinate c)
      then c
      else certainty_set (mul_f c.certainty (sub_f one (mul_f c.decay_rate seconds))) c.updated_by
          now c

  abbrev place : ℕ × ℕ → Coordinate
  place p = (pos p.0, pos p.1)
