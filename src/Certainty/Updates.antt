-- ===== src/Certainty/Updates.antt =====
-- Sequences of updates of cells, as the loops of core/certainty.py make them, read cell by cell.
use mathlib.Core.List.{map-append}
use entropyhunt.Base.{
  if◌then◌else◌, get_elem?, ◌==◌, pos, Coordinate, ℕ, zero, suc, ◌+◌, ◌<◌, ◌≡◌, refl, ap, ◌∙◌, ◌≢◌,
  ◌⊎◌, inl, inr, some, List, [], ◌∷◌, ◌++◌, map, flatten, arith, string_eq, nat_eq, pair_eq, int_eq,
}
use entropyhunt.Certainty.{CellState, coordinate, grid_get}
use entropyhunt.Certainty.Square.{RowAt, RowsAt}

abbrev pub Update : Type 0 → Type 0
Update F = Coordinate × (CellState F → CellState F)

module _ {F : Type 0} where
  -- What a sequence of updates does to the cell at `q`.
  abbrev pub updated : List (Update F) → Coordinate → CellState F → CellState F
  updated [] q s = s
  updated (u ∷ us) q s = updated us q (if u.0 == q then u.1 s else s)

  -- `for c in other: …`, where `f c` is what happens to the cell at the coordinate of `c`.
  abbrev pub updates :
      (CellState F → CellState F → CellState F) → List (CellState F) → List (Update F)
  updates f cs = map (λ c. (coordinate c, f c)) cs

  updated-append :
      (us vs : List (Update F)) (q : Coordinate) (s : CellState F)
      → updated (us ++ vs) q s ≡ updated vs q (updated us q s)
  updated-append [] vs q s = refl
  updated-append (u ∷ us) vs q s = updated-append us vs q (if u.0 == q then u.1 s else s)

  updates-append :
      (f : CellState F → CellState F → CellState F) (xs ys : List (CellState F))
      → updates f (xs ++ ys) ≡ updates f xs ++ updates f ys
  updates-append f xs ys = map-append _ xs ys

  updated_miss :
      (u : Update F) (us : List (Update F)) (q : Coordinate) (s : CellState F)
      → u.0 ≢ q
      → updated (u ∷ us) q s ≡ updated us q s
  updated_miss u us q s d = ap (λ t. updated us q t) (ground arith)

  updated_hit :
      (u : Update F) (us : List (Update F)) (q : Coordinate) (s : CellState F)
      → u.0 ≡ q
      → updated (u ∷ us) q s ≡ updated us q (u.1 s)
  updated_hit u us q s e = ap (λ t. updated us q t) (ground arith)

  module _ (f : CellState F → CellState F → CellState F) where
    updated-row_other :
        (y x X Y : ℕ) (row : List (CellState F)) (s : CellState F)
        → RowAt y x row
        → (Y ≢ y) ⊎ (X < x)
        → updated (updates f row) (pos X, pos Y) s ≡ s
    updated-row_other y x X Y [] s r h = refl
    updated-row_other y x X Y (c ∷ row) s r h =
        updated_miss (coordinate c, f c) (updates f row) (pos X, pos Y) s (λ e. ground arith)
        ∙ updated-row_other y (suc x) X Y row s r.2 (ground arith)

    updated-row :
        (y x i X Y : ℕ) (row : List (CellState F)) (c s : CellState F)
        → RowAt y x row
        → get_elem? row i ≡ some c
        → X ≡ x + i
        → Y ≡ y
        → updated (updates f row) (pos X, pos Y) s ≡ f c s
    updated-row y x i X Y [] c s r h p q = cc
    updated-row y x zero X Y (d ∷ row) c s r h p q =
        updated_hit (coordinate d, f d) (updates f row) (pos X, pos Y) s (ground (arith, r.0, r.1))
        ∙ updated-row_other y (suc x) X Y row (f d s) r.2 (inr (omega arith))
        ∙ ap (λ e. f e s) (ground arith)
    updated-row y x (suc i) X Y (d ∷ row) c s r h p q =
        updated_miss (coordinate d, f d) (updates f row) (pos X, pos Y) s (λ e. ground (arith, r.0))
        ∙ updated-row y (suc x) i X Y row c s r.2 h (omega arith) q

    updated-rows_other :
        (n y X Y : ℕ) (rows : List (List (CellState F))) (s : CellState F)
        → RowsAt n y rows
        → Y < y
        → updated (updates f (flatten rows)) (pos X, pos Y) s ≡ s
    unfolding flatten
    updated-rows_other n y X Y [] s r h = refl
    updated-rows_other n y X Y (row ∷ rows) s r h = rw (updates-append f row (flatten rows)) (
        updated-append (updates f row) (updates f (flatten rows)) (pos X, pos Y) s
        ∙ ap (λ t. updated (updates f (flatten rows)) (pos X, pos Y) t)
            (updated-row_other y 0 X Y row s r.0 (inl (omega arith)))
        ∙ updated-rows_other n (suc y) X Y rows s r.2 (omega arith))

    pub updated-rows :
        (n y j X Y : ℕ) (rows : List (List (CellState F))) (c s : CellState F)
        → RowsAt n y rows
        → grid_get rows X j ≡ some c
        → Y ≡ y + j
        → updated (updates f (flatten rows)) (pos X, pos Y) s ≡ f c s
    unfolding flatten
    updated-rows n y j X Y [] c s r h q = cc
    updated-rows n y zero X Y (row ∷ rows) c s r h q = rw (updates-append f row (flatten rows)) (
        updated-append (updates f row) (updates f (flatten rows)) (pos X, pos Y) s
        ∙ updated-rows_other n (suc y) X Y rows _ r.2 (omega arith)
        ∙ updated-row y 0 X X Y row c s r.0 h (omega arith) (omega arith))
    updated-rows n y (suc j) X Y (row ∷ rows) c s r h q = rw (updates-append f row (flatten rows)) (
        updated-append (updates f row) (updates f (flatten rows)) (pos X, pos Y) s
        ∙ ap (λ t. updated (updates f (flatten rows)) (pos X, pos Y) t)
            (updated-row_other y 0 X Y row s r.0 (inl (omega arith)))
        ∙ updated-rows n (suc y) j X Y rows c s r.2 h (omega arith))
