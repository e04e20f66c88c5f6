-- ===== src/Partition/Grouped.antt =====
-- What the grouping of `partition_grid` in auction/voronoi.py collects: the cells of each drone, and every cell
-- that has an owner.
use entropyhunt.Base.{
  Among, Among-append, Among-last, Bool-cases, length, get_elem?, get_elem?-lt_length, All,
  All-append, All-get_elem?, ◌==◌, pos, Coordinate, ℕ, suc, ◌+◌, ◌<◌, String, ◌≡◌, refl, subst, ◌⊎◌,
  inl, inr, Option, none, some, List, [], ◌∷◌, arith, string_eq, nat_eq,
}
use entropyhunt.Certainty.{grid_get}
use entropyhunt.Partition.Sums.{IsSquare}
use entropyhunt.Partition.Places.{at_index}
use entropyhunt.Partition.Grouping.{Groups, append_to, group_row, group_rows, Owners}

module _ (size : ℕ) (owners : Owners) where
  -- The cell is the drone's.
  pub record Fits (drone_id : String) (cell : Coordinate) : Type 0 where
    pub x : ℕ
    pub y : ℕ
    pub at : cell ≡ (pos x, pos y)
    pub in_x : x < size
    pub in_y : y < size
    pub owned : grid_get owners x y ≡ some (some drone_id)

  abbrev pub AllFit : Groups → Type 0
  AllFit = All λ group. All (Fits group.0) group.1

  -- The cell is in some group.
  abbrev pub Somewhere : Coordinate → Groups → Type 0
  Somewhere cell [] = ⊥
  Somewhere cell (group ∷ groups) = Among cell group.1 ⊎ Somewhere cell groups

  pub record Grows (groups groups' : Groups) : Type 0 where
    pub fits : AllFit groups → AllFit groups'
    pub keeps : (cell : Coordinate) → Somewhere cell groups → Somewhere cell groups'

  append_to-Fits :
      (owner : String) (cell : Coordinate) (groups : Groups)
      → Fits owner cell
      → AllFit groups
      → AllFit (append_to owner cell groups)
  unfolding append_to
  append_to-Fits owner cell [] f h = ((f, tt), tt)
  append_to-Fits owner cell ((drone_id, cells) ∷ groups) f h =
      elim (Bool-cases (drone_id == owner)) [
        | inl hit ↦
            let same : owner ≡ drone_id = ground arith in
            rw hit (All-append _ cells (cell ∷ []) h.0 (subst (λ i. Fits i cell) same f, tt), h.1)
        | inr miss ↦ rw miss (h.0, append_to-Fits owner cell groups f h.1)
      ]

  append_to-keeps :
      (owner : String) (cell : Coordinate) (groups : Groups) (c : Coordinate)
      → Somewhere c groups
      → Somewhere c (append_to owner cell groups)
  unfolding append_to
  append_to-keeps owner cell [] c h = elim h [ ]
  append_to-keeps owner cell ((drone_id, cells) ∷ groups) c h =
      elim (Bool-cases (drone_id == owner)) [
        | inl hit ↦ rw hit (elim h [
          | inl here ↦ inl (Among-append c cells (cell ∷ []) here)
          | inr later ↦ inr later
        ])
        | inr miss ↦ rw miss (elim h [
          | inl here ↦ inl here
          | inr later ↦ inr (append_to-keeps owner cell groups c later)
        ])
      ]

  append_to-adds :
      (owner : String) (cell : Coordinate) (groups : Groups)
      → Somewhere cell (append_to owner cell groups)
  unfolding append_to
  append_to-adds owner cell [] = inl (inl refl)
  append_to-adds owner cell ((drone_id, cells) ∷ groups) = elim (Bool-cases (drone_id == owner)) [
    | inl hit ↦ rw hit (inl (Among-last cell cells))
    | inr miss ↦ rw miss (inr (append_to-adds owner cell groups))
  ]

  -- The rest of a row, from its column `x` on.
  abbrev RowFrom : ℕ → ℕ → List (Option String) → Type 0
  RowFrom y x row =
      (i j : ℕ) (owner : Option String)
      → j ≡ x + i
      → get_elem? row i ≡ some owner
      → (j < size) × (grid_get owners j y ≡ some owner)

  -- Where the element with an owner is placed by a loop that starts at `x`.
  abbrev Placed : ℕ → ℕ → Groups → ℕ → Option String → Type 0
  Placed y x groups i owner =
      (j : ℕ) (drone_id : String)
      → j ≡ x + i
      → owner ≡ some drone_id
      → Somewhere (pos j, pos y) groups

  group_row-Grows :
      (y x : ℕ) (row : List (Option String)) (groups : Groups)
      → y < size
      → RowFrom y x row
      → Grows groups (group_row y x row groups)
        × ((i : ℕ) (owner : Option String)
            → get_elem? row i ≡ some owner
            → Placed y x (group_row y x row groups) i owner)
  unfolding group_row
  group_row-Grows y x [] groups in_y at =
      (record { fits = λ h. h; keeps = λ c h. h }, λ i owner h. cc)
  group_row-Grows y x (none ∷ row) groups in_y at =
      let (grows, found) =
        group_row-Grows y (suc x) row groups in_y
          (λ i j o e h. at (suc i) j o (omega (arith, e)) h) in
      (
        grows,
        at_index (Placed y x (group_row y (suc x) row groups)) none row (λ j drone_id e h. cc (h))
            (λ i o h j drone_id e p. found i o h j drone_id (omega (arith, e)) p),
      )
  group_row-Grows y x (some owner ∷ row) groups in_y at =
      let cell : Coordinate = (pos x, pos y) in
      let (grows, found) =
        group_row-Grows y (suc x) row (append_to owner cell groups) in_y
          (λ i j o e h. at (suc i) j o (omega (arith, e)) h) in
      let (in_x, owned) = at 0 x (some owner) (omega arith) refl in
      (
        record {
          fits = λ h. grows.fits (
              append_to-Fits owner cell groups
                (record { x = x; y = y; at = refl; in_x = in_x; in_y = in_y; owned = owned }) h);
          keeps = λ c h. grows.keeps c (append_to-keeps owner cell groups c h);
        },
        at_index (Placed y x (group_row y (suc x) row (append_to owner cell groups))) (some owner)
            row
            (λ j drone_id e h.
              subst
                (λ j.
                  Somewhere (pos j, pos y) (group_row y (suc x) row (append_to owner cell groups)))
                (omega (arith, e)) (grows.keeps cell (append_to-adds owner cell groups)))
            (λ i o h j drone_id e p. found i o h j drone_id (omega (arith, e)) p),
      )

  -- The rest of the rows, from row `y` on.
  abbrev RowsFrom : ℕ → Owners → Type 0
  RowsFrom y rows =
      (i j : ℕ) (row : List (Option String))
      → j ≡ y + i
      → get_elem? rows i ≡ some row
      → get_elem? owners j ≡ some row

  abbrev RowPlaced : ℕ → Groups → ℕ → List (Option String) → Type 0
  RowPlaced y groups i row =
      (j x : ℕ) (drone_id : String)
      → j ≡ y + i
      → get_elem? row x ≡ some (some drone_id)
      → Somewhere (pos x, pos j) groups

  pub group_rows-Grows :
      (y : ℕ) (rows : Owners) (groups : Groups)
      → IsSquare size owners
      → RowsFrom y rows
      → Grows groups (group_rows y rows groups)
        × ((i : ℕ) (row : List (Option String))
            → get_elem? rows i ≡ some row
            → RowPlaced y (group_rows y rows groups) i row)
  unfolding group_rows
  group_rows-Grows y [] groups square at =
      (record { fits = λ h. h; keeps = λ c h. h }, λ i row h. cc)
  group_rows-Grows y (row ∷ rows) groups square at =
      let here : get_elem? owners y ≡ some row = at 0 y row (omega arith) refl in
      let in_y : y < size = subst (λ n. y < n) square.0 (get_elem?-lt_length owners y row here) in
      let wide : length row ≡ size =
        All-get_elem? (λ row. length row ≡ size) owners y row square.1 here in
      let (first, placed) = group_row-Grows y 0 row groups in_y (λ i j o e h.
        let same : i ≡ j = omega (arith, e) in
        (
          omega (arith, same, wide, get_elem?-lt_length row i o h),
          rw (here, grid_get) (subst (λ i. get_elem? row i ≡ some o) same h),
        )) in
      let (rest, found) =
        group_rows-Grows (suc y) rows (group_row y 0 row groups) square
          (λ i j r e h. at (suc i) j r (omega (arith, e)) h) in
      (
        record {
          fits = λ h. rest.fits (first.fits h);
          keeps = λ c h. rest.keeps c (first.keeps c h);
        },
        at_index (RowPlaced y (group_rows (suc y) rows (group_row y 0 row groups))) row rows
            (λ j x drone_id e h.
              subst
                (λ j. Somewhere (pos x, pos j) (group_rows (suc y) rows (group_row y 0 row groups)))
                (omega (arith, e))
                (rest.keeps (pos x, pos y)
                  (placed x (some drone_id) h x drone_id (omega arith) refl)))
            (λ i r h j x drone_id e p. found i r h j x drone_id (omega (arith, e)) p),
      )
