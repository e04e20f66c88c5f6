-- ===== src/Drone/Spread.antt =====
-- `spread_starting_position` of roles/drone.py: peers are spread over the border of the grid.
use entropyhunt.Base.{
  dec_le, inl, inr, leb, if◌then◌else◌, length, get_elem?, All, length-append, tabulate_from,
  tabulate, length-tabulate_from, All-append, All-tabulate_from, All-get_elem?, get_elem?-of_lt,
  ◌==◌, contains, distinct, index_error, Result, ok, or_raise, ℤ, pos, Coordinate, ℕ, suc, ◌+◌, ◌-◌,
  ◌*◌, ◌/◌, ◌%◌, ◌≤◌, ◌<◌, max, String, ◌≡◌, refl, ◌⊎◌, List, [], ◌∷◌, ◌++◌, arith, string_eq,
  nat_eq, pair_eq, int_eq,
}
use entropyhunt.Base.Text.{text_lt}
use entropyhunt.Base.Sort.{sorted}

-- The border, once round from the first corner. A descending `range(a, b, -1)` counts from `a` down.
unfoldable pub perimeter : ℕ → List Coordinate
perimeter grid =
    let max_idx = grid - 1 in
    tabulate grid (λ x. (pos x, pos 0))
    ++ (tabulate_from 1 (grid - 1) (λ y. (pos max_idx, pos y))
        ++ (tabulate max_idx (λ i. (pos (max_idx - 1 - i), pos max_idx))
            ++ tabulate (max_idx - 1) (λ i. (pos 0, pos (max_idx - 1 - i)))))

-- `ordered_ids.index(drone_id)`, and 0 where that raises.
unfoldable pub index_or_zero : String → List String → ℕ
index_or_zero a [] = 0
index_or_zero a (x ∷ xs) =
    if x == a then 0 else if contains xs a then suc (index_or_zero a xs) else 0

unfoldable pub spread_starting_position : String → List String → ℕ → Result Coordinate
unfolding perimeter index_or_zero
spread_starting_position drone_id peer_ids grid =
    let known : List String = elim peer_ids [ [] ↦ drone_id ∷ [] | x ∷ xs ↦ x ∷ xs ] in
    let ordered_ids = sorted text_lt (distinct known) in
    let border = perimeter grid in
    let step = max 1 (length border / max 1 (length ordered_ids)) in
    let slot = (index_or_zero drone_id ordered_ids * step) % length border in
    if leb grid 1 then ok (pos 0, pos 0) else or_raise (get_elem? border slot) index_error

-- A cell of the grid with a neighbour outside of it.
abbrev pub OnBorder : ℕ → Coordinate → Type 0
OnBorder grid c =
    (x : ℕ) × (y : ℕ) × (c ≡ (pos x, pos y))
    × (x < grid)
    × (y < grid)
    × ((x ≡ 0) ⊎ (y ≡ 0) ⊎ (x ≡ grid - 1) ⊎ (y ≡ grid - 1))

-- The border of a grid with at least two rows has four sides of one cell less.
abbrev at : ℤ → ℤ → Coordinate
at x y = (x, y)

length-perimeter : (grid : ℕ) → 2 ≤ grid → length (perimeter grid) + 4 ≡ 4 * grid
unfolding perimeter
length-perimeter grid h =
    let m = grid - 1 in
    let top : List Coordinate = tabulate grid (λ x. (pos x, pos 0)) in
    let right : List Coordinate = tabulate_from 1 m (λ y. (pos m, pos y)) in
    let bottom : List Coordinate = tabulate m (λ i. (pos (m - 1 - i), pos m)) in
    let left : List Coordinate = tabulate (m - 1) (λ i. (pos 0, pos (m - 1 - i))) in
    omega (
      arith,
      length-append top (right ++ (bottom ++ left)),
      length-append right (bottom ++ left),
      length-append bottom left,
      length-tabulate_from 0 grid (λ x. at (pos x) (pos 0)),
      length-tabulate_from 1 m (λ y. at (pos m) (pos y)),
      length-tabulate_from 0 m (λ i. at (pos (m - 1 - i)) (pos m)),
      length-tabulate_from 0 (m - 1) (λ i. at (pos 0) (pos (m - 1 - i))),
    )

border :
    (grid x y : ℕ)
    → x < grid
    → y < grid
    → ((x ≡ 0) ⊎ (y ≡ 0) ⊎ (x ≡ grid - 1) ⊎ (y ≡ grid - 1))
    → OnBorder grid (pos x, pos y)
border grid x y h k side = (x, y, refl, h, k, side)

perimeter-OnBorder : (grid : ℕ) → 2 ≤ grid → All (OnBorder grid) (perimeter grid)
unfolding perimeter
perimeter-OnBorder grid h =
    let m = grid - 1 in
    All-append _ _ _
      (All-tabulate_from _ 0 grid _
        (λ i low high. border grid i 0 (omega arith) (omega arith) (omega arith)))
      (All-append _ _ _
        (All-tabulate_from _ 1 m _
          (λ i low high. border grid m i (omega arith) (omega arith) (omega arith)))
        (All-append _ _ _
          (All-tabulate_from _ 0 m _
            (λ i low high. border grid (m - 1 - i) m (omega arith) (omega arith) (omega arith)))
          (All-tabulate_from _ 0 (m - 1) _
            (λ i low high. border grid 0 (m - 1 - i) (omega arith) (omega arith) (omega arith)))))

spread_on_rows :
    (drone_id : String) (peer_ids : List String) (grid : ℕ)
    → 2 ≤ grid
    → (c : Coordinate) × (spread_starting_position drone_id peer_ids grid ≡ ok c) × OnBorder grid c
unfolding spread_starting_position
spread_on_rows drone_id peer_ids grid h =
    let known : List String = elim peer_ids [ [] ↦ drone_id ∷ [] | x ∷ xs ↦ x ∷ xs ] in
    let ordered_ids = sorted text_lt (distinct known) in
    let border = perimeter grid in
    let step = max 1 (length border / max 1 (length ordered_ids)) in
    let slot = (index_or_zero drone_id ordered_ids * step) % length border in
    let (c, found) = get_elem?-of_lt border slot (grind (arith, length-perimeter grid h)) in
    (c, ground (arith, found), All-get_elem? _ border slot c (perimeter-OnBorder grid h) found)

-- Every drone gets a start: on a grid of at least two rows a border cell of the grid, and on a
-- smaller one the coordinate (0, 0).
pub spread-OnBorder :
    (drone_id : String) (peer_ids : List String) (grid : ℕ)
    → (c : Coordinate) × (spread_starting_position drone_id peer_ids grid ≡ ok c)
      × (((2 ≤ grid) × OnBorder grid c) ⊎ ((grid ≤ 1) × (c ≡ (pos 0, pos 0))))
unfolding spread_starting_position
spread-OnBorder drone_id peer_ids grid = elim (dec_le 2 grid) [
  | yes rows ↦
      let (c, e, border) = spread_on_rows drone_id peer_ids grid rows in (c, e, inl (rows, border))
  | no small ↦ ((pos 0, pos 0), ground arith, inr (omega arith, refl))
]
