-- ===== src/Partition.antt =====
-- The partition of the grid among the drones: auction/voronoi.py. Each cell goes to the drone that a flood from
-- the drones' positions reaches first.
pub mod Sums
pub mod Flood
pub mod Claiming
pub mod Places
pub mod Turns
pub mod Reach
pub mod Whole
pub mod Owners
pub mod Grouping
pub mod Grouped
pub mod Rebuilding
pub mod Roundtrip
pub mod Elements
pub mod Borders
use entropyhunt.Base.{
  if◌then◌else◌, length, get_elem?, tabulate, ltb, ◌==◌, index_error, Result, ok, or_raise, ◌>>=◌,
  ℤ, pos, negsuc, Coordinate, ℕ, zero, suc, ◌+◌, ◌*◌, String, Bool, true, false, ◌&&◌, ◌||◌, Option,
  none, some, List, [], ◌∷◌, ◌++◌, map, nat_eq,
}
use entropyhunt.Base.Int.{◌+ℤ◌}
use entropyhunt.Base.Order.{by_key}
use entropyhunt.Base.Sort.{sorted}
use entropyhunt.Base.Text.{text_lt}
use entropyhunt.Certainty.{grid_get, grid_set}

pub record PartitionSeed : Type 0 where
  pub drone_id : String
  pub position : Coordinate

-- What the three grids of the flood hold of one cell that is claimed: its owner, `claimed_dist` and `claimed_tie`.
pub record Label : Type 0 where
  pub owner : String
  pub dist : ℕ
  pub tie : ℕ

-- An entry of the queue.
pub record Entry : Type 0 where
  pub dist : ℕ
  pub tie : ℕ
  pub x : ℕ
  pub y : ℕ

abbrev pub LabelGrid : Type 0
LabelGrid = List (List (Option Label))

pub record Flooding : Type 0 where
  pub grid : LabelGrid
  pub queue : List Entry

abbrev pub blank {ℓ} : {A : Type ℓ} → ℕ → List (List (Option A))
blank size = tabulate size λ y. tabulate size λ x. none

-- `0 <= x < size and 0 <= y < size`, with the place in the rows.
unfoldable pub inside : ℕ → Coordinate → Option (ℕ × ℕ)
inside size (pos x, pos y) = if ltb x size && ltb y size then some (x, y) else none
inside size (pos x, negsuc y) = none
inside size (negsuc x, y) = none

abbrev pub known : Option (Option Label) → Option Label
known none = none
known (some label) = label

abbrev pub label_at : LabelGrid → ℕ → ℕ → Option Label
label_at grid x y = known (grid_get grid x y)

-- `(d, t) < (d', t')`
abbrev pub key_lt : ℕ → ℕ → ℕ → ℕ → Bool
key_lt d t d' t' = ltb d d' || d == d' && ltb t t'

-- A cell that is not claimed, or claimed with a greater key.
abbrev pub improves : ℕ → ℕ → Option Label → Bool
improves d t none = true
improves d t (some label) = key_lt d t label.dist label.tie

-- A cell is claimed where the key is smaller than the one that it has.
unfoldable pub claim_place : String → ℕ → ℕ → Option (ℕ × ℕ) → Flooding → Flooding
claim_place owner d t none s = s
claim_place owner d t (some (x, y)) s =
    if improves d t (label_at s.grid x y)
    then record {
      grid = grid_set s.grid x y (some (record { owner = owner; dist = d; tie = t }));
      queue = s.queue ++ (record { dist = d; tie = t; x = x; y = y } ∷ []);
    }
    else s

-- `for idx, seed in enumerate(ranked)`
unfoldable pub plant : ℕ → ℕ → List PartitionSeed → Flooding → Flooding
plant size idx [] s = s
plant size idx (seed ∷ seeds) s =
    plant size (suc idx) seeds (claim_place seed.drone_id 0 idx (inside size seed.position) s)

abbrev pub moves : List Coordinate
moves = (pos 0, pos 1) ∷ (pos 0, negsuc 0) ∷ (pos 1, pos 0) ∷ (negsuc 0, pos 0) ∷ []

abbrev pub shifted : Entry → Coordinate → Coordinate
shifted e (dx, dy) = (pos e.x +ℤ dx, pos e.y +ℤ dy)

-- The neighbours are one step further away.
unfoldable pub spread : ℕ → String → Entry → List Coordinate → Flooding → Flooding
spread size owner e [] s = s
spread size owner e (move ∷ ms) s =
    spread size owner e ms (claim_place owner (e.dist + 1) e.tie (inside size (shifted e move)) s)

-- An entry whose cell has got a smaller key since is stale.
abbrev pub is_outdated : Entry → Option Label → Bool
is_outdated e none = true
is_outdated e (some label) = key_lt label.dist label.tie e.dist e.tie

-- One turn of `while queue`, for the entry that was taken from it.
unfoldable pub visit : ℕ → List PartitionSeed → Entry → Flooding → Result Flooding
visit size ranked e s =
    if is_outdated e (label_at s.grid e.x e.y)
    then ok s
    else or_raise (get_elem? ranked e.tie) index_error >>= λ seed.
        ok (spread size seed.drone_id e moves s)

-- `while queue`, for as many turns as the fuel allows.
unfoldable pub flood : ℕ → ℕ → List PartitionSeed → Flooding → Result Flooding
flood zero size ranked s = ok s
flood (suc n) size ranked s = elim s.queue [
  | [] ↦ ok s
  | e ∷ queue ↦ visit size ranked e (record s { queue = queue }) >>= flood n size ranked
]

abbrev pub seed_lt : PartitionSeed → PartitionSeed → Bool
seed_lt = by_key text_lt (λ s. s.drone_id)

-- Enough turns: twice the sum of the greatest keys of all cells.
abbrev pub enough : ℕ → ℕ → ℕ
enough size seeds = 2 * (size * size * (size * size * seeds))

abbrev pub owner_of : Option Label → Option String
owner_of none = none
owner_of (some label) = some label.owner

abbrev pub owners_of_labels : LabelGrid → List (List (Option String))
owners_of_labels grid = map (map owner_of) grid

unfoldable pub ownership_grid : ℕ → List PartitionSeed → Result (List (List (Option String)))
ownership_grid size [] = ok (blank size)
ownership_grid size (seed ∷ seeds) =
    let ranked = sorted seed_lt (seed ∷ seeds) in
    let planted = plant size 0 ranked (record { grid = blank size; queue = [] }) in
    flood (enough size (length ranked)) size ranked planted >>= λ done.
    ok (owners_of_labels done.grid)
