-- ===== src/Partition/Grouping.antt =====
-- The cells of each drone, the grid that they make up, and the cells at the borders: `partition_grid`,
-- `_grid_from_partitions` and `boundary_cells` of auction/voronoi.py.
use entropyhunt.Base.{
  or_raise, map_ok, flatten, tabulate, if◌then◌else◌, length, any, ltb, ◌==◌, value_error,
  index_error, Result, ok, raise, ◌>>=◌, each, pos, negsuc, ℤ, Coordinate, ℕ, suc, ◌+◌, ◌-◌, String,
  Bool, true, false, not, Option, none, some, List, [], ◌∷◌, ◌++◌, map, string_eq, nat_eq,
}
use entropyhunt.Base.Dict.{Dict, keys}
use entropyhunt.Base.Order.{by_key, lex}
use entropyhunt.Base.Sort.{sorted}
use entropyhunt.Base.Text.{text_lt}
use entropyhunt.Certainty.{grid_get, grid_set}
use entropyhunt.Partition.{PartitionSeed, blank, ownership_grid}

pub record PartitionOwner : Type 0 where
  pub drone_id : String
  pub cells : List Coordinate

abbrev pub Groups : Type 0
Groups = Dict String (List Coordinate)

-- `grouped.setdefault(owner, []).append(cell)`
unfoldable pub append_to : String → Coordinate → Groups → Groups
append_to owner cell [] = (owner, cell ∷ []) ∷ []
append_to owner cell ((drone_id, cells) ∷ groups) =
    if drone_id == owner
    then (drone_id, cells ++ (cell ∷ [])) ∷ groups
    else (drone_id, cells) ∷ append_to owner cell groups

-- `for x, owner in enumerate(row)`
unfoldable pub group_row : ℕ → ℕ → List (Option String) → Groups → Groups
group_row y x [] groups = groups
group_row y x (none ∷ row) groups = group_row y (suc x) row groups
group_row y x (some owner ∷ row) groups =
    group_row y (suc x) row (append_to owner (pos x, pos y) groups)

-- `for y, row in enumerate(owners)`
unfoldable pub group_rows : ℕ → List (List (Option String)) → Groups → Groups
group_rows y [] groups = groups
group_rows y (row ∷ rows) groups = group_rows (suc y) rows (group_row y 0 row groups)

abbrev pub seeds_of : Dict String Coordinate → List PartitionSeed
seeds_of = map λ p. record { drone_id = p.0; position = p.1 }

abbrev pub owner_of_group : String × List Coordinate → PartitionOwner
owner_of_group (drone_id, cells) = record { drone_id = drone_id; cells = cells }

abbrev pub empty_groups : Dict String Coordinate → Groups
empty_groups drone_positions =
    map (λ drone_id. (drone_id, [])) (sorted text_lt (keys drone_positions))

unfoldable pub partition_grid : ℕ → Dict String Coordinate → Result (List PartitionOwner)
partition_grid size drone_positions = ownership_grid size (seeds_of drone_positions) >>= λ owners.
    ok (map owner_of_group (group_rows 0 owners (empty_groups drone_positions)))

-- A list index of Python, which counts from the end where it is negative.
abbrev pub index_in : ℕ → ℤ → Option ℕ
index_in size (pos n) = if ltb n size then some n else none
index_in size (negsuc n) = if ltb n size then some (size - (n + 1)) else none

-- `owners[y][x] = drone_id`
unfoldable pub put_owner :
    ℕ → String → Coordinate → List (List (Option String)) → Result (List (List (Option String)))
put_owner size drone_id (x, y) owners = elim (index_in size x) [
  | none ↦ raise index_error
  | some i ↦ elim (index_in size y) [
    | none ↦ raise index_error
    | some j ↦ ok (grid_set owners i j (some drone_id))
  ]
]

abbrev pub put_partition :
    ℕ → PartitionOwner → List (List (Option String)) → Result (List (List (Option String)))
put_partition size partition = each (put_owner size partition.drone_id) partition.cells

unfoldable pub grid_from_partitions : ℕ → List PartitionOwner → Result (List (List (Option String)))
grid_from_partitions size partitions = each (put_partition size) partitions (blank size)

-- `list | tuple`
pub data Source : Type 0 where
  grid : List (List (Option String)) → Source
  partitions : List PartitionOwner → Source

abbrev pub same_owner : Option String → Option String → Bool
same_owner none none = true
same_owner (some owner) (some owner') = owner == owner'
same_owner _ _ = false

abbrev pub Owners : Type 0
Owners = List (List (Option String))

abbrev pub owner_at : Owners → ℕ → ℕ → Result (Option String)
owner_at owners x y = or_raise (grid_get owners x y) index_error

-- A neighbour within the bounds.
abbrev pub neighbor_if : Bool → Owners → ℕ → ℕ → Result (List (Option String))
neighbor_if within owners x y =
    if within then map_ok (λ owner. owner ∷ []) (owner_at owners x y) else ok []

abbrev pub neighbors_of : ℕ → ℕ → Owners → ℕ → ℕ → Result (List (Option String))
neighbors_of width height owners x y = neighbor_if (ltb 0 x) owners (x - 1) y >>= λ left.
    neighbor_if (ltb (x + 1) width) owners (x + 1) y >>= λ right.
    neighbor_if (ltb 0 y) owners x (y - 1) >>= λ above.
    neighbor_if (ltb (y + 1) height) owners x (y + 1) >>= λ below.
    ok (left ++ right ++ above ++ below)

-- A cell with a neighbour of another owner is added.
unfoldable pub note_boundary : ℕ → ℕ → Owners → ℕ × ℕ → List (ℕ × ℕ) → Result (List (ℕ × ℕ))
note_boundary width height owners (x, y) boundaries = owner_at owners x y >>= λ owner.
    neighbors_of width height owners x y >>= λ neighbors. ok (
      if any (λ neighbor. not (same_owner neighbor owner)) neighbors
      then (x, y) ∷ boundaries
      else boundaries)

abbrev pub width_of : Owners → ℕ
width_of [] = 0
width_of (row ∷ rows) = length row

abbrev pub place_lt : ℕ × ℕ → ℕ × ℕ → Bool
place_lt = lex (by_key ltb (λ p. p.0)) (by_key ltb (λ p. p.1))

unfoldable pub boundaries_of : Owners → Result (List Coordinate)
boundaries_of owners =
    let height = length owners in
    let width = width_of owners in
    each (note_boundary width height owners)
      (flatten (tabulate height λ y. tabulate width λ x. (x, y))) []
    >>= λ boundaries. ok (map (λ p. (pos p.0, pos p.1)) (sorted place_lt boundaries))

unfoldable pub boundary_cells : Source → Option ℕ → Result (List Coordinate)
boundary_cells (grid owners) size = boundaries_of owners
boundary_cells (partitions []) size = ok []
boundary_cells (partitions (p ∷ ps)) none = raise value_error
boundary_cells (partitions (p ∷ ps)) (some size) =
    grid_from_partitions size (p ∷ ps) >>= boundaries_of
