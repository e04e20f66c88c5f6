-- ===== src/Tests/Zones.antt =====
-- A grid of three rows with two drones: auction/voronoi.py.
use entropyhunt.Base.{
  none, Among, ◌↔◌, arith, each, flatten, string_discrete, ℕ_discrete, ok, ◌>>=◌, pos, negsuc,
  Coordinate, String, ◌≡◌, refl, Option, some, List, [], ◌∷◌, string_eq, nat_eq,
}
use entropyhunt.Base.Int.{◌+ℤ◌}
use entropyhunt.Base.Sort.{sorted, insert_sorted}
use entropyhunt.Base.Dict.{Dict}
use entropyhunt.Certainty.{grid_get}
use entropyhunt.Partition.{inside, claim_place, plant, spread, visit, flood, ownership_grid}
use entropyhunt.Partition.Owners.{ownership_grid-IsOwned}
use entropyhunt.Partition.Whole.{IsOwned}
use entropyhunt.Partition.Grouping.{
  grid, append_to, group_row, group_rows, put_owner, note_boundary, boundaries_of, seeds_of,
  partition_grid, grid_from_partitions, partitions, boundary_cells,
}
use entropyhunt.Partition.Borders.{boundary_cells-AreBorders}
use entropyhunt.Partition.Elements.{IsBorder}
use entropyhunt.Partition.Roundtrip.{partition_grid-roundtrip}

abbrev two_drones : Dict String Coordinate
two_drones = ("b", (pos 2, pos 2)) ∷ ("a", (pos 0, pos 0)) ∷ ("out", (negsuc 0, pos 1)) ∷ []

-- The cells at equal distances go to the drone whose id comes first.
owners_of_two :
    ownership_grid 3 (seeds_of two_drones)
    ≡ ok (
        (some "a" ∷ some "a" ∷ some "a" ∷ [])
        ∷ (some "a" ∷ some "a" ∷ some "b" ∷ [])
        ∷ (some "a" ∷ some "b" ∷ some "b" ∷ [])
        ∷ [])
unfolding ownership_grid flood sorted plant claim_place inside visit ℕ_discrete spread ◌+ℤ◌
owners_of_two = refl

borders_of_two :
    (partition_grid 3 two_drones >>= λ ps. boundary_cells (partitions ps) (some 3))
    ≡ ok ((pos 0, pos 2) ∷ (pos 1, pos 1) ∷ (pos 1, pos 2) ∷ (pos 2, pos 0) ∷ (pos 2, pos 1) ∷ [])
unfolding ownership_grid flood sorted plant claim_place inside visit ℕ_discrete spread ◌+ℤ◌
    partition_grid boundary_cells group_rows group_row append_to string_discrete
    grid_from_partitions each insert_sorted boundaries_of note_boundary put_owner flatten
borders_of_two = refl

ownership_grid-IsOwned_example :
    (owners : List (List (Option String))) × (ownership_grid 3 (seeds_of two_drones) ≡ ok owners)
    × (owner : Option String) × (grid_get owners 1 2 ≡ some owner)
    × IsOwned 3 (seeds_of two_drones) 1 2 owner
ownership_grid-IsOwned_example =
    ownership_grid-IsOwned 3 (seeds_of two_drones) 1 2 (omega arith) (omega arith)

partition_grid-roundtrip_example :
    (owners : List (List (Option String))) × (ownership_grid 3 (seeds_of two_drones) ≡ ok owners)
    × ((partition_grid 3 two_drones >>= grid_from_partitions 3) ≡ ok owners)
partition_grid-roundtrip_example = partition_grid-roundtrip 3 two_drones

abbrev halves : List (List (Option String))
halves = (some "a" ∷ some "b" ∷ []) ∷ (some "a" ∷ none ∷ []) ∷ []

boundary_cells-AreBorders_example :
    (found : List Coordinate) × (boundary_cells (grid halves) none ≡ ok found)
    × (Among (pos 1, pos 0) found ↔ IsBorder 2 halves 1 0)
boundary_cells-AreBorders_example =
    boundary_cells-AreBorders 2 halves none 1 0 (refl, ((refl, (refl, tt)))) (omega arith)
      (omega arith)
