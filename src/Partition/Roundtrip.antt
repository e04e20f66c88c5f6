-- ===== src/Partition/Roundtrip.antt =====
-- The grid of the owners is made up again from the cells of each drone: `partition_grid` and
-- `_grid_from_partitions` of auction/voronoi.py.
use entropyhunt.Base.{
  ok, get_elem?, ◌>>=◌, Coordinate, ℕ, String, ◌≡◌, subst, some, List, [], ◌∷◌, map, arith,
  string_eq, nat_eq,
}
use entropyhunt.Base.Dict.{Dict, keys}
use entropyhunt.Base.Sort.{sorted}
use entropyhunt.Base.Text.{text_lt}
use entropyhunt.Partition.{ownership_grid}
use entropyhunt.Partition.Sums.{grid_get-row}
use entropyhunt.Partition.Owners.{ownership_grid-answers}
use entropyhunt.Partition.Grouping.{
  group_rows, seeds_of, empty_groups, partition_grid, grid_from_partitions, Owners,
}
use entropyhunt.Partition.Grouped.{AllFit, group_rows-Grows}
use entropyhunt.Partition.Rebuilding.{rebuilt}

empty_groups-AllFit :
    (size : ℕ) (owners : Owners) (drone_ids : List String)
    → AllFit size owners (map (λ drone_id. (drone_id, [])) drone_ids)
empty_groups-AllFit size owners [] = tt
empty_groups-AllFit size owners (i ∷ is) = (tt, empty_groups-AllFit size owners is)

-- The grid that is made up from the cells of each drone is the grid of the owners that the cells
-- were collected from, for all positions of the drones, also outside of the grid, and neither
-- raises.
pub partition_grid-roundtrip :
    (size : ℕ) (drone_positions : Dict String Coordinate)
    → (owners : Owners) × (ownership_grid size (seeds_of drone_positions) ≡ ok owners)
      × ((partition_grid size drone_positions >>= grid_from_partitions size) ≡ ok owners)
unfolding partition_grid
partition_grid-roundtrip size drone_positions =
    let (owners, e, is) = ownership_grid-answers size (seeds_of drone_positions) in
    let groups = empty_groups drone_positions in
    let (grows, found) =
      group_rows-Grows size owners 0 owners groups is.square
        (λ i j row same h. subst (λ i. get_elem? owners i ≡ some row) (omega (arith, same)) h) in
    (
      owners,
      e,
      rw e (
          rebuilt size owners (group_rows 0 owners groups) is.square
            (grows.fits (empty_groups-AllFit size owners (sorted text_lt (keys drone_positions))))
            (λ x y drone_id h.
              let (row, at_y, at_x) = grid_get-row owners x y (some drone_id) h in
              found y row at_y y x drone_id (omega arith) at_x)),
    )
