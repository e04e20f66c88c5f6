-- ===== src/Tests/Maps.antt =====
-- Two maps of two rows that drones of different age and certainty have searched: core/certainty.py.
use mathlib.Core.List.{Permᴰ}
use entropyhunt.Base.{
  index_error, ok, raise, ℤ, pos, Coordinate, ℕ, String, ◌≡◌, refl, ◌⊎◌, [], ◌∷◌, arith, string_eq,
  nat_eq, pair_eq, int_eq,
}
use entropyhunt.Certainty.{
  CellState, coordinate, CertaintyMap, cell, clone, reset_from, merge_timestamped_from,
}
use entropyhunt.Certainty.Square.{IsSquare, InRange, cell_total}
use entropyhunt.Certainty.Convergence.{
  observation, IsPeerOf, merge_all, merge_all-perm, IsProbable-of_All,
}
use entropyhunt.Certainty.Loops.{Pointwise}
use entropyhunt.Certainty.Merge.{newest_of, merge_timestamped_from-Pointwise}
use entropyhunt.Certainty.Copy.{clone_lem, reset, reset_from-Pointwise}
use entropyhunt.Tests.Numbers.{thousandths}

abbrev seen_by : String → ℕ → ℕ → ℕ → ℕ → CellState ℤ
seen_by drone x y thousandth time = record {
  x = x;
  y = y;
  certainty = pos thousandth;
  last_updated_ms = time;
  updated_by = drone;
  decay_rate = pos 10;
}

abbrev map_of : CellState ℤ → CellState ℤ → CellState ℤ → CellState ℤ → CertaintyMap ℤ
map_of a b c d = record { size = 2; decay_rate = pos 10; grid = (a ∷ b ∷ []) ∷ (c ∷ d ∷ []) ∷ [] }

abbrev pub left_map : CertaintyMap ℤ
left_map =
    map_of (seen_by "a" 0 0 900 5) (seen_by "a" 1 0 500 1) (seen_by "a" 0 1 300 7)
      (seen_by "a" 1 1 0 0)

abbrev pub right_map : CertaintyMap ℤ
right_map =
    map_of (seen_by "b" 0 0 200 6) (seen_by "b" 1 0 800 1) (seen_by "b" 0 1 1000 2)
      (seen_by "b" 1 1 0 0)

abbrev pub own_map : CertaintyMap ℤ
own_map =
    map_of (seen_by "c" 0 0 100 1) (seen_by "c" 1 0 500 1) (seen_by "c" 0 1 0 0)
      (seen_by "c" 1 1 40 9)

pub own-IsSquare : IsSquare own_map
own-IsSquare = ground arith

pub left-IsSquare : IsSquare left_map
left-IsSquare = ground arith

pub right-IsSquare : IsSquare right_map
right-IsSquare = ground arith

pub left-IsPeerOf : IsPeerOf own_map left_map
left-IsPeerOf = (left-IsSquare, refl, IsProbable-of_All left_map (ground arith))

pub right-IsPeerOf : IsPeerOf own_map right_map
right-IsPeerOf = (right-IsSquare, refl, IsProbable-of_All right_map (ground arith))

-- The order of two peers' maps does not matter.
merge_all-perm_example :
    (m1 : CertaintyMap ℤ) × (m2 : CertaintyMap ℤ) × (merge_all (left_map ∷ right_map ∷ []) own_map
      ≡ ok m1)
    × (merge_all (right_map ∷ left_map ∷ []) own_map ≡ ok m2)
    × ((q : Coordinate) (s : CellState ℤ)
        → cell q own_map ≡ ok s
        → (c : CellState ℤ) × (d : CellState ℤ) × (cell q m1 ≡ ok c)
          × (cell q m2 ≡ ok d)
          × (observation c ≡ observation d))
merge_all-perm_example =
    merge_all-perm (left_map ∷ right_map ∷ []) (right_map ∷ left_map ∷ []) own_map
      (Permᴰ.swap refl refl) (left-IsPeerOf, (right-IsPeerOf, tt))
      (right-IsPeerOf, (left-IsPeerOf, tt)) own-IsSquare

merge_timestamped_from-Pointwise_example :
    (m' : CertaintyMap ℤ) × (merge_timestamped_from left_map own_map ≡ ok m')
    × Pointwise newest_of left_map own_map m'
merge_timestamped_from-Pointwise_example =
    merge_timestamped_from-Pointwise left_map own_map left-IsSquare own-IsSquare refl

reset_from-Pointwise_example :
    (m' : CertaintyMap ℤ) × (reset_from right_map own_map ≡ ok m')
    × Pointwise reset right_map own_map m'
reset_from-Pointwise_example =
    reset_from-Pointwise right_map own_map right-IsSquare own-IsSquare refl

clone_lem_example :
    (m' : CertaintyMap ℤ) × (clone left_map ≡ ok m')
    × IsSquare m'
    × (m'.size ≡ left_map.size)
    × ((q : Coordinate) (c : CellState ℤ) → cell q left_map ≡ ok c → cell q m' ≡ ok c)
clone_lem_example = clone_lem left_map left-IsSquare

cell_total_example :
    (InRange (pos 0, pos 2) left_map
      × ((c : CellState ℤ) × (cell (pos 0, pos 2) left_map ≡ ok c)
          × (coordinate c ≡ (pos 0, pos 2))))
    ⊎ ((¬ InRange (pos 0, pos 2) left_map) × (cell (pos 0, pos 2) left_map ≡ raise index_error))
cell_total_example = cell_total (pos 0, pos 2) left_map left-IsSquare
