-- ===== src/Partition/Rebuilding.antt =====
-- What `_grid_from_partitions` of auction/voronoi.py writes, cell by cell.
use entropyhunt.Base.{
  All-Among, All, All-mono, ok, each, pos, Coordinate, ℕ, ◌<◌, String, ◌≡◌, refl, sym, ap, ◌∙◌, ◌⊎◌,
  inl, inr, Option, none, some, List, [], ◌∷◌, map, arith, string_eq, nat_eq,
}
use entropyhunt.Certainty.{grid_get, grid_set}
use entropyhunt.Certainty.Grid.{grid_get-grid_set_self}
use entropyhunt.Partition.{blank}
use entropyhunt.Partition.Sums.{
  IsSquare, IsSquare-get, grid_ext, grid_set-IsSquare, tabulate-IsSquare, grid_get-grid_set,
}
use entropyhunt.Partition.Whole.{blank-shape}
use entropyhunt.Partition.Grouping.{
  Groups, owner_of_group, put_owner, put_partition, grid_from_partitions, Owners,
}
use entropyhunt.Partition.Grouped.{Fits, AllFit, Somewhere}

put_owner_inside :
    (size : ℕ) (drone_id : String) (x y : ℕ) (written : Owners)
    → x < size
    → y < size
    → put_owner size drone_id (pos x, pos y) written ≡ ok (grid_set written x y (some drone_id))
unfolding put_owner
put_owner_inside size drone_id x y written in_x in_y = ground arith

module _ (size : ℕ) (owners : Owners) where
  -- Each place is empty still or has its owner.
  abbrev Agrees : Owners → Type 0
  Agrees written =
      (x y : ℕ)
      → x < size
      → y < size
      → (grid_get written x y ≡ some none)
        ⊎ ((o : Option String) × (grid_get written x y ≡ some o) × (grid_get owners x y ≡ some o))

  -- The owner of a cell is written.
  abbrev Written : Owners → Coordinate → Type 0
  Written written cell =
      (x y : ℕ)
      → cell ≡ (pos x, pos y)
      → (o : String) × (grid_get written x y ≡ some (some o))
        × (grid_get owners x y ≡ some (some o))

  record Extends (written written' : Owners) : Type 0 where
    agrees : Agrees written'
    square : IsSquare size written → IsSquare size written'
    still : (cell : Coordinate) → Written written cell → Written written' cell

  some_place :
      (written : Owners) (x y : ℕ)
      → Agrees written
      → x < size
      → y < size
      → (o : Option String) × (grid_get written x y ≡ some o)
  some_place written x y agrees in_x in_y = elim (agrees x y in_x in_y) [
    | inl e ↦ (none, e)
    | inr (o, e, _) ↦ (o, e)
  ]

  put_owner-Extends :
      (drone_id : String) (cell : Coordinate) (written : Owners)
      → Agrees written
      → Fits size owners drone_id cell
      → (written' : Owners) × (put_owner size drone_id cell written ≡ ok written')
        × Extends written written'
        × Written written' cell
  unfolding put_owner
  put_owner-Extends drone_id cell written agrees f =
      let (old, e) = some_place written f.x f.y agrees f.in_x f.in_y in
      let new : Option String = some drone_id in
      (
        grid_set written f.x f.y new,
        rw (f.at) (put_owner_inside size drone_id f.x f.y written f.in_x f.in_y),
        record {
          agrees = λ x y in_x in_y. elim (grid_get-grid_set written f.x f.y x y old new e) [
            | inl (p, q, e') ↦ inr (new, e', rw (sym p, sym q) f.owned)
            | inr same ↦ rw same (agrees x y in_x in_y)
          ];
          square = grid_set-IsSquare size written f.x f.y new;
          still = λ c w x y at.
              let (o, here, there) = w x y at in
              elim (grid_get-grid_set written f.x f.y x y old new e) [
                | inl (p, q, e') ↦ (drone_id, e', rw (sym p, sym q) f.owned)
                | inr same ↦ (o, same ∙ here, there)
              ];
        },
        λ x y at.
            let same : ◌≡◌ {A = Coordinate} (pos f.x, pos f.y) (pos x, pos y) = sym f.at ∙ at in
            let same_x : f.x ≡ x = cc same in
            let same_y : f.y ≡ y = cc same in
            rw (sym same_x, sym same_y)
              (drone_id, grid_get-grid_set_self written f.x f.y old new e, f.owned),
      )

  put_owners-Extends :
      (drone_id : String) (cells : List Coordinate) (written : Owners)
      → Agrees written
      → All (Fits size owners drone_id) cells
      → (written' : Owners) × (each (put_owner size drone_id) cells written ≡ ok written')
        × Extends written written'
        × All (Written written') cells
  unfolding each
  put_owners-Extends drone_id [] written agrees fits =
      (written, refl, record { agrees = agrees; square = λ h. h; still = λ c w. w }, tt)
  put_owners-Extends drone_id (cell ∷ cells) written agrees fits =
      let (mid, e, first, here) = put_owner-Extends drone_id cell written agrees fits.0 in
      let (done, e', rest, there) = put_owners-Extends drone_id cells mid first.agrees fits.1 in
      (
        done,
        rw e e',
        record {
          agrees = rest.agrees;
          square = λ h. rest.square (first.square h);
          still = λ c w. rest.still c (first.still c w);
        },
        (rest.still cell here, there),
      )

  put_partitions-Extends :
      (groups : Groups) (written : Owners)
      → Agrees written
      → AllFit size owners groups
      → (written' : Owners) × (each (put_partition size) (map owner_of_group groups) written
          ≡ ok written')
        × Extends written written'
        × All (λ group. All (Written written') group.1) groups
  unfolding each
  put_partitions-Extends [] written agrees fits =
      (written, refl, record { agrees = agrees; square = λ h. h; still = λ c w. w }, tt)
  put_partitions-Extends ((drone_id, cells) ∷ groups) written agrees fits =
      let (mid, e, first, here) = put_owners-Extends drone_id cells written agrees fits.0 in
      let (done, e', rest, there) = put_partitions-Extends groups mid first.agrees fits.1 in
      (
        done,
        rw e e',
        record {
          agrees = rest.agrees;
          square = λ h. rest.square (first.square h);
          still = λ c w. rest.still c (first.still c w);
        },
        (All-mono _ _ cells (λ c w. rest.still c w) here, there),
      )

  Written-Somewhere :
      (written : Owners) (cell : Coordinate) (groups : Groups)
      → All (λ group. All (Written written) group.1) groups
      → Somewhere size owners cell groups
      → Written written cell
  Written-Somewhere written cell [] h k = elim k [ ]
  Written-Somewhere written cell (group ∷ groups) h (inl here) =
      All-Among (Written written) group.1 cell h.0 here
  Written-Somewhere written cell (group ∷ groups) h (inr later) =
      Written-Somewhere written cell groups h.1 later

  -- A place that was left empty has no owner.
  never_filled :
      (written : Owners) (x y : ℕ) (o : Option String)
      → grid_get owners x y ≡ some o
      → grid_get written x y ≡ some none
      → ((drone_id : String)
          → grid_get owners x y ≡ some (some drone_id)
          → Written written (pos x, pos y))
      → grid_get owners x y ≡ some none
  never_filled written x y none at empty filled = at
  never_filled written x y (some drone_id) at empty filled =
      let (o, here, there) = filled drone_id at x y refl in absurd (cc (here, empty))

  -- All groups together hold exactly the cells that have an owner: what is written from them is the grid.
  pub rebuilt :
      (groups : Groups)
      → IsSquare size owners
      → AllFit size owners groups
      → ((x y : ℕ) (drone_id : String)
          → grid_get owners x y ≡ some (some drone_id)
          → Somewhere size owners (pos x, pos y) groups)
      → grid_from_partitions size (map owner_of_group groups) ≡ ok owners
  unfolding grid_from_partitions
  rebuilt groups square fits complete =
      let (written, e, x, all_written) =
        put_partitions-Extends groups (blank size)
          (λ x y in_x in_y. inl (blank-shape size x y in_x in_y)) fits in
      let same : written ≡ owners =
        grid_ext size written owners (x.square (tabulate-IsSquare size none)) square
          (λ i j in_i in_j. elim (x.agrees i j in_i in_j) [
            | inr (o, here, there) ↦ here ∙ sym there
            | inl empty ↦
                let (o, at) = IsSquare-get size owners i j square in_i in_j in
                empty
                ∙ sym (
                    never_filled written i j o at empty (λ drone_id h.
                      Written-Somewhere written (pos i, pos j) groups all_written
                        (complete i j drone_id h)))
          ]) in
      e ∙ ap ok same
