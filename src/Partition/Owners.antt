-- ===== src/Partition/Owners.antt =====
-- Whose a cell is, by `ownership_grid` of auction/voronoi.py: the nearest drone's, and of equally near ones the
-- one whose id comes first.
use entropyhunt.Base.{
  length-map, All-map, All-mono, Option-cases, length, get_elem?, get_elem?-map, ok, pos, ℕ, ◌+◌,
  ◌<◌, String, ◌≡◌, refl, sym, ap, subst, ◌∙◌, inl, inr, false, Option, none, some, List, [], ◌∷◌,
  map, arith, nat_eq,
}
use entropyhunt.Base.Sort.{sorted}
use entropyhunt.Certainty.{grid_get}
use entropyhunt.Partition.{
  PartitionSeed, Label, LabelGrid, Flooding, blank, inside, known, label_at, key_lt, improves,
  seed_lt, owner_of, owners_of_labels, ownership_grid,
}
use entropyhunt.Partition.Sums.{tabulate-IsSquare, IsSquare}
use entropyhunt.Partition.Flood.{away, IsFlooding}
use entropyhunt.Partition.Claiming.{some-injective, Met}
use entropyhunt.Partition.Turns.{IsRelaxed}
use entropyhunt.Partition.Places.{true≢false, inside_bounds}
use entropyhunt.Partition.Reach.{reach}
use entropyhunt.Partition.Whole.{IsSeed, IsOwned, blank-shape, flooded}

inside_of : (size a b : ℕ) → a < size → b < size → inside size (pos a, pos b) ≡ some (a, b)
unfolding inside
inside_of size a b h k = ground arith

get_elem?-rows :
    (grid : LabelGrid) (x y : ℕ) (l : Option Label)
    → grid_get grid x y ≡ some l
    → grid_get (owners_of_labels grid) x y ≡ some (owner_of l)
get_elem?-rows grid x y l h = elim (Option-cases (get_elem? grid y)) [
  | inl none_there ↦ ground arith
  | inr (row, e) ↦
      rw (get_elem?-map (map owner_of) grid y row e, grid_get)
        (get_elem?-map owner_of row x l (ground arith))
]

labelled-IsOwned :
    (size : ℕ) (seeds : List PartitionSeed) (x y : ℕ) (s : Flooding) (l : Option Label)
    → label_at s.grid x y ≡ l
    → IsFlooding size (sorted seed_lt seeds) s
    → ((t : ℕ) (seed : PartitionSeed) (a b : ℕ)
        → IsSeed size seeds t seed a b
        → improves (away a x + away b y) t l ≡ false)
    → IsOwned size seeds x y (owner_of l)
labelled-IsOwned size seeds x y s none h v reached =
    λ t seed a b is. true≢false (reached t seed a b is)
labelled-IsOwned size seeds x y s (some label) h v reached =
    let g = v.grounded x y label h in
    let (named, ranks, same_owner) = v.named x y label h in
    let (in_a, in_b, at) = inside_bounds size g.seed.position g.start.0 g.start.1 g.starts in
    let is : IsSeed size seeds label.tie g.seed g.start.0 g.start.1 = (g.ranks, at, in_a, in_b) in
    let near : label.dist ≡ away g.start.0 x + away g.start.1 y =
      ground (arith, reached label.tie g.seed g.start.0 g.start.1 is, g.near) in
    (
      label.tie,
      g.seed,
      g.start.0,
      g.start.1,
      is,
      same_owner ∙ ap (λ a. a.drone_id) (some-injective (sym ranks ∙ g.ranks)),
      λ t' seed' a' b' is'.
          subst (λ d. key_lt (away a' x + away b' y) t' d label.tie ≡ false) near
            (reached t' seed' a' b' is'),
    )

-- The flood of a grid makes its owner the nearest seed's drone.
flooded-IsOwned :
    (size : ℕ) (seeds : List PartitionSeed) (x y : ℕ) (s : Flooding) (l : Option Label)
    → x < size
    → y < size
    → IsFlooding size (sorted seed_lt seeds) s
    → IsRelaxed size (sorted seed_lt seeds) s
    → s.queue ≡ []
    → ((k : ℕ) (seed : PartitionSeed)
        → get_elem? (sorted seed_lt seeds) k ≡ some seed
        → Met size (sorted seed_lt seeds) 0 k (inside size seed.position) s.grid)
    → label_at s.grid x y ≡ l
    → IsOwned size seeds x y (owner_of l)
flooded-IsOwned size seeds x y s l in_x in_y v relaxed drained planted h =
    let reached : (t : ℕ) (seed : PartitionSeed) (a b : ℕ)
        → IsSeed size seeds t seed a b
        → improves (away a x + away b y) t l ≡ false =
      λ t seed a b (ranks, at, in_a, in_b).
        subst (λ l. improves (away a x + away b y) t l ≡ false) h
          (reach size (sorted seed_lt seeds) s relaxed drained t a b in_a in_b
            (planted t seed ranks a b (ap (inside size) at ∙ inside_of size a b in_a in_b))
            (away a x + away b y) x y in_x in_y refl) in
    labelled-IsOwned size seeds x y s l h v reached

owners_of_labels-IsSquare :
    (size : ℕ) (grid : LabelGrid) → IsSquare size grid → IsSquare size (owners_of_labels grid)
owners_of_labels-IsSquare size grid h = (
  length-map (map owner_of) grid ∙ h.0,
  All-map (λ row. length row ≡ size) (map owner_of) grid
      (All-mono _ _ grid (λ row e. length-map owner_of row ∙ e) h.1),
)

-- The grid of the owners, as the seeds determine it.
pub record IsPartition (size : ℕ) (seeds : List PartitionSeed)
    (owners : List (List (Option String))) : Type 0 where
  pub square : IsSquare size owners
  pub owned :
      (x y : ℕ)
      → x < size
      → y < size
      → (owner : Option String) × (grid_get owners x y ≡ some owner) × IsOwned size seeds x y owner

pub ownership_grid-answers :
    (size : ℕ) (seeds : List PartitionSeed)
    → (owners : List (List (Option String))) × (ownership_grid size seeds ≡ ok owners)
      × IsPartition size seeds owners
unfolding ownership_grid sorted
ownership_grid-answers size [] = (
  blank size,
  refl,
  record {
    square = tabulate-IsSquare size none;
    owned = λ x y in_x in_y. (none, blank-shape size x y in_x in_y, λ t seed a b is. cc (is.0));
  },
)
ownership_grid-answers size (seed ∷ seeds) =
    let (s, e, r, planted) = flooded size (sorted seed_lt (seed ∷ seeds)) in
    (
      owners_of_labels s.grid,
      rw e refl,
      record {
        square = owners_of_labels-IsSquare size s.grid r.keeps.square;
        owned = λ x y in_x in_y.
            let (l, at) = r.keeps.shape x y in_x in_y in
            (
              owner_of l,
              get_elem?-rows s.grid x y l at,
              flooded-IsOwned size (seed ∷ seeds) x y s l in_x in_y r.keeps r.relaxed r.drained
                  planted (ap known at),
            );
      },
    )

-- On every cell of the grid, whatever the seeds, `ownership_grid` answers the drone of a seed
-- within the grid to which no other such seed is nearer, by the sum of the distances along the two
-- axes, and of equally near ones the one that ranks first by drone id; a cell has no owner only
-- where no seed is within the grid.
pub ownership_grid-IsOwned :
    (size : ℕ) (seeds : List PartitionSeed) (x y : ℕ)
    → x < size
    → y < size
    → (owners : List (List (Option String))) × (ownership_grid size seeds ≡ ok owners)
      × (owner : Option String) × (grid_get owners x y ≡ some owner)
      × IsOwned size seeds x y owner
ownership_grid-IsOwned size seeds x y in_x in_y =
    let (owners, e, is) = ownership_grid-answers size seeds in
    let (owner, at, owned) = is.owned x y in_x in_y in (owners, e, owner, at, owned)
