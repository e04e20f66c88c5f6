-- ===== src/Partition/Whole.antt =====
-- The whole flood of auction/voronoi.py, from the grid where nothing is claimed.
use entropyhunt.Base.{
  tabulate_from, get_elem?-tabulate_from, length, get_elem?, tabulate, ok, pos, ℕ, zero, suc, ◌+◌,
  ◌≤◌, ◌<◌, String, ◌≡◌, refl, subst, inl, inr, false, Option, none, some, List, [], arith, nat_eq,
}
use entropyhunt.Base.Sort.{sorted}
use entropyhunt.Certainty.{grid_get}
use entropyhunt.Partition.{
  PartitionSeed, Label, Flooding, blank, inside, known, label_at, key_lt, improves, plant, flood,
  seed_lt, enough,
}
use entropyhunt.Partition.Sums.{tabulate-IsSquare, total-tabulate}
use entropyhunt.Partition.Flood.{away, weight, work, IsFlooding}
use entropyhunt.Partition.Claiming.{Met}
use entropyhunt.Partition.Turns.{plant-Progress, IsRelaxed, Flooded, flood-Flooded}

-- A seed within the grid, with its rank by drone id.
abbrev pub IsSeed : ℕ → List PartitionSeed → ℕ → PartitionSeed → ℕ → ℕ → Type 0
IsSeed size seeds t seed a b =
    (get_elem? (sorted seed_lt seeds) t ≡ some seed)
    × (seed.position ≡ (pos a, pos b))
    × (a < size)
    × (b < size)

-- The owner of a cell is the nearest seed's drone, and of equally near ones the one that ranks first; a cell
-- without an owner is one of a grid without a seed.
abbrev pub IsOwned : ℕ → List PartitionSeed → ℕ → ℕ → Option String → Type 0
IsOwned size seeds x y none =
    (t : ℕ) (seed : PartitionSeed) (a b : ℕ) → ¬ IsSeed size seeds t seed a b
IsOwned size seeds x y (some owner) =
    (t : ℕ) × (seed : PartitionSeed) × (a : ℕ) × (b : ℕ) × IsSeed size seeds t seed a b
    × (owner ≡ seed.drone_id)
    × ((t' : ℕ) (seed' : PartitionSeed) (a' b' : ℕ)
        → IsSeed size seeds t' seed' a' b'
        → key_lt (away a' x + away b' y) t' (away a x + away b y) t ≡ false)

row-blank : (s n x : ℕ) → known (get_elem? (tabulate_from s n (λ _. none)) x) ≡ none
row-blank s zero x = refl
row-blank s (suc n) zero = refl
row-blank s (suc n) (suc x) = row-blank (suc s) n x

rows-blank : (s m n x y : ℕ) → label_at (tabulate_from s m (λ _. tabulate n (λ _. none))) x y ≡ none
rows-blank s zero n x y = refl
rows-blank s (suc m) n x zero = row-blank 0 n x
rows-blank s (suc m) n x (suc y) = rows-blank (suc s) m n x y

label_at-blank : (size x y : ℕ) → label_at (blank size) x y ≡ none
label_at-blank size x y = rows-blank 0 size size x y

pub blank-shape :
    {A : Type 0} (size x y : ℕ)
    → x < size
    → y < size
    → grid_get (blank {A = A} size) x y ≡ some none
blank-shape {A} size x y h k =
    rw
      (get_elem?-tabulate_from 0 size y (λ _. tabulate {A = Option A} size (λ _. none)) k, grid_get)
      (get_elem?-tabulate_from 0 size x (λ _. none) h)

module _ (size : ℕ) (ranked : List PartitionSeed) where
  abbrev pub start : Flooding
  start = record { grid = blank size; queue = [] }

  start-IsFlooding : IsFlooding size ranked start
  start-IsFlooding = record {
    shape = λ x y h k. (none, blank-shape size x y h k);
    square = tabulate-IsSquare size none;
    area = omega (arith, total-tabulate {A = Option Label} (λ _. 1) size none);
    grounded = λ x y label h. absurd (cc (h, label_at-blank size x y));
    named = λ x y label h. absurd (cc (h, label_at-blank size x y));
    short = λ x y label h. absurd (cc (h, label_at-blank size x y));
    queued = tt;
  }

  start-work : work size ranked start ≤ enough size (length ranked)
  start-work = omega (arith, total-tabulate (weight size ranked) size none)

  -- The whole flood, from the grid where nothing is claimed.
  pub flooded :
      (s : Flooding) × (flood (enough size (length ranked)) size ranked (plant size 0 ranked start)
        ≡ ok s)
      × Flooded size ranked (plant size 0 ranked start) s
      × ((k : ℕ) (seed : PartitionSeed)
          → get_elem? ranked k ≡ some seed
          → Met size ranked 0 k (inside size seed.position) s.grid)
  flooded =
      let (p, met) =
        plant-Progress size ranked 0 ranked start start-IsFlooding
          (λ k seed h. subst (λ i. get_elem? ranked i ≡ some seed) (omega arith) h) in
      let relaxed : IsRelaxed size ranked (plant size 0 ranked start) = λ x y label h.
        elim (p.fresh x y label h) [
          | inl old ↦ absurd (cc (old, label_at-blank size x y))
          | inr queued ↦ inl queued
        ] in
      let (s, e, r) =
        flood-Flooded size ranked (enough size (length ranked)) (plant size 0 ranked start) p.keeps
          relaxed (omega (arith, p.cheaper, start-work)) in
      (
        s,
        e,
        r,
        λ k seed h x y at. r.lowers 0 k x y (
            subst (λ i. improves 0 i (label_at (plant size 0 ranked start).grid x y) ≡ false)
              (omega arith) (met k seed h x y at)),
      )
