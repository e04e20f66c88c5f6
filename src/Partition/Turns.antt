-- ===== src/Partition/Turns.antt =====
-- The loops of `ownership_grid` in auction/voronoi.py: over the seeds, over the four neighbours of a cell, and
-- over the queue.
use entropyhunt.Base.{
  Among, Bool-cases, length, get_elem?, All, All-mono, ok, Coordinate, ℕ, zero, suc, ◌+◌, ◌≤◌, ◌<◌,
  String, ◌≡◌, refl, sym, ap, subst, ◌∙◌, ◌⊎◌, inl, inr, false, some, List, [], ◌∷◌, arith, nat_eq,
}
use entropyhunt.Partition.{
  PartitionSeed, Label, Entry, LabelGrid, Flooding, inside, label_at, improves, claim_place, plant,
  moves, shifted, spread, is_outdated, visit, flood,
}
use entropyhunt.Partition.Flood.{labelled, work, Grounded, Names, IsFlooding}
use entropyhunt.Partition.Claiming.{
  entry_of, Progress, Progress-refl, Progress-trans, Met, claim_place-Progress,
}
use entropyhunt.Partition.Places.{
  inside_bounds, IsMove, moves-AreMoves, at_index, entry_of-IsCurrent, List-cases, true≢false,
}

module _ (size : ℕ) (ranked : List PartitionSeed) where
  -- Each seed of the rest of the list claims its place.
  pub plant-Progress :
      (idx : ℕ) (seeds : List PartitionSeed) (s : Flooding)
      → IsFlooding size ranked s
      → ((k : ℕ) (seed : PartitionSeed)
          → get_elem? seeds k ≡ some seed
          → get_elem? ranked (idx + k) ≡ some seed)
      → Progress size ranked s (plant size idx seeds s)
        × ((k : ℕ) (seed : PartitionSeed)
            → get_elem? seeds k ≡ some seed
            → Met size ranked 0 (idx + k) (inside size seed.position) (plant size idx seeds s).grid)
  unfolding plant
  plant-Progress idx [] s v at = (Progress-refl size ranked s v, λ k seed h. cc)
  plant-Progress idx (seed ∷ seeds) s v at =
      let ranks : get_elem? ranked idx ≡ some seed =
        subst (λ i. get_elem? ranked i ≡ some seed) (omega arith) (at 0 seed refl) in
      let (first, met) =
        claim_place-Progress size ranked seed.drone_id 0 idx (inside size seed.position) s v
          (seed, ranks, refl) (omega arith)
          (λ x y h.
            let (in_x, in_y, _) = inside_bounds size seed.position x y h in
            (
              in_x,
              in_y,
              record { seed = seed; start = (x, y); ranks = ranks; starts = h; near = omega arith },
            )) in
      let (rest, others) =
        plant-Progress (suc idx) seeds
          (claim_place seed.drone_id 0 idx (inside size seed.position) s) first.keeps
          (λ k seed' h.
            subst (λ i. get_elem? ranked i ≡ some seed') (omega arith) (at (suc k) seed' h)) in
      let done =
        plant size (suc idx) seeds
          (claim_place seed.drone_id 0 idx (inside size seed.position) s) in
      (
        Progress-trans size ranked _ _ _ first rest,
        at_index (λ k a. Met size ranked 0 (idx + k) (inside size a.position) done.grid) seed seeds
            (λ x y h.
              subst (λ i. improves 0 i (label_at done.grid x y) ≡ false) (omega arith)
                (rest.lowers 0 idx x y (met x y h)))
            (λ k a h x y e.
              subst (λ i. improves 0 i (label_at done.grid x y) ≡ false) (omega arith)
                (others k a h x y e)),
      )

  -- The neighbours of a cell in the directions of some moves.
  abbrev pub Spread : Entry → LabelGrid → List Coordinate → Type 0
  Spread e grid = All λ move. Met size ranked (e.dist + 1) e.tie (inside size (shifted e move)) grid

  spread-Progress :
      (owner : String) (e : Entry) (ms : List Coordinate) (s : Flooding)
      → IsFlooding size ranked s
      → All IsMove ms
      → Names size ranked e.tie owner
      → Grounded size ranked e.dist e.tie e.x e.y
      → e.dist < labelled s.grid
      → Progress size ranked s (spread size owner e ms s)
        × Spread e (spread size owner e ms s).grid ms
  unfolding spread
  spread-Progress owner e [] s v ok_moves n g lo = (Progress-refl size ranked s v, tt)
  spread-Progress owner e (move ∷ ms) s v ok_moves n g lo =
      let (first, met) =
        claim_place-Progress size ranked owner (e.dist + 1) e.tie (inside size (shifted e move)) s v
          n (omega (arith, lo))
          (λ x y h.
            let (in_x, in_y, at) = inside_bounds size (shifted e move) x y h in
            (
              in_x,
              in_y,
              record {
                seed = g.seed;
                start = g.start;
                ranks = g.ranks;
                starts = g.starts;
                near = omega (arith, g.near, ok_moves.0 e x y at);
              },
            )) in
      let (rest, others) =
        spread-Progress owner e ms
          (claim_place owner (e.dist + 1) e.tie (inside size (shifted e move)) s) first.keeps
          ok_moves.1 n g (omega (arith, lo, first.grows)) in
      (
        Progress-trans size ranked _ _ _ first rest,
        (λ x y h. rest.lowers (e.dist + 1) e.tie x y (met x y h), others),
      )

  -- Each claimed cell is in the queue or has been spread from.
  abbrev pub IsRelaxed : Flooding → Type 0
  IsRelaxed s =
      (x y : ℕ) (label : Label)
      → label_at s.grid x y ≡ some label
      → Among (entry_of x y label) s.queue ⊎ Spread (entry_of x y label) s.grid moves

  Spread-mono :
      (e : Entry) (grid grid' : LabelGrid) (ms : List Coordinate)
      → ((d t x y : ℕ)
          → improves d t (label_at grid x y) ≡ false
          → improves d t (label_at grid' x y) ≡ false)
      → Spread e grid ms
      → Spread e grid' ms
  Spread-mono e grid grid' ms lowers =
      All-mono _ _ ms (λ move met x y h. lowers (e.dist + 1) e.tie x y (met x y h))

  -- Of the cells that were in the queue, the one of its head excepted, all still are, or have been spread from.
  IsRelaxed-next :
      (e : Entry) (queue : List Entry) (s s' : Flooding)
      → s.queue ≡ e ∷ queue
      → Progress size ranked (record s { queue = queue }) s'
      → ((x y : ℕ) (label : Label)
          → label_at s.grid x y ≡ some label
          → entry_of x y label ≡ e
          → Spread (entry_of x y label) s'.grid moves)
      → IsRelaxed s
      → IsRelaxed s'
  IsRelaxed-next e queue s s' taken p head relaxed x y label h = elim (p.fresh x y label h) [
    | inr queued ↦ inl queued
    | inl old ↦ elim (relaxed x y label old) [
      | inr met ↦ inr (Spread-mono (entry_of x y label) s.grid s'.grid moves p.lowers met)
      | inl queued ↦ elim (subst (Among (entry_of x y label)) taken queued) [
        | inl same ↦ inr (head x y label old same)
        | inr later ↦ inl (p.adds (entry_of x y label) later)
      ]
    ]
  ]

  -- The entry that was taken from the queue is seen to.
  pub visit-Progress :
      (e : Entry) (queue : List Entry) (s : Flooding)
      → s.queue ≡ e ∷ queue
      → IsFlooding size ranked s
      → IsRelaxed s
      → (s' : Flooding) × (visit size ranked e (record s { queue = queue }) ≡ ok s')
        × IsFlooding size ranked s'
        × IsRelaxed s'
        × (work size ranked s' < work size ranked s)
        × ((d t x y : ℕ)
            → improves d t (label_at s.grid x y) ≡ false
            → improves d t (label_at s'.grid x y) ≡ false)
  unfolding visit
  visit-Progress e queue s taken v relaxed =
      let popped : Flooding = record s { queue = queue } in
      let queued = subst (All _) taken v.queued in
      let v' : IsFlooding size ranked popped = record {
        shape = v.shape;
        square = v.square;
        area = v.area;
        grounded = v.grounded;
        named = v.named;
        short = v.short;
        queued = queued.1;
      } in
      let (in_x, in_y, g, lo) = queued.0 in
      elim (Bool-cases (is_outdated e (label_at s.grid e.x e.y))) [
        | inl stale ↦ (
          popped,
          rw stale refl,
          v',
          IsRelaxed-next e queue s popped taken (Progress-refl size ranked popped v')
              (λ x y label h same.
                absurd (true≢false (sym stale ∙ entry_of-IsCurrent e x y label s.grid same h)))
              relaxed,
          omega (arith, ap length taken),
          λ d t x y h. h,
        )
        | inr current ↦
            let (p, all_met) =
              spread-Progress g.seed.drone_id e moves popped v' moves-AreMoves
                (g.seed, g.ranks, refl) g lo in
            (
              spread size g.seed.drone_id e moves popped,
              rw (current, g.ranks) refl,
              p.keeps,
              IsRelaxed-next e queue s _ taken p
                  (λ x y label h same.
                    subst (λ e'. Spread e' (spread size g.seed.drone_id e moves popped).grid moves)
                      (sym same) all_met)
                  relaxed,
              omega (arith, p.cheaper, ap length taken),
              p.lowers,
            )
      ]

  pub record Flooded (s s' : Flooding) : Type 0 where
    pub keeps : IsFlooding size ranked s'
    pub relaxed : IsRelaxed s'
    pub drained : s'.queue ≡ []
    pub lowers :
        (d t x y : ℕ)
        → improves d t (label_at s.grid x y) ≡ false
        → improves d t (label_at s'.grid x y) ≡ false

  -- The queue is drained before the fuel is used up.
  pub flood-Flooded :
      (n : ℕ) (s : Flooding)
      → IsFlooding size ranked s
      → IsRelaxed s
      → work size ranked s ≤ n
      → (s' : Flooding) × (flood n size ranked s ≡ ok s') × Flooded s s'
  unfolding flood
  flood-Flooded zero s v relaxed fuel = elim (List-cases s.queue) [
    | inl none_left ↦ (
      s,
      refl,
      record { keeps = v; relaxed = relaxed; drained = none_left; lowers = λ d t x y h. h },
    )
    | inr (e, queue, taken) ↦ absurd (omega (arith, fuel, ap length taken))
  ]
  flood-Flooded (suc n) s v relaxed fuel = elim (List-cases s.queue) [
    | inl none_left ↦ (
      s,
      rw none_left refl,
      record { keeps = v; relaxed = relaxed; drained = none_left; lowers = λ d t x y h. h },
    )
    | inr (e, queue, taken) ↦
        let (s', visited, v', relaxed', less, lowers) = visit-Progress e queue s taken v relaxed in
        let (s'', flooded, r) = flood-Flooded n s' v' relaxed' (omega (arith, less, fuel)) in
        (
          s'',
          rw (taken, visited) flooded,
          record {
            keeps = r.keeps;
            relaxed = r.relaxed;
            drained = r.drained;
            lowers = λ d t x y h. r.lowers d t x y (lowers d t x y h);
          },
        )
  ]
