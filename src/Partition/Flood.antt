-- ===== src/Partition/Flood.antt =====
-- What a claim of the flood of auction/voronoi.py keeps and what it lowers.
use entropyhunt.Base.{
  length, get_elem?, All, ℕ, ◌+◌, ◌-◌, ◌*◌, ◌≤◌, ◌<◌, String, ◌≡◌, refl, ap, subst, ◌∙◌, ◌⊎◌, inl,
  inr, true, false, Option, none, some, List, arith, nat_eq,
}
use entropyhunt.Certainty.{grid_get, grid_set}
use entropyhunt.Partition.{
  known, PartitionSeed, Label, Entry, LabelGrid, Flooding, inside, label_at, key_lt, improves,
}
use entropyhunt.Partition.Sums.{
  IsSquare, total, total-grid_set, total_mono, grid_get-grid_set, step_le, key_lt-number,
}

-- `abs(a - b)`
abbrev pub away : ℕ → ℕ → ℕ
away a b = (a - b) + (b - a)

abbrev pub is_labelled : Option Label → ℕ
is_labelled none = 0
is_labelled (some label) = 1

abbrev pub labelled : LabelGrid → ℕ
labelled = total is_labelled

is_labelled_le : (l : Option Label) → is_labelled l ≤ 1
is_labelled_le none = omega arith
is_labelled_le (some label) = omega arith

-- A smaller key than a label's improves on whatever that label improves on.
pub improves_trans :
    (d t : ℕ) (old : Label) (d' t' : ℕ)
    → improves d t (some old) ≡ true
    → key_lt d' t' old.dist old.tie ≡ false
    → key_lt d' t' d t ≡ false
improves_trans d t old d' t' h k = ground arith

module _ (size : ℕ) (ranked : List PartitionSeed) where
  -- The number of a key, where a cell that is not claimed counts most.
  abbrev pub weight : Option Label → ℕ
  weight none = size * size * length ranked
  weight (some label) = label.dist * length ranked + label.tie

  abbrev pub work : Flooding → ℕ
  work s = 2 * total weight s.grid + length s.queue

  pub record Grounded (d t x y : ℕ) : Type 0 where
    pub seed : PartitionSeed
    pub start : ℕ × ℕ
    pub ranks : get_elem? ranked t ≡ some seed
    pub starts : inside size seed.position ≡ some start
    pub near : away start.0 x + away start.1 y ≤ d

  abbrev pub Names : ℕ → String → Type 0
  Names t owner =
      (seed : PartitionSeed) × (get_elem? ranked t ≡ some seed) × (owner ≡ seed.drone_id)

  pub record IsFlooding (s : Flooding) : Type 0 where
    pub shape :
        (x y : ℕ) → x < size → y < size → (l : Option Label) × (grid_get s.grid x y ≡ some l)
    pub square : IsSquare size s.grid
    pub area : total (λ _. 1) s.grid ≡ size * size
    pub grounded :
        (x y : ℕ) (label : Label)
        → label_at s.grid x y ≡ some label
        → Grounded label.dist label.tie x y
    pub named :
        (x y : ℕ) (label : Label) → label_at s.grid x y ≡ some label → Names label.tie label.owner
    pub short :
        (x y : ℕ) (label : Label) → label_at s.grid x y ≡ some label → label.dist < labelled s.grid
    pub queued :
        All
          (λ e.
            (e.x < size)
            × (e.y < size)
            × Grounded e.dist e.tie e.x e.y
            × (e.dist < labelled s.grid))
          s.queue

  -- What a place holds after a write.
  pub label_at-grid_set :
      (s : Flooding) (x y : ℕ) (label : Label)
      → IsFlooding s
      → x < size
      → y < size
      → (x' y' : ℕ)
      → ((x ≡ x') × (y ≡ y') × (label_at (grid_set s.grid x y (some label)) x' y' ≡ some label))
        ⊎ (label_at (grid_set s.grid x y (some label)) x' y' ≡ label_at s.grid x' y')
  label_at-grid_set s x y label v in_x in_y x' y' =
      let (old, e) = v.shape x y in_x in_y in
      elim (grid_get-grid_set s.grid x y x' y' old (some label) e) [
        | inl (p, q, e) ↦ inl (p, q, ap known e)
        | inr e ↦ inr (ap known e)
      ]

  pub record Claimed (d t x y : ℕ) (s s' : Flooding) : Type 0 where
    pub grows : labelled s.grid ≤ labelled s'.grid
    pub within : d < labelled s'.grid
    pub covers : total (λ _. 1) s'.grid ≡ size * size
    pub cheaper : total weight s'.grid + 1 ≤ total weight s.grid

  -- What a claim of a cell does to the number of claimed cells, and that its key is below the old one.
  improves-numbers :
      (d t count count' : ℕ) (old : Option Label)
      → improves d t old ≡ true
      → t < length ranked
      → ((l : Label) → old ≡ some l → l.dist < count)
      → d ≤ count
      → count' + is_labelled old ≡ count + 1
      → count' ≤ size * size
      → (count ≤ count') × (d < count') × (d * length ranked + t < weight old)
  improves-numbers d t count count' none better ranks short lo sum area = (
    omega arith,
    omega arith,
    omega (arith, step_le d (size * size) (length ranked) (omega arith), ranks),
  )
  improves-numbers d t count count' (some l) better ranks short lo sum area =
      let below : l.dist < count = short l refl in
      (
        omega arith,
        ground (arith, below),
        key_lt-number d t l.dist l.tie (length ranked) better ranks,
      )

  pub written-Claimed :
      (owner : String) (d t x y : ℕ) (s : Flooding)
      → IsFlooding s
      → x < size
      → y < size
      → t < length ranked
      → d ≤ labelled s.grid
      → improves d t (label_at s.grid x y) ≡ true
      → (queue : List Entry)
      → Claimed d t x y s (record {
        grid = grid_set s.grid x y (some (record { owner = owner; dist = d; tie = t }));
        queue = queue;
      })
  written-Claimed owner d t x y s v in_x in_y ranks lo better queue =
      let (old, e) = v.shape x y in_x in_y in
      let new : Option Label = some (record { owner = owner; dist = d; tie = t }) in
      let count = total-grid_set is_labelled s.grid x y old new e in
      let area = total-grid_set (λ _. 1) s.grid x y old new e in
      let sum = total-grid_set weight s.grid x y old new e in
      let before : label_at s.grid x y ≡ old = ap known e in
      let most : labelled (grid_set s.grid x y new) ≤ size * size = omega (
        arith,
        total_mono is_labelled (λ _. 1) (grid_set s.grid x y new) is_labelled_le,
        area,
        v.area,
      ) in
      let (more, within, less) =
        improves-numbers d t (labelled s.grid) (labelled (grid_set s.grid x y new)) old
          (subst (λ l. improves d t l ≡ true) before better) ranks
          (λ l h. v.short x y l (before ∙ h)) lo count most in
      record {
        grows = more;
        within = within;
        covers = omega (arith, area, v.area);
        cheaper = omega (arith, sum, less);
      }
