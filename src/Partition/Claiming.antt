-- ===== src/Partition/Claiming.antt =====
-- A claim of a cell in the flood of auction/voronoi.py: it keeps the flood's invariant, lowers keys only, and
-- queues what it lowers.
use entropyhunt.Base.{
  Among, Among-append, Among-last, Bool-cases, get_elem?-lt_length, All-append, All-mono,
  length-append, ℕ, ◌≤◌, ◌<◌, String, ◌≡◌, refl, sym, ap, subst, ◌∙◌, ◌⊎◌, inl, inr, true, false,
  Option, none, some, List, [], ◌∷◌, ◌++◌, arith, nat_eq,
}
use entropyhunt.Certainty.{grid_set}
use entropyhunt.Certainty.Grid.{grid_get-grid_set_self}
use entropyhunt.Partition.{
  known, PartitionSeed, Label, Entry, LabelGrid, Flooding, label_at, improves, claim_place,
}
use entropyhunt.Partition.Sums.{grid_set-IsSquare, grid_get-grid_set}
use entropyhunt.Partition.Flood.{
  labelled, improves_trans, work, Grounded, Names, IsFlooding, label_at-grid_set, Claimed,
  written-Claimed,
}

-- The entry that a label was queued with.
abbrev pub entry_of : ℕ → ℕ → Label → Entry
entry_of x y label = record { dist = label.dist; tie = label.tie; x = x; y = y }

lowered :
    (d t : ℕ) (old : Option Label) (new : Label) (d' t' : ℕ)
    → new.dist ≡ d
    → new.tie ≡ t
    → improves d t old ≡ true
    → improves d' t' old ≡ false
    → improves d' t' (some new) ≡ false
lowered d t none new d' t' p q h k = cc
lowered d t (some old) new d' t' p q h k = ground (arith, p, q, improves_trans d t old d' t' h k)

pub some-injective : {A : Type 0} {a b : A} → some a ≡ some b → a ≡ b
some-injective h = cc

at_place :
    {x y x' y' : ℕ} (P : ℕ → ℕ → Type 0)
    → ◌≡◌ {A = Option (ℕ × ℕ)} (some (x, y)) (some (x', y'))
    → P x y
    → P x' y'
at_place P e h = let pair = some-injective e in subst (λ p. P p.0 p.1) pair h

module _ (size : ℕ) (ranked : List PartitionSeed) where
  -- What a step of the flood keeps and what it may change.
  pub record Progress (s s' : Flooding) : Type 0 where
    pub keeps : IsFlooding size ranked s'
    pub grows : labelled s.grid ≤ labelled s'.grid
    pub lowers :
        (d t x y : ℕ)
        → improves d t (label_at s.grid x y) ≡ false
        → improves d t (label_at s'.grid x y) ≡ false
    pub cheaper : work size ranked s' ≤ work size ranked s
    pub adds : (e : Entry) → Among e s.queue → Among e s'.queue
    pub fresh :
        (x y : ℕ) (label : Label)
        → label_at s'.grid x y ≡ some label
        → (label_at s.grid x y ≡ some label) ⊎ Among (entry_of x y label) s'.queue

  pub Progress-refl : (s : Flooding) → IsFlooding size ranked s → Progress s s
  Progress-refl s v = record {
    keeps = v;
    grows = omega arith;
    lowers = λ d t x y h. h;
    cheaper = omega arith;
    adds = λ e h. h;
    fresh = λ x y label h. inl h;
  }

  pub Progress-trans : (s s' s'' : Flooding) → Progress s s' → Progress s' s'' → Progress s s''
  Progress-trans s s' s'' p q = record {
    keeps = q.keeps;
    grows = omega (arith, p.grows, q.grows);
    lowers = λ d t x y h. q.lowers d t x y (p.lowers d t x y h);
    cheaper = omega (arith, p.cheaper, q.cheaper);
    adds = λ e h. q.adds e (p.adds e h);
    fresh = λ x y label h. elim (q.fresh x y label h) [
      | inr queued ↦ inr queued
      | inl same ↦ elim (p.fresh x y label same) [
        | inl old ↦ inl old
        | inr queued ↦ inr (q.adds (entry_of x y label) queued)
      ]
    ];
  }

  module _ (owner : String) (d t x y : ℕ) (s : Flooding) (v : IsFlooding size ranked s)
      (in_x : x < size) (in_y : y < size) (g : Grounded size ranked d t x y)
      (n : Names size ranked t owner) (lo : d ≤ labelled s.grid)
      (better : improves d t (label_at s.grid x y) ≡ true) where
    abbrev new : Label
    new = record { owner = owner; dist = d; tie = t }

    abbrev queued_too : List Entry
    queued_too = s.queue ++ (entry_of x y new ∷ [])

    abbrev written : Flooding
    written = record { grid = grid_set s.grid x y (some new); queue = queued_too }

    claimed : Claimed size ranked d t x y s written
    claimed =
        written-Claimed size ranked owner d t x y s v in_x in_y
          (get_elem?-lt_length ranked t g.seed g.ranks) lo better queued_too

    read :
        (x' y' : ℕ)
        → ((x ≡ x') × (y ≡ y') × (label_at written.grid x' y' ≡ some new))
          ⊎ (label_at written.grid x' y' ≡ label_at s.grid x' y')
    read = label_at-grid_set size ranked s x y new v in_x in_y

    -- What holds of the new label and of the old ones holds of all labels.
    on_labels :
        (P : ℕ → ℕ → Label → Type 0)
        → P x y new
        → ((x' y' : ℕ) (l : Label) → label_at s.grid x' y' ≡ some l → P x' y' l)
        → (x' y' : ℕ) (l : Label) → label_at written.grid x' y' ≡ some l
        → P x' y' l
    on_labels P here there x' y' l h = elim (read x' y') [
      | inl (p, q, e) ↦
          let same : new ≡ l = some-injective (sym e ∙ h) in rw (sym p, sym q, sym same) here
      | inr e ↦ there x' y' l (sym e ∙ h)
    ]

    written-IsFlooding : IsFlooding size ranked written
    written-IsFlooding = record {
      shape = λ x' y' h k.
          let (old, e) = v.shape x y in_x in_y in
          elim (grid_get-grid_set s.grid x y x' y' old (some new) e) [
            | inl (p, q, e) ↦ (some new, e)
            | inr e ↦ let (l, e') = v.shape x' y' h k in (l, e ∙ e')
          ];
      square = grid_set-IsSquare size s.grid x y (some new) v.square;
      area = claimed.covers;
      grounded = on_labels (λ x' y' l. Grounded size ranked l.dist l.tie x' y') g v.grounded;
      named = on_labels (λ x' y' l. Names size ranked l.tie l.owner) n v.named;
      short =
          on_labels (λ x' y' l. l.dist < labelled written.grid) claimed.within
            (λ x' y' l h. omega (arith, v.short x' y' l h, claimed.grows));
      queued =
          All-append _ s.queue (entry_of x y new ∷ [])
            (All-mono _ _ s.queue (λ e (p, q, r, l). (p, q, r, omega (arith, l, claimed.grows)))
              v.queued)
            ((in_x, in_y, g, claimed.within), tt);
    }

    written-Progress : Progress s written
    written-Progress = record {
      keeps = written-IsFlooding;
      grows = claimed.grows;
      lowers = λ d' t' x' y' h. elim (read x' y') [
        | inl (p, q, e) ↦
            rw e (lowered d t (label_at s.grid x y) new d' t' refl refl better (rw (p, q) h))
        | inr e ↦ rw e h
      ];
      cheaper = omega (arith, claimed.cheaper, length-append s.queue (entry_of x y new ∷ []));
      adds = λ e h. Among-append e s.queue (entry_of x y new ∷ []) h;
      fresh =
          on_labels
            (λ x' y' l. (label_at s.grid x' y' ≡ some l) ⊎ Among (entry_of x' y' l) queued_too)
            (inr (Among-last (entry_of x y new) s.queue)) (λ x' y' l h. inl h);
    }

    written_met : improves d t (label_at written.grid x y) ≡ false
    written_met =
        let (old, e) = v.shape x y in_x in_y in
        rw (ap known (grid_get-grid_set_self s.grid x y old (some new) e)) (ground arith)

  -- A place has a key that `(d, t)` does not improve on.
  abbrev pub Met : ℕ → ℕ → Option (ℕ × ℕ) → LabelGrid → Type 0
  Met d t place grid = (x y : ℕ) → place ≡ some (x, y) → improves d t (label_at grid x y) ≡ false

  pub claim_place-Progress :
      (owner : String) (d t : ℕ) (place : Option (ℕ × ℕ)) (s : Flooding)
      → IsFlooding size ranked s
      → Names size ranked t owner
      → d ≤ labelled s.grid
      → ((x y : ℕ) → place ≡ some (x, y) → (x < size) × (y < size) × Grounded size ranked d t x y)
      → Progress s (claim_place owner d t place s)
        × Met d t place (claim_place owner d t place s).grid
  unfolding claim_place
  claim_place-Progress owner d t none s v n lo at = (Progress-refl s v, λ x y h. cc)
  claim_place-Progress owner d t (some (x, y)) s v n lo at =
      let (in_x, in_y, g) = at x y refl in
      elim (Bool-cases (improves d t (label_at s.grid x y))) [
        | inl better ↦ rw better (
          written-Progress owner d t x y s v in_x in_y g n lo better,
          λ x' y' h.
              at_place
                (λ x' y'.
                  improves d t
                    (label_at (written owner d t x y s v in_x in_y g n lo better).grid x' y')
                  ≡ false)
                h (written_met owner d t x y s v in_x in_y g n lo better),
        )
        | inr worse ↦ rw worse (
          Progress-refl s v,
          λ x' y' h. at_place (λ x' y'. improves d t (label_at s.grid x' y') ≡ false) h worse,
        )
      ]
