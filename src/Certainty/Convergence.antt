-- ===== src/Certainty/Convergence.antt =====
-- Timestamped merges of core/certainty.py in any order: two maps that have merged the same maps agree.
use mathlib.Core.List.{Permᴰ}
use entropyhunt.Base.{
  ltb, Option-cases, get_elem?, first, All, All-get_elem?, All-mono, Result, ok, raise, each,
  Coordinate, ℕ, ◌≡◌, refl, sym, ap, ◌∙◌, inl, inr, Bool, List, [], ◌∷◌, arith, string_eq, nat_eq,
  pair_eq, int_eq,
}
use entropyhunt.Base.Order.{
  IsOrder, lex, by_key, ltb-IsOrder, by_key-IsOrder, lex-IsOrder, pick, IsConnected, pick_left_comm,
  lex-IsConnected, ltb-IsConnected,
}
use entropyhunt.Base.Numeric.{Floats}
use entropyhunt.Certainty.{
  CellState, CertaintyMap, cell, IsProbability, clamp_certainty-IsProbability, clamp_certainty_id,
  merge_timestamped_from,
}
use entropyhunt.Certainty.Merge.{newest_of, merge_timestamped_from-Pointwise}
use entropyhunt.Certainty.Square.{IsSquare, cell-eq-ok, same_range}
use entropyhunt.Base.Int.{pos_part}

module _ ⦃fl : Floats⦄ where
  open fl use {Float, lt}

  -- What a cell says of its place, leaving out who said it.
  abbrev pub Observation : Type 0
  Observation = ℕ × Float

  abbrev pub observation : CellState Float → Observation
  observation c = (c.last_updated_ms, c.certainty)

  -- The newer observation is the greater one, and of one time the more certain one.
  abbrev pub observation_lt : Observation → Observation → Bool
  observation_lt = lex (by_key ltb λ p. p.0) (by_key lt λ p. p.1)

  observation-IsOrder : IsOrder observation_lt
  observation-IsOrder =
      lex-IsOrder (by_key-IsOrder (λ p. p.0) ltb-IsOrder) (by_key-IsOrder (λ p. p.1) fl.order)

  observation-IsConnected : IsConnected observation_lt
  observation-IsConnected = lex-IsConnected ltb-IsConnected fl.connected

  abbrev pub IsProbable : CertaintyMap Float → Type 0
  IsProbable m =
      (q : Coordinate) (c : CellState Float) → cell q m ≡ ok c → IsProbability c.certainty

  observation-newest :
      (c s : CellState Float)
      → IsProbability c.certainty
      → observation (newest_of c s) ≡ pick observation_lt (observation c) (observation s)
  observation-newest c s h = ground (arith, clamp_certainty_id c.certainty h)

  newest-IsProbability :
      (c s : CellState Float) → IsProbability s.certainty → IsProbability (newest_of c s).certainty
  newest-IsProbability c s h = ground (arith, clamp_certainty-IsProbability c.certainty)

  -- What the maps `os`, merged one after the other, leave of an observation of `q`.
  abbrev pub see : Result (CellState Float) → Observation → Observation
  see (ok c) v = pick observation_lt (observation c) v
  see (raise e) v = v

  abbrev pub seen_at : Coordinate → CertaintyMap Float → Observation → Observation
  seen_at q o v = see (cell q o) v

  abbrev pub seen : Coordinate → List (CertaintyMap Float) → Observation → Observation
  seen q [] v = v
  seen q (o ∷ os) v = seen q os (seen_at q o v)

  see_comm :
      (r r' : Result (CellState Float)) (v : Observation) → see r' (see r v) ≡ see r (see r' v)
  see_comm (ok c) (ok d) v =
      pick_left_comm observation_lt observation-IsOrder observation-IsConnected (observation d)
        (observation c) v
  see_comm (ok c) (raise e) v = refl
  see_comm (raise e) r v = refl

  pub seen-Perm :
      (q : Coordinate) {os ps : List (CertaintyMap Float)}
      → Permᴰ os ps
      → (v : Observation) → seen q os v ≡ seen q ps v
  seen-Perm q Permᴰ.nil v = refl
  seen-Perm q (Permᴰ.cons {a = a} {l₂ = l} e p) v =
      seen-Perm q p (seen_at q a v) ∙ ap (λ o. seen q l (seen_at q o v)) e
  seen-Perm q (Permᴰ.swap {a = a} {b = b} {a' = a'} {l = l} e e') v =
      ap (seen q l) (see_comm (cell q a) (cell q b) v)
      ∙ ap (λ o. seen q l (seen_at q a (seen_at q o v))) e'
      ∙ ap (λ o. seen q l (seen_at q o (seen_at q a' v))) e
  seen-Perm q (Permᴰ.trans p p') v = seen-Perm q p v ∙ seen-Perm q p' v

  abbrev pub IsPeerOf : CertaintyMap Float → CertaintyMap Float → Type 0
  IsPeerOf m o = IsSquare o × (o.size ≡ m.size) × IsProbable o

  -- The maps are merged, and each cell has the greatest of the observations.
  pub record Merged (os : List (CertaintyMap Float)) (m m' : CertaintyMap Float) : Type 0 where
    pub square : IsSquare m'
    pub same_size : m'.size ≡ m.size
    pub reads :
        (q : Coordinate) (s : CellState Float)
        → cell q m ≡ ok s
        → (s' : CellState Float) × (cell q m' ≡ ok s')
          × (observation s' ≡ seen q os (observation s))

  abbrev pub merge_all :
      List (CertaintyMap Float) → CertaintyMap Float → Result (CertaintyMap Float)
  merge_all = each merge_timestamped_from

  merge_one :
      (o m : CertaintyMap Float)
      → IsPeerOf m o
      → IsSquare m
      → (m' : CertaintyMap Float) × (merge_timestamped_from o m ≡ ok m') × Merged (o ∷ []) m m'
  merge_one o m (so, e, h) sm =
      let (m', done, p) = merge_timestamped_from-Pointwise o m so sm e in
      (
        m',
        done,
        record {
          square = p.square;
          same_size = p.same_size;
          reads = λ q s k.
              let (c, got) = same_range q o m s so sm e k in
              (
                newest_of c s,
                p.reads q c s got k,
                observation-newest c s (h q c got) ∙ ap (λ r. see r (observation s)) (sym got),
              );
        },
      )

  pub merge_all-Merged :
      (os : List (CertaintyMap Float)) (m : CertaintyMap Float)
      → All (IsPeerOf m) os
      → IsSquare m
      → (m' : CertaintyMap Float) × (merge_all os m ≡ ok m') × Merged os m m'
  unfolding each
  merge_all-Merged [] m v sm =
      (m, refl, record { square = sm; same_size = refl; reads = λ q s h. (s, h, refl) })
  merge_all-Merged (o ∷ os) m v sm =
      let (m1, first, a) = merge_one o m v.0 sm in
      let (m2, rest, b) =
        merge_all-Merged os m1
          (All-mono (IsPeerOf m) (IsPeerOf m1) os (λ p (sp, e, h). (sp, e ∙ sym a.same_size, h))
            v.1)
          a.square in
      (
        m2,
        rw first rest,
        record {
          square = b.square;
          same_size = b.same_size ∙ a.same_size;
          reads = λ q s h.
              let (s1, got1, e1) = a.reads q s h in
              let (s2, got2, e2) = b.reads q s1 got1 in (s2, got2, e2 ∙ ap (seen q os) e1);
        },
      )

  -- Well-formed maps of peers, of one size and with certainties between 0 and 1, can be merged by
  -- time stamp in any order: neither order raises, and each cell of the one result has the time and
  -- the certainty of that cell in the other.
  pub merge_all-perm :
      (os ps : List (CertaintyMap Float)) (m : CertaintyMap Float)
      → Permᴰ os ps
      → All (IsPeerOf m) os
      → All (IsPeerOf m) ps
      → IsSquare m
      → (m1 : CertaintyMap Float) × (m2 : CertaintyMap Float) × (merge_all os m ≡ ok m1)
        × (merge_all ps m ≡ ok m2)
        × ((q : Coordinate) (s : CellState Float)
            → cell q m ≡ ok s
            → (c : CellState Float) × (d : CellState Float) × (cell q m1 ≡ ok c)
              × (cell q m2 ≡ ok d)
              × (observation c ≡ observation d))
  merge_all-perm os ps m p vo vp sm =
      let (m1, done1, a) = merge_all-Merged os m vo sm in
      let (m2, done2, b) = merge_all-Merged ps m vp sm in
      (
        m1,
        m2,
        done1,
        done2,
        λ q s h.
            let (c, got1, e1) = a.reads q s h in
            let (d, got2, e2) = b.reads q s h in
            (c, d, got1, got2, e1 ∙ seen-Perm q p (observation s) ∙ sym e2),
      )

  cell-All :
      (P : CellState Float → Type 0) (q : Coordinate) (m : CertaintyMap Float) (c : CellState Float)
      → All (All P) m.grid
      → cell q m ≡ ok c
      → P c
  cell-All P q m c h e =
      let got = (cell-eq-ok q m c e).0 in
      elim (Option-cases (get_elem? m.grid (pos_part q.1))) [
        | inl out ↦ absurd (ground arith)
        | inr (row, at_row) ↦
            All-get_elem? P row (pos_part q.0) c
              (All-get_elem? (All P) m.grid (pos_part q.1) row h at_row) (ground arith)
      ]

  -- It is enough to look through the rows.
  pub IsProbable-of_All :
      (m : CertaintyMap Float) → All (All λ c. IsProbability c.certainty) m.grid → IsProbable m
  IsProbable-of_All m h q c e = cell-All (λ c. IsProbability c.certainty) q m c h e
