-- ===== src/Partition/Borders.antt =====
-- Which cells are at a border: `boundary_cells` of auction/voronoi.py.
use entropyhunt.Base.{
  Among, Among-append, All-Among, if◌then◌else◌, Bool-cases, any, All, All-append, All-mono, ltb,
  ok, each, pos, Coordinate, ltb→lt, lt→ltb, ℕ, ◌+◌, ◌-◌, ◌<◌, String, ◌≡◌, refl, sym, ap, subst,
  ◌∙◌, ◌⊎◌, inl, inr, Bool, true, false, not, Option, some, List, [], ◌∷◌, ◌++◌, map, arith,
  string_eq, nat_eq, dec_lt, ◌↔◌,
}
use entropyhunt.Base.Sort.{sorted}
use entropyhunt.Certainty.{grid_get}
use entropyhunt.Partition.Sums.{IsSquare, IsSquare-get}
use entropyhunt.Partition.Flood.{away}
use entropyhunt.Partition.Grouping.{
  Owners, same_owner, neighbor_if, neighbors_of, note_boundary, place_lt, boundaries_of, grid,
  boundary_cells,
}
use entropyhunt.Partition.Elements.{
  IsBorder, Among-right, Among-sorted, Among-map, as_coordinate, Among-of_map, same_owner-true,
  same_owner_refl, any-of_Among, Among-of_any, places, places-AreInside, Among-places, one_more,
  width_of-IsSquare,
}

module _ (size : ℕ) (owners : Owners) (square : IsSquare size owners) where
  -- What a place holds that is read where a test holds.
  neighbor_if-answers :
      (within : Bool) (x y : ℕ)
      → (within ≡ true → (x < size) × (y < size))
      → (found : List (Option String)) × (neighbor_if within owners x y ≡ ok found)
        × All (λ o. (within ≡ true) × (grid_get owners x y ≡ some o)) found
        × ((o : Option String) → within ≡ true → grid_get owners x y ≡ some o → Among o found)
  neighbor_if-answers false x y at = ([], refl, tt, λ o h e. cc)
  neighbor_if-answers true x y at =
      let (o, e) = IsSquare-get size owners x y square (at refl).0 (at refl).1 in
      (o ∷ [], ground arith, ((refl, e), tt), λ o' h e'. inl (cc (e, e')))

  -- A place beside another one.
  abbrev Beside : ℕ → ℕ → Option String → Type 0
  Beside x y o =
      (x' : ℕ) × (y' : ℕ) × (away x x' + away y y' ≡ 1)
      × (x' < size)
      × (y' < size)
      × (grid_get owners x' y' ≡ some o)

  neighbors_of-answers :
      (x y : ℕ)
      → x < size
      → y < size
      → (found : List (Option String)) × (neighbors_of size size owners x y ≡ ok found)
        × All (Beside x y) found
        × ((o : Option String) → Beside x y o → Among o found)
  neighbors_of-answers x y in_x in_y =
      let (l, l_e, l_all, l_has) =
        neighbor_if-answers (ltb 0 x) (x - 1) y (λ h. (omega (arith, in_x), in_y)) in
      let (r, r_e, r_all, r_has) =
        neighbor_if-answers (ltb (x + 1) size) (x + 1) y (λ h. (ltb→lt (x + 1) size h, in_y)) in
      let (a, a_e, a_all, a_has) =
        neighbor_if-answers (ltb 0 y) x (y - 1) (λ h. (in_x, omega (arith, in_y))) in
      let (b, b_e, b_all, b_has) =
        neighbor_if-answers (ltb (y + 1) size) x (y + 1) (λ h. (in_x, ltb→lt (y + 1) size h)) in
      let l_beside : All (Beside x y) l =
        All-mono _ _ l
          (λ o (h, e).
            let more = ltb→lt 0 x h in
            (x - 1, y, omega (arith, more), omega (arith, in_x), in_y, e))
          l_all in
      let r_beside : All (Beside x y) r =
        All-mono _ _ r (λ o (h, e). (x + 1, y, omega arith, ltb→lt (x + 1) size h, in_y, e))
          r_all in
      let a_beside : All (Beside x y) a =
        All-mono _ _ a
          (λ o (h, e).
            let more = ltb→lt 0 y h in
            (x, y - 1, omega (arith, more), in_x, omega (arith, in_y), e))
          a_all in
      let b_beside : All (Beside x y) b =
        All-mono _ _ b (λ o (h, e). (x, y + 1, omega arith, in_x, ltb→lt (y + 1) size h, e))
          b_all in
      (
        l ++ r ++ a ++ b,
        rw (neighbors_of, l_e, r_e, a_e, b_e) refl,
        All-append _ (l ++ r ++ a) b
            (All-append _ (l ++ r) a (All-append _ l r l_beside r_beside) a_beside) b_beside,
        λ o (x', y', near, in_x', in_y', e).
            let at : (i j : ℕ) → x' ≡ i → y' ≡ j → grid_get owners i j ≡ some o =
              λ i j p q. rw (sym p, sym q) e in
            elim (dec_lt x' x) [
              | yes less ↦
                  let here =
                    l_has o (lt→ltb 0 x (omega (arith, less)))
                      (at (x - 1) y (omega (arith, near, less)) (omega (arith, near, less))) in
                  Among-append o (l ++ r ++ a) b
                    (Among-append o (l ++ r) a (Among-append o l r here))
              | no not_less ↦ elim (dec_lt x x') [
                | yes more ↦
                    let here =
                      r_has o (lt→ltb (x + 1) size (omega (arith, more, in_x')))
                        (at (x + 1) y (omega (arith, near, more)) (omega (arith, near, more))) in
                    Among-append o (l ++ r ++ a) b
                      (Among-append o (l ++ r) a (Among-right o l r here))
                | no same ↦ elim (dec_lt y' y) [
                  | yes less ↦
                      let here =
                        a_has o (lt→ltb 0 y (omega (arith, less)))
                          (at x (y - 1) (omega arith) (omega (arith, near, less))) in
                      Among-append o (l ++ r ++ a) b (Among-right o (l ++ r) a here)
                  | no not_above ↦
                      let more : y' ≡ y + 1 = omega (arith, near) in
                      let here =
                        b_has o (lt→ltb (y + 1) size (omega (arith, more, in_y')))
                          (at x (y + 1) (omega arith) more) in
                      Among-right o (l ++ r ++ a) b here
                ]
              ]
            ],
      )

  note_boundary-answers :
      (x y : ℕ) (found : List (ℕ × ℕ))
      → x < size
      → y < size
      → (is : Bool) × (note_boundary size size owners (x, y) found
          ≡ ok (if is then (x, y) ∷ found else found))
        × (is ≡ true ↔ IsBorder size owners x y)
  unfolding note_boundary
  note_boundary-answers x y found in_x in_y =
      let (o, e) = IsSquare-get size owners x y square in_x in_y in
      let (ns, ns_e, beside, complete) = neighbors_of-answers x y in_x in_y in
      let differs : Option String → Bool = λ n. not (same_owner n o) in
      (
        any differs ns,
        rw (e, ns_e) refl,
        (
          λ h.
              let (n, among, d) = Among-of_any differs ns h in
              let (x', y', near, in_x', in_y', at) = All-Among (Beside x y) ns n beside among in
              (
                x',
                y',
                near,
                in_x',
                in_y',
                λ same.
                    let equal : n ≡ o = cc (at, e, same) in
                    let seen : same_owner n o ≡ true = rw equal (same_owner_refl o) in cc (d, seen),
              ),
          λ (x', y', near, in_x', in_y', other).
              let (n, at) = IsSquare-get size owners x' y' square in_x' in_y' in
              any-of_Among differs n ns (complete n (x', y', near, in_x', in_y', at))
                (elim (Bool-cases (same_owner n o)) [
                  | inl equal ↦ absurd (other (at ∙ ap some (same_owner-true n o equal) ∙ sym e))
                  | inr differ ↦ rw differ refl
                ]),
        ),
      )

  noted :
      (ps found : List (ℕ × ℕ))
      → All (λ p. (p.0 < size) × (p.1 < size)) ps
      → (done : List (ℕ × ℕ)) × (each (note_boundary size size owners) ps found ≡ ok done)
        × ((p : ℕ × ℕ) → Among p done → Among p found ⊎ (Among p ps × IsBorder size owners p.0 p.1))
        × ((p : ℕ × ℕ) → Among p found → Among p done)
        × ((p : ℕ × ℕ) → Among p ps → IsBorder size owners p.0 p.1 → Among p done)
  unfolding each
  noted [] found inside = (found, refl, λ p h. inl h, λ p h. h, λ p h. elim h [ ])
  noted ((x, y) ∷ ps) found inside =
      let (is, e, border) = note_boundary-answers x y found inside.0.0 inside.0.1 in
      let next = if is then (x, y) ∷ found else found in
      let (done, e', sound, kept, complete) = noted ps next inside.1 in
      let (before, keeps, adds) = one_more is (x, y) found in
      (
        done,
        rw e e',
        λ p h. elim (sound p h) [
          | inr (later, b) ↦ inr (inr later, b)
          | inl now ↦ elim (before p now) [
            | inl old ↦ inl old
            | inr (same, yes_is) ↦
                inr
                  (inl same, subst (λ p. IsBorder size owners p.0 p.1) (sym same) (border.0 yes_is))
          ]
        ],
        λ p h. kept p (keeps p h),
        λ p h b. elim h [
          | inr later ↦ complete p later b
          | inl same ↦
              kept p (adds p same (border.1 (subst (λ p. IsBorder size owners p.0 p.1) same b)))
        ],
      )

-- On a square grid of owners `boundary_cells` does not raise, and a cell of the grid is among its
-- cells exactly when some cell of the grid at distance one from it has another owner, or has an
-- owner where it has none, or none where it has one.
pub boundary_cells-AreBorders :
    (size : ℕ) (owners : Owners) (given : Option ℕ) (x y : ℕ)
    → IsSquare size owners
    → x < size
    → y < size
    → (found : List Coordinate) × (boundary_cells (grid owners) given ≡ ok found)
      × (Among (pos x, pos y) found ↔ IsBorder size owners x y)
unfolding boundary_cells boundaries_of
boundary_cells-AreBorders size owners given x y square in_x in_y =
    let (done, e, sound, kept, complete) =
      noted size owners square (places size) [] (places-AreInside size) in
    (
      map as_coordinate (sorted place_lt done),
      rw (square.0, width_of-IsSquare size owners square, e) refl,
      (
        λ h.
            elim (sound (x, y)
              ((Among-sorted place_lt (x, y) done).0
                (Among-of_map (x, y) (sorted place_lt done) h))) [
                  | inl nothing ↦ elim nothing [ ]
                  | inr (_, border) ↦ border
                ],
        λ border.
            Among-map as_coordinate (x, y) (sorted place_lt done)
              ((Among-sorted place_lt (x, y) done).1
                (complete (x, y) (Among-places size x y in_x in_y) border)),
      ),
    )
