-- ===== src/Partition/Sums.antt =====
-- Sums over the cells of a grid, and the keys of the flood of auction/voronoi.py as numbers.
use entropyhunt.Base.{
  subst, get_elem?-of_lt, All, All-set, All-get_elem?, All-tabulate_from, length-set,
  length-tabulate_from, ◌∙◌, Option-cases, length, get_elem?, set, tabulate_from, tabulate, ℕ, zero,
  suc, ◌+◌, ◌*◌, ◌≤◌, ◌<◌, ◌≡◌, refl, sym, ap, ◌⊎◌, inl, inr, true, some, List, [], ◌∷◌, arith,
  nat_eq, ℕ_discrete,
}
use entropyhunt.Certainty.{grid_get, grid_set}
use entropyhunt.Certainty.Grid.{grid_get-grid_set_self, grid_get-grid_set_ne}
use entropyhunt.Partition.{key_lt}

module _ {A : Type 0} where
  abbrev pub total_row : (A → ℕ) → List A → ℕ
  total_row w [] = 0
  total_row w (x ∷ xs) = w x + total_row w xs

  abbrev pub total : (A → ℕ) → List (List A) → ℕ
  total w [] = 0
  total w (row ∷ rows) = total_row w row + total w rows

  total_row-set :
      (w : A → ℕ) (xs : List A) (i : ℕ) (old v : A)
      → get_elem? xs i ≡ some old
      → total_row w (set xs i v) + w old ≡ total_row w xs + w v
  total_row-set w [] i old v h = cc
  total_row-set w (x ∷ xs) zero old v h = ground arith
  total_row-set w (x ∷ xs) (suc i) old v h = omega (arith, total_row-set w xs i old v h)

  total-set :
      (w : A → ℕ) (rows : List (List A)) (i : ℕ) (old row : List A)
      → get_elem? rows i ≡ some old
      → total w (set rows i row) + total_row w old ≡ total w rows + total_row w row
  total-set w [] i old row h = cc
  total-set w (r ∷ rs) zero old row h = ground arith
  total-set w (r ∷ rs) (suc i) old row h = omega (arith, total-set w rs i old row h)

  -- A write changes the sum by what it replaces.
  pub total-grid_set :
      (w : A → ℕ) (g : List (List A)) (x y : ℕ) (old v : A)
      → grid_get g x y ≡ some old
      → total w (grid_set g x y v) + w old ≡ total w g + w v
  total-grid_set w g x y old v h = elim (Option-cases (get_elem? g y)) [
    | inl e ↦ ground arith
    | inr (row, e) ↦
        let inner = total_row-set w row x old v (ground arith) in
        let outer = total-set w g y row (set row x v) e in
        rw (e, grid_set) (omega (arith, inner, outer))
  ]

  total_row_mono :
      (w w' : A → ℕ) (xs : List A) → ((a : A) → w a ≤ w' a) → total_row w xs ≤ total_row w' xs
  total_row_mono w w' [] h = omega arith
  total_row_mono w w' (x ∷ xs) h = omega (arith, h x, total_row_mono w w' xs h)

  pub total_mono :
      (w w' : A → ℕ) (g : List (List A)) → ((a : A) → w a ≤ w' a) → total w g ≤ total w' g
  total_mono w w' [] h = omega arith
  total_mono w w' (r ∷ rs) h = omega (arith, total_row_mono w w' r h, total_mono w w' rs h)

  -- As many rows as columns.
  abbrev pub IsSquare : ℕ → List (List A) → Type 0
  IsSquare size g = (length g ≡ size) × All (λ row. length row ≡ size) g

  pub grid_set-IsSquare :
      (size : ℕ) (g : List (List A)) (x y : ℕ) (v : A)
      → IsSquare size g
      → IsSquare size (grid_set g x y v)
  grid_set-IsSquare size g x y v h = elim (Option-cases (get_elem? g y)) [
    | inl e ↦ rw (e, grid_set) h
    | inr (row, e) ↦
        rw (e, grid_set)
          (
            length-set g y (set row x v) ∙ h.0,
            All-set _ g y (set row x v) h.1
                (length-set row x v ∙ All-get_elem? (λ row. length row ≡ size) g y row h.1 e),
          )
  ]

  pub tabulate-IsSquare :
      (size : ℕ) (a : A) → IsSquare size (tabulate size (λ _. tabulate size (λ _. a)))
  tabulate-IsSquare size a = (
    length-tabulate_from 0 size (λ _. tabulate size (λ _. a)),
    All-tabulate_from (λ row. length row ≡ size) 0 size (λ _. tabulate size (λ _. a))
        (λ i low high. length-tabulate_from 0 size (λ _. a)),
  )

  pub IsSquare-get :
      (size : ℕ) (g : List (List A)) (x y : ℕ)
      → IsSquare size g
      → x < size
      → y < size
      → (a : A) × (grid_get g x y ≡ some a)
  IsSquare-get size g x y square in_x in_y =
      let (row, e) = get_elem?-of_lt g y (subst (λ n. y < n) (sym square.0) in_y) in
      let wide = All-get_elem? (λ row. length row ≡ size) g y row square.1 e in
      let (a, at) = get_elem?-of_lt row x (subst (λ n. x < n) (sym wide) in_x) in
      (a, rw (e, grid_get) at)

  -- A place that is read is in a row.
  pub grid_get-row :
      (g : List (List A)) (x y : ℕ) (a : A)
      → grid_get g x y ≡ some a
      → (row : List A) × (get_elem? g y ≡ some row) × (get_elem? row x ≡ some a)
  grid_get-row g x y a h = elim (Option-cases (get_elem? g y)) [
    | inl e ↦ ground arith
    | inr (row, e) ↦ (row, e, ground arith)
  ]

  -- After a write a place holds what was written there, or what it held before.
  pub grid_get-grid_set :
      (g : List (List A)) (x y x' y' : ℕ) (old v : A)
      → grid_get g x y ≡ some old
      → ((x ≡ x') × (y ≡ y') × (grid_get (grid_set g x y v) x' y' ≡ some v))
        ⊎ (grid_get (grid_set g x y v) x' y' ≡ grid_get g x' y')
  grid_get-grid_set g x y x' y' old v h = elim (ℕ_discrete x x') [
    | no d ↦ inr (grid_get-grid_set_ne g x y x' y' v (inl d))
    | yes p ↦ elim (ℕ_discrete y y') [
      | no d ↦ inr (grid_get-grid_set_ne g x y x' y' v (inr d))
      | yes q ↦ inl (p, q, rw (sym p, sym q) (grid_get-grid_set_self g x y old v h))
    ]
  ]

  list_ext :
      (xs ys : List A)
      → length xs ≡ length ys
      → ((i : ℕ) → i < length xs → get_elem? xs i ≡ get_elem? ys i)
      → xs ≡ ys
  list_ext [] [] n h = refl
  list_ext [] (y ∷ ys) n h = absurd (omega arith)
  list_ext (x ∷ xs) [] n h = absurd (omega arith)
  list_ext (x ∷ xs) (y ∷ ys) n h =
      let here : some x ≡ some y = h 0 (omega arith) in
      let rest : xs ≡ ys =
        list_ext xs ys (omega arith) (λ i below. h (suc i) (omega (arith, below))) in
      cc (here, rest)

  row_of : (w : A → ℕ) (s n : ℕ) (a : A) → total_row w (tabulate_from s n (λ _. a)) ≡ n * w a
  row_of w s zero a = omega arith
  row_of w s (suc n) a = omega (arith, row_of w (suc s) n a)

  rows_of :
      (w : A → ℕ) (s n m : ℕ) (a : A)
      → total w (tabulate_from s n (λ _. tabulate m (λ _. a))) ≡ n * (m * w a)
  rows_of w s zero m a = omega arith
  rows_of w s (suc n) m a = omega (arith, row_of w 0 m a, rows_of w (suc s) n m a)

  pub total-tabulate :
      (w : A → ℕ) (n : ℕ) (a : A) → total w (tabulate n (λ _. tabulate n (λ _. a))) ≡ n * (n * w a)
  total-tabulate w n a = rows_of w 0 n n a

-- Square grids of one size that hold the same are equal.
pub grid_ext :
    {A : Type 0} (size : ℕ) (g g' : List (List A))
    → IsSquare size g
    → IsSquare size g'
    → ((x y : ℕ) → x < size → y < size → grid_get g x y ≡ grid_get g' x y)
    → g ≡ g'
grid_ext size g g' square square' same = list_ext g g' (square.0 ∙ sym square'.0) (λ y in_g.
    let in_y : y < size = subst (λ n. y < n) square.0 in_g in
    let (row, e) = get_elem?-of_lt g y in_g in
    let (row', e') = get_elem?-of_lt g' y (subst (λ n. y < n) (sym square'.0) in_y) in
    let wide = All-get_elem? (λ row. length row ≡ size) g y row square.1 e in
    let wide' = All-get_elem? (λ row. length row ≡ size) g' y row' square'.1 e' in
    let rows : row ≡ row' =
      list_ext row row' (wide ∙ sym wide')
        (λ x in_row. let at = same x y (subst (λ n. x < n) wide in_row) in_y in ground (arith)) in
    e ∙ ap some rows ∙ sym e')

pub step_le : (d d' n : ℕ) → d < d' → d * n + n ≤ d' * n
step_le zero (suc d') n h = omega arith
step_le (suc d) (suc d') n h = omega (arith, step_le d d' n (omega arith))
step_le d zero n h = omega arith

-- A smaller key is a smaller number.
pub key_lt-number : (d t d' t' n : ℕ) → key_lt d t d' t' ≡ true → t < n → d * n + t < d' * n + t'
key_lt-number d t d' t' n h below = elim (ℕ_discrete d d') [
  | yes p ↦ ground (arith, p)
  | no ne ↦ let less : d < d' = ground arith in omega (arith, step_le d d' n less)
]
