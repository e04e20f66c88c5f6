-- ===== src/Partition/Places.antt =====
-- The places that the loops of `ownership_grid` in auction/voronoi.py look at.
use entropyhunt.Base.{
  get_elem?, All, ℤ, pos, negsuc, Coordinate, ℕ, zero, suc, ◌+◌, ◌≤◌, ◌<◌, ◌≡◌, refl, ap, subst,
  ◌⊎◌, inl, inr, true, false, some, List, [], ◌∷◌, arith, nat_eq,
}
use entropyhunt.Base.Int.{◌+ℤ◌, pos_part, neg_part, +ℤ_parts}
use entropyhunt.Partition.{Label, Entry, LabelGrid, inside, label_at, moves, shifted, is_outdated}
use entropyhunt.Partition.Flood.{away}
use entropyhunt.Partition.Claiming.{some-injective, entry_of}

pub inside_bounds :
    (size : ℕ) (p : Coordinate) (x y : ℕ)
    → inside size p ≡ some (x, y)
    → (x < size) × (y < size) × (p ≡ (pos x, pos y))
unfolding inside
inside_bounds size (pos a, pos b) x y h = ground arith
inside_bounds size (pos a, negsuc b) x y h = cc
inside_bounds size (negsuc a, b) x y h = cc

-- A move leads to a neighbour.
abbrev pub IsMove : Coordinate → Type 0
IsMove move = (e : Entry) (x y : ℕ) → shifted e move ≡ (pos x, pos y) → away e.x x + away e.y y ≤ 1

-- A sum that is not negative, with one that is at most one away from zero.
near_sum : (a x : ℕ) (b : ℤ) → pos a +ℤ b ≡ pos x → away a x ≤ pos_part b + neg_part b
near_sum a x b h = ground (arith, +ℤ_parts (pos a) b)

unit-IsMove :
    (dx dy : ℤ) → pos_part dx + neg_part dx + (pos_part dy + neg_part dy) ≤ 1 → IsMove (dx, dy)
unit-IsMove dx dy unit e x y h =
    omega (arith, near_sum e.x x dx (ap (λ p. p.0) h), near_sum e.y y dy (ap (λ p. p.1) h), unit)

pub moves-AreMoves : All IsMove moves
moves-AreMoves = (
  unit-IsMove (pos 0) (pos 1) (omega arith),
  (
    unit-IsMove (pos 0) (negsuc 0) (omega arith),
    (unit-IsMove (pos 1) (pos 0) (omega arith), (unit-IsMove (negsuc 0) (pos 0) (omega arith), tt)),
  ),
)

-- What holds of the first element and of the others holds at every index.
pub at_index :
    {A : Type 0} (P : ℕ → A → Type 0) (x : A) (xs : List A)
    → P 0 x
    → ((k : ℕ) (a : A) → get_elem? xs k ≡ some a → P (suc k) a)
    → (k : ℕ) (a : A) → get_elem? (x ∷ xs) k ≡ some a
    → P k a
at_index P x xs here there zero a h = subst (P 0) (some-injective h) here
at_index P x xs here there (suc k) a h = there k a h

pub entry_of-IsCurrent :
    (e : Entry) (x y : ℕ) (label : Label) (grid : LabelGrid)
    → entry_of x y label ≡ e
    → label_at grid x y ≡ some label
    → is_outdated e (label_at grid e.x e.y) ≡ false
entry_of-IsCurrent e x y label grid same h =
    subst (λ e. is_outdated e (label_at grid e.x e.y) ≡ false) same (rw h (ground arith))

pub List-cases :
    {A : Type 0} (xs : List A) → (xs ≡ []) ⊎ ((x : A) × (rest : List A) × (xs ≡ x ∷ rest))
List-cases [] = inl refl
List-cases (x ∷ xs) = inr (x, xs, refl)

pub true≢false : ¬ (true ≡ false)
true≢false h = cc
