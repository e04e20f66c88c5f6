-- ===== src/Partition/Elements.antt =====
-- What is in the lists that `boundary_cells` of auction/voronoi.py goes through and collects.
use entropyhunt.Base.{
  All-self, Among, Among-append, All-Among, flatten, tabulate, tabulate_from, if◌then◌else◌,
  Bool-cases, any, All, All-append, All-tabulate_from, pos, Coordinate, ℕ, zero, suc, ◌+◌, ◌<◌, ◌≤◌,
  String, ◌≡◌, refl, ap, subst, ◌⊎◌, inl, inr, Bool, true, false, Option, none, some, List, [], ◌∷◌,
  ◌++◌, map, arith, string_eq, nat_eq, ℕ_discrete, ◌↔◌, ◌≢◌,
}
use entropyhunt.Base.Int.{pos_part}
use entropyhunt.Base.Arrangement.{All-of_sorted}
use entropyhunt.Base.Sort.{sorted, All-sorted}
use entropyhunt.Certainty.{grid_get}
use entropyhunt.Partition.Sums.{IsSquare}
use entropyhunt.Partition.Flood.{away}
use entropyhunt.Partition.Grouping.{Owners, same_owner, width_of}

-- The place has a place beside it that has another owner.
abbrev pub IsBorder : ℕ → Owners → ℕ → ℕ → Type 0
IsBorder size owners x y =
    (x' : ℕ) × (y' : ℕ) × (away x x' + away y y' ≡ 1)
    × (x' < size)
    × (y' < size)
    × (grid_get owners x' y' ≢ grid_get owners x y)

pub Among-right : {A : Type 0} (x : A) (xs ys : List A) → Among x ys → Among x (xs ++ ys)
Among-right x [] ys h = h
Among-right x (y ∷ xs) ys h = inr (Among-right x xs ys h)

-- Sorting keeps the elements.
pub Among-sorted :
    {A : Type 0} (lt : A → A → Bool) (x : A) (xs : List A) → Among x (sorted lt xs) ↔ Among x xs
Among-sorted lt x xs = (
  All-Among (λ a. Among a xs) (sorted lt xs) x (All-sorted lt _ xs (All-self xs)),
  All-Among (λ a. Among a (sorted lt xs)) xs x (All-of_sorted lt _ xs (All-self (sorted lt xs))),
)

pub Among-map :
    {A B : Type 0} (f : A → B) (x : A) (xs : List A) → Among x xs → Among (f x) (map f xs)
Among-map f x (y ∷ xs) (inl e) = inl (ap f e)
Among-map f x (y ∷ xs) (inr h) = inr (Among-map f x xs h)
Among-map f x [] h = elim h [ ]

abbrev pub as_coordinate : ℕ × ℕ → Coordinate
as_coordinate p = (pos p.0, pos p.1)

pub Among-of_map :
    (p : ℕ × ℕ) (ps : List (ℕ × ℕ)) → Among (as_coordinate p) (map as_coordinate ps) → Among p ps
Among-of_map p [] h = elim h [ ]
Among-of_map p (q ∷ ps) (inl e) = inl (ap (λ c. (pos_part c.0, pos_part c.1)) e)
Among-of_map p (q ∷ ps) (inr h) = inr (Among-of_map p ps h)

pub same_owner-true : (o o' : Option String) → same_owner o o' ≡ true → o ≡ o'
same_owner-true none none h = refl
same_owner-true none (some b) h = cc
same_owner-true (some a) none h = cc
same_owner-true (some a) (some b) h = ap some (ground arith)

pub same_owner_refl : (o : Option String) → same_owner o o ≡ true
same_owner_refl none = refl
same_owner_refl (some a) = ground arith

-- `any` and the list.
pub any-of_Among :
    {A : Type 0} (p : A → Bool) (x : A) (xs : List A) → Among x xs → p x ≡ true → any p xs ≡ true
any-of_Among p x [] h e = elim h [ ]
any-of_Among p x (y ∷ xs) (inl same) e =
    let here : p y ≡ true = subst (λ a. p a ≡ true) same e in ground (arith)
any-of_Among p x (y ∷ xs) (inr h) e = let later = any-of_Among p x xs h e in ground (arith)

pub Among-of_any :
    {A : Type 0} (p : A → Bool) (xs : List A)
    → any p xs ≡ true
    → (x : A) × Among x xs × (p x ≡ true)
Among-of_any p [] h = cc
Among-of_any p (x ∷ xs) h = elim (Bool-cases (p x)) [
  | inl hit ↦ (x, inl refl, hit)
  | inr miss ↦ let (y, among, e) = Among-of_any p xs (ground arith) in (y, inr among, e)
]

Among-tabulate_from :
    {A : Type 0} (s n i : ℕ) (f : ℕ → A) → s ≤ i → i < s + n → Among (f i) (tabulate_from s n f)
Among-tabulate_from s zero i f low high = absurd (omega arith)
Among-tabulate_from s (suc n) i f low high = elim (ℕ_discrete i s) [
  | yes same ↦ inl (ap f same)
  | no later ↦ inr (Among-tabulate_from (suc s) n i f (omega arith) (omega arith))
]

Among-flatten :
    {A : Type 0} (x : A) (row : List A) (rows : List (List A))
    → Among row rows
    → Among x row
    → Among x (flatten rows)
unfolding flatten
Among-flatten x row [] h k = elim h [ ]
Among-flatten x row (r ∷ rows) (inl same) k =
    Among-append x r (flatten rows) (subst (Among x) same k)
Among-flatten x row (r ∷ rows) (inr h) k =
    Among-right x r (flatten rows) (Among-flatten x row rows h k)

All-flatten :
    {A : Type 0} (P : A → Type 0) (rows : List (List A)) → All (All P) rows → All P (flatten rows)
unfolding flatten
All-flatten P [] h = tt
All-flatten P (row ∷ rows) h = All-append P row (flatten rows) h.0 (All-flatten P rows h.1)

abbrev pub places : ℕ → List (ℕ × ℕ)
places size = flatten (tabulate size λ y. tabulate size λ x. (x, y))

pub places-AreInside : (size : ℕ) → All (λ p. (p.0 < size) × (p.1 < size)) (places size)
places-AreInside size = All-flatten _ (tabulate size λ y. tabulate size λ x. (x, y)) (
    All-tabulate_from (All λ p. (p.0 < size) × (p.1 < size)) 0 size (λ y. tabulate size λ x. (x, y))
      (λ y low high.
        All-tabulate_from (λ p. (p.0 < size) × (p.1 < size)) 0 size (λ x. (x, y))
          (λ x low' high'. (omega arith, omega arith))))

pub Among-places : (size x y : ℕ) → x < size → y < size → Among (x, y) (places size)
Among-places size x y in_x in_y =
    Among-flatten (x, y) (tabulate size λ x. (x, y)) (tabulate size λ y. tabulate size λ x. (x, y))
      (Among-tabulate_from 0 size y (λ y. tabulate size λ x. (x, y)) (omega arith) (omega arith))
      (Among-tabulate_from 0 size x (λ x. (x, y)) (omega arith) (omega arith))

-- What a list has after an element was added or not.
pub one_more :
    (is : Bool) (q : ℕ × ℕ) (found : List (ℕ × ℕ))
    → ((p : ℕ × ℕ)
        → Among p (if is then q ∷ found else found)
        → Among p found ⊎ ((p ≡ q) × (is ≡ true)))
      × ((p : ℕ × ℕ) → Among p found → Among p (if is then q ∷ found else found))
      × ((p : ℕ × ℕ) → p ≡ q → is ≡ true → Among p (if is then q ∷ found else found))
one_more false q found = (λ p h. inl h, λ p h. h, λ p e h. cc h)
one_more true q found = (
  λ p h. elim h [ inl same ↦ inr (same, refl) | inr old ↦ inl old ],
  λ p h. inr h,
  λ p e h. inl e,
)

pub width_of-IsSquare : (size : ℕ) (owners : Owners) → IsSquare size owners → width_of owners ≡ size
width_of-IsSquare size [] square = square.0
width_of-IsSquare size (row ∷ rows) square = square.1.0
