-- ===== src/Base/Arrangement.antt =====
-- What sorting keeps, and that it does not depend on the order of a list whose elements the key tells apart.
use mathlib.Core.Path.{◌≡◌, refl, sym, ap, ap₂, subst, ◌∙◌}
use mathlib.Core.Logic.{inl, inr}
use mathlib.Core.Bool.{Bool, true, ◌||◌}
use mathlib.Core.List.{List, [], ◌∷◌, Permᴰ}
use mathlib.Core.Option.{Option, none, some}
use native.Mathlib.Omega.{arith}
use entropyhunt.Base.Tests.{if◌then◌else◌, Bool-cases}
use entropyhunt.Base.Lists.{get_elem?, All}
use entropyhunt.Base.Order.{IsOrder}
use entropyhunt.Base.Sort.{insert_sorted, sorted, least_from, least, All-insert_sorted, All-sorted}

module _ {ℓ} {A : Type ℓ} (lt : A → A → Bool) where
  pub All-least_from {κ} :
      (P : A → Type κ) (best : A) (xs : List A) → P best → All P xs → P (least_from lt best xs)
  unfolding least_from
  All-least_from P best [] h t = h
  All-least_from P best (x ∷ xs) h t = elim (Bool-cases (lt x best)) [
    | inl less ↦ rw less (All-least_from P x xs t.0 t.1)
    | inr not_less ↦ rw not_less (All-least_from P best xs h t.1)
  ]

  pub All-least {κ} : (P : A → Type κ) (xs : List A) (a : A) → All P xs → least lt xs ≡ some a → P a
  unfolding least
  All-least P [] a t h = cc
  All-least P (x ∷ xs) a t h = subst P (ground arith) (All-least_from P x xs t.0 t.1)

  pub least-eq-none : (xs : List A) → least lt xs ≡ none → xs ≡ []
  unfolding least
  least-eq-none [] h = refl
  least-eq-none (x ∷ xs) h = cc

  All-of_insert_sorted {κ} :
      (P : A → Type κ) (x : A) (xs : List A) → All P (insert_sorted lt x xs) → P x × All P xs
  unfolding insert_sorted
  All-of_insert_sorted P x [] h = h
  All-of_insert_sorted P x (y ∷ ys) h = elim (Bool-cases (lt y x)) [
    | inl less ↦
        let h' : All P (y ∷ insert_sorted lt x ys) = rw less at h in
        let (px, pys) = All-of_insert_sorted P x ys h'.1 in (px, (h'.0, pys))
    | inr not_less ↦ rw not_less at h
  ]

  pub All-of_sorted {κ} : (P : A → Type κ) (xs : List A) → All P (sorted lt xs) → All P xs
  unfolding sorted
  All-of_sorted P [] h = tt
  All-of_sorted P (x ∷ xs) h =
      let (px, pxs) = All-of_insert_sorted P x (sorted lt xs) h in (px, All-of_sorted P xs pxs)

  -- A symmetric relation between any two of the list.
  abbrev pub Pairs {κ} : (A → A → Type κ) → List A → Type κ
  Pairs R [] = Unit
  Pairs R (x ∷ xs) = All (R x) xs × Pairs R xs

  Pairs-insert_sorted {κ} :
      (R : A → A → Type κ) (x : A) (xs : List A)
      → ((a b : A) → R a b → R b a)
      → All (R x) xs
      → Pairs R xs
      → Pairs R (insert_sorted lt x xs)
  unfolding insert_sorted
  Pairs-insert_sorted R x [] turn h t = (tt, tt)
  Pairs-insert_sorted R x (y ∷ ys) turn h t = elim (Bool-cases (lt y x)) [
    | inl less ↦ rw less (
      All-insert_sorted lt (R y) x ys (turn x y h.0) t.0,
      Pairs-insert_sorted R x ys turn h.1 t.1,
    )
    | inr not_less ↦ rw not_less (h, t)
  ]

  pub Pairs-sorted {κ} :
      (R : A → A → Type κ) (xs : List A)
      → ((a b : A) → R a b → R b a)
      → Pairs R xs
      → Pairs R (sorted lt xs)
  unfolding sorted
  Pairs-sorted R [] turn h = tt
  Pairs-sorted R (x ∷ xs) turn h =
      Pairs-insert_sorted R x (sorted lt xs) turn (All-sorted lt (R x) xs h.0)
        (Pairs-sorted R xs turn h.1)

  -- Any two of the list are told apart by the order.
  abbrev pub IsSeparated : List A → Type 0
  IsSeparated [] = Unit
  IsSeparated (x ∷ xs) = All (λ y. (lt x y || lt y x) ≡ true) xs × IsSeparated xs

  abbrev pub Apart : A → A → Type 0
  Apart x y = (lt x y || lt y x) ≡ true

  pub All-perm {κ} : (P : A → Type κ) {xs ys : List A} → Permᴰ xs ys → All P xs → All P ys
  All-perm P Permᴰ.nil h = h
  All-perm P (Permᴰ.cons e p) h = (subst P e h.0, All-perm P p h.1)
  All-perm P (Permᴰ.swap e e') h = (subst P e' h.1.0, (subst P e h.0, h.1.1))
  All-perm P (Permᴰ.trans p p') h = All-perm P p' (All-perm P p h)

  module _ (o : IsOrder lt) where
    insert_sorted_comm :
        (x y : A) (l : List A)
        → Apart x y
        → insert_sorted lt x (insert_sorted lt y l) ≡ insert_sorted lt y (insert_sorted lt x l)
    unfolding insert_sorted
    insert_sorted_comm x y [] h = ground (arith, o.asymm x y, o.asymm y x)
    insert_sorted_comm x y (z ∷ l) h = ground (
      arith,
      insert_sorted_comm x y l h,
      o.asymm x y,
      o.asymm y x,
      o.asymm z x,
      o.asymm z y,
      o.weak z y x,
      o.weak z x y,
      o.weak x z y,
      o.weak y z x,
    )

    IsSeparated-swap : (a b : A) (l : List A) → IsSeparated (a ∷ b ∷ l) → IsSeparated (b ∷ a ∷ l)
    IsSeparated-swap a b l h = ((ground (arith, h.0.0), h.1.0), (h.0.1, h.1.1))

    IsSeparated-perm : {xs ys : List A} → Permᴰ xs ys → IsSeparated xs → IsSeparated ys
    IsSeparated-perm Permᴰ.nil h = h
    IsSeparated-perm (Permᴰ.cons {l₂ = l} e p) h =
        (subst (λ a. All (Apart a) l) e (All-perm (Apart _) p h.0), IsSeparated-perm p h.1)
    IsSeparated-perm (Permᴰ.swap {a = a} {b = b} {b' = b'} {l = l} e e') h =
        subst (λ x. IsSeparated (x ∷ b' ∷ l)) e'
          (subst (λ y. IsSeparated (b ∷ y ∷ l)) e (IsSeparated-swap a b l h))
    IsSeparated-perm (Permᴰ.trans p p') h = IsSeparated-perm p' (IsSeparated-perm p h)

    -- Sorting forgets the order in which elements that are told apart come.
    pub sorted-eq_of_perm :
        {xs ys : List A} → Permᴰ xs ys → IsSeparated xs → sorted lt xs ≡ sorted lt ys
    unfolding sorted
    sorted-eq_of_perm Permᴰ.nil h = refl
    sorted-eq_of_perm (Permᴰ.cons e p) h = ap₂ (insert_sorted lt) e (sorted-eq_of_perm p h.1)
    sorted-eq_of_perm (Permᴰ.swap {a = a} {b = b} {a' = a'} {b' = b'} {l = l} e e') h =
        insert_sorted_comm a b (sorted lt l) h.0.0
        ∙ ap₂ (λ x y. insert_sorted lt x (insert_sorted lt y (sorted lt l))) e' e
    sorted-eq_of_perm (Permᴰ.trans p p') h =
        sorted-eq_of_perm p h ∙ sorted-eq_of_perm p' (IsSeparated-perm p h)

    least_or : A → Option A → A
    least_or b none = b
    least_or b (some l) = if lt l b then l else b

    least_or_assoc :
        (b y : A) (r : Option A)
        → least_or (if lt y b then y else b) r ≡ least_or b (some (least_or y r))
    unfolding least_or
    least_or_assoc b y none = refl
    least_or_assoc b y (some l) = ground (
      arith,
      o.asymm y b,
      o.asymm l y,
      o.asymm l b,
      o.weak l y b,
      o.weak y l b,
      o.weak l b y,
      o.weak b y l,
      o.weak b l y,
      o.weak y b l,
    )

    least_from-least : (b : A) (ys : List A) → least_from lt b ys ≡ least_or b (least lt ys)
    unfolding least least_from
    least_from-least b [] = unfold least_or in refl
    least_from-least b (y ∷ ys) =
        least_from-least (if lt y b then y else b) ys
        ∙ least_or_assoc b y (least lt ys)
        ∙ ap (λ l. least_or b (some l)) (sym (least_from-least y ys))

    head-insert_sorted :
        (x : A) (xs : List A)
        → get_elem? (insert_sorted lt x xs) 0 ≡ some (least_or x (get_elem? xs 0))
    unfolding insert_sorted least_or
    head-insert_sorted x [] = refl
    head-insert_sorted x (y ∷ ys) = ground arith

    -- The first of the sorted list is the least.
    pub head-sorted : (xs : List A) → get_elem? (sorted lt xs) 0 ≡ least lt xs
    unfolding sorted least
    head-sorted [] = refl
    head-sorted (x ∷ xs) =
        head-insert_sorted x (sorted lt xs)
        ∙ ap (λ r. some (least_or x r)) (head-sorted xs)
        ∙ ap some (sym (least_from-least x xs))
