-- ===== src/Base/Sort.antt =====
-- `sorted` and `min` with a key, on lists. Both are stable: of equal keys the earlier comes first.
use Prim.Native.Nat.{suc}
use mathlib.Core.Path.{◌≡◌, refl, sym, ap, ◌∙◌}
use mathlib.Core.Logic.{inl, inr}
use mathlib.Core.Bool.{Bool, false}
use mathlib.Core.List.{List, [], ◌∷◌, Perm}
use mathlib.Core.List.Perm
use mathlib.Core.Option.{Option, none, some}
use native.Mathlib.Omega.{arith}
use entropyhunt.Base.Tests.{if◌then◌else◌, Bool-cases}
use entropyhunt.Base.Lists.{length, All}
use entropyhunt.Base.Order.{IsOrder}

module _ {ℓ} {A : Type ℓ} (lt : A → A → Bool) where
  unfoldable pub insert_sorted : A → List A → List A
  insert_sorted x [] = x ∷ []
  insert_sorted x (y ∷ ys) = if lt y x then y ∷ insert_sorted x ys else x ∷ y ∷ ys

  unfoldable pub sorted : List A → List A
  unfolding insert_sorted
  sorted [] = []
  sorted (x ∷ xs) = insert_sorted x (sorted xs)

  unfoldable pub least_from : A → List A → A
  least_from best [] = best
  least_from best (x ∷ xs) = least_from (if lt x best then x else best) xs

  -- `min(xs, key=…, default=None)`
  unfoldable pub least : List A → Option A
  unfolding least_from
  least [] = none
  least (x ∷ xs) = some (least_from x xs)

  -- Nothing in the list is less than `a`.
  abbrev pub IsBelow : A → List A → Type 0
  IsBelow a = All λ x. lt x a ≡ false

  abbrev pub IsSorted : List A → Type 0
  IsSorted [] = Unit
  IsSorted (x ∷ xs) = IsBelow x xs × IsSorted xs

  insert_sorted-perm : (x : A) (xs : List A) → Perm (insert_sorted x xs) (x ∷ xs)
  unfolding insert_sorted
  insert_sorted-perm x [] = Perm.rfl
  insert_sorted-perm x (y ∷ ys) = elim (Bool-cases (lt y x)) [
    | inl less ↦ rw less (Perm.trans (Perm.cons y (insert_sorted-perm x ys)) (Perm.swap x y ys))
    | inr not_less ↦ rw not_less Perm.rfl
  ]

  pub sorted-perm : (xs : List A) → Perm (sorted xs) xs
  unfolding sorted
  sorted-perm [] = Perm.rfl
  sorted-perm (x ∷ xs) =
      Perm.trans (insert_sorted-perm x (sorted xs)) (Perm.cons x (sorted-perm xs))

  length-insert_sorted : (x : A) (xs : List A) → length (insert_sorted x xs) ≡ suc (length xs)
  unfolding insert_sorted
  length-insert_sorted x [] = refl
  length-insert_sorted x (y ∷ ys) = ground (arith, length-insert_sorted x ys)

  pub length-sorted : (xs : List A) → length (sorted xs) ≡ length xs
  unfolding sorted
  length-sorted [] = refl
  length-sorted (x ∷ xs) = omega (arith, length-insert_sorted x (sorted xs), length-sorted xs)

  pub All-insert_sorted {κ} :
      (P : A → Type κ) (x : A) (xs : List A) → P x → All P xs → All P (insert_sorted x xs)
  unfolding insert_sorted
  All-insert_sorted P x [] h t = (h, tt)
  All-insert_sorted P x (y ∷ ys) h t = elim (Bool-cases (lt y x)) [
    | inl less ↦ rw less (t.0, All-insert_sorted P x ys h t.1)
    | inr not_less ↦ rw not_less (h, t)
  ]

  pub All-sorted {κ} : (P : A → Type κ) (xs : List A) → All P xs → All P (sorted xs)
  unfolding sorted
  All-sorted P [] h = tt
  All-sorted P (x ∷ xs) h = All-insert_sorted P x (sorted xs) h.0 (All-sorted P xs h.1)

  module _ (o : IsOrder lt) where
    IsBelow-mono : (a b : A) (xs : List A) → lt b a ≡ false → IsBelow b xs → IsBelow a xs
    IsBelow-mono a b [] h t = tt
    IsBelow-mono a b (x ∷ xs) h t = (o.weak x b a t.0 h, IsBelow-mono a b xs h t.1)

    insert_sorted-IsSorted : (x : A) (xs : List A) → IsSorted xs → IsSorted (insert_sorted x xs)
    unfolding insert_sorted
    insert_sorted-IsSorted x [] s = (tt, tt)
    insert_sorted-IsSorted x (y ∷ ys) s = elim (Bool-cases (lt y x)) [
      | inl less ↦ rw less (
        All-insert_sorted (λ z. lt z y ≡ false) x ys (o.asymm y x less) s.0,
        insert_sorted-IsSorted x ys s.1,
      )
      | inr not_less ↦ rw not_less ((not_less, IsBelow-mono x y ys not_less s.0), s)
    ]

    pub sorted-IsSorted : (xs : List A) → IsSorted (sorted xs)
    unfolding sorted
    sorted-IsSorted [] = tt
    sorted-IsSorted (x ∷ xs) = insert_sorted-IsSorted x (sorted xs) (sorted-IsSorted xs)

    least_from-IsBelow : (best a : A) (xs : List A) → least_from best xs ≡ a → IsBelow a (best ∷ xs)
    unfolding least_from
    least_from-IsBelow best a [] h = (ground (arith, o.asymm best best), tt)
    least_from-IsBelow best a (x ∷ xs) h =
        let step = λ (b : Bool). least_from (if b then x else best) xs in
        elim (Bool-cases (lt x best)) [
          | inl less ↦
              let (here, there) = least_from-IsBelow x a xs (ap step (sym less) ∙ h) in
              (o.weak best x a (o.asymm x best less) here, (here, there))
          | inr not_less ↦
              let (here, there) = least_from-IsBelow best a xs (ap step (sym not_less) ∙ h) in
              (here, (o.weak x best a not_less here, there))
        ]

    -- Nothing is less than the least element.
    pub least-IsBelow : (xs : List A) (a : A) → least xs ≡ some a → IsBelow a xs
    unfolding least
    least-IsBelow [] a h = tt
    least-IsBelow (x ∷ xs) a h = least_from-IsBelow x a xs (ground arith)
