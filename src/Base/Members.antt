-- ===== src/Base/Members.antt =====
-- Which elements a list has, and what holds of them.
use Prim.Native.Nat.{ℕ, zero, suc}
use mathlib.Core.Path.{◌≡◌, refl, sym, subst}
use mathlib.Core.Logic.{◌⊎◌, inl, inr}
use mathlib.Core.List.{List, [], ◌∷◌, ◌++◌}
use entropyhunt.Base.Lists.{All, All-mono, set}

module _ {A : Type 0} where
  -- `x in xs`, with the place.
  abbrev pub Among : A → List A → Type 0
  Among x [] = ⊥
  Among x (y ∷ ys) = (x ≡ y) ⊎ Among x ys

  pub Among-append : (x : A) (xs ys : List A) → Among x xs → Among x (xs ++ ys)
  Among-append x [] ys h = elim h [ ]
  Among-append x (y ∷ xs) ys (inl p) = inl p
  Among-append x (y ∷ xs) ys (inr h) = inr (Among-append x xs ys h)

  pub Among-last : (x : A) (xs : List A) → Among x (xs ++ (x ∷ []))
  Among-last x [] = inl refl
  Among-last x (y ∷ xs) = inr (Among-last x xs)

  pub All-Among {κ} : (P : A → Type κ) (xs : List A) (x : A) → All P xs → Among x xs → P x
  All-Among P [] x h k = elim k [ ]
  All-Among P (y ∷ ys) x h (inl p) = subst P (sym p) h.0
  All-Among P (y ∷ ys) x h (inr k) = All-Among P ys x h.1 k

  pub All-set {κ} :
      (P : A → Type κ) (xs : List A) (i : ℕ) (v : A) → All P xs → P v → All P (set xs i v)
  All-set P [] i v h k = tt
  All-set P (x ∷ xs) zero v h k = (k, h.1)
  All-set P (x ∷ xs) (suc i) v h k = (h.0, All-set P xs i v h.1 k)

pub All-self : {A : Type 0} (xs : List A) → All (λ x. Among x xs) xs
All-self [] = tt
All-self (x ∷ xs) = (inl refl, All-mono _ _ xs (λ y h. inr h) (All-self xs))
