-- ===== src/Base/Equality.antt =====
-- Python's `==` on identifiers, numbers and coordinates, as an interface with its instances.
use Prim.Native.Nat.{ℕ}
use Prim.Native.String.{String}
use mathlib.Core.Path.{◌≡◌, refl}
use mathlib.Core.Bool.{Bool, true, false, ◌||◌}
use mathlib.Core.List.{List, [], ◌∷◌, ◌++◌}
use native.Mathlib.Decide.{ℕ_discrete}
use native.Mathlib.Omega.{arith}
use text.Mathlib.Text.{◌==◌ as str_eq}
use text.Mathlib.TextEquality.{eq_iff}
use entropyhunt.Base.Tests.{if◌then◌else◌}
use entropyhunt.Base.Int.{ℤ, ℤ_discrete}

pub record Eq {ℓ} (A : Type ℓ) : Type ℓ where
  pub dec : Discrete A

abbrev pub holds {ℓ} : {P : Type ℓ} → Dec P → Bool
holds (yes p) = true
holds (no n) = false

-- One operator for every type that has an instance.
infix 50 ◌==◌
abbrev pub ◌==◌ {ℓ} : {A : Type ℓ} ⦃e : Eq A⦄ → A → A → Bool
◌==◌ ⦃e⦄ a b = holds (e.dec a b)

string_discrete_from : (s t : String) → (b : Bool) → str_eq s t ≡ b → Dec (s ≡ t)
string_discrete_from s t true h = yes ((eq_iff s t).0 h)
string_discrete_from s t false h = no (λ p. ground (arith, eq_iff s t))

unfoldable pub string_discrete : Discrete String
unfolding string_discrete_from
string_discrete s t = string_discrete_from s t (str_eq s t) refl

-- Two literals that differ.
pub text_ne : (s t : String) → str_eq s t ≡ false → ¬ (s ≡ t)
text_ne s t h = λ e. ground (arith, eq_iff s t)

instance abbrev pub nat_eq : Eq ℕ
nat_eq = record { dec = ℕ_discrete }

instance abbrev pub string_eq : Eq String
string_eq = record { dec = string_discrete }

instance abbrev pub int_eq : Eq ℤ
int_eq = record { dec = ℤ_discrete }

unfoldable pub pair_discrete {ℓ κ} :
    {A : Type ℓ} {B : Type κ} → Discrete A → Discrete B → Discrete (A × B)
pair_discrete d e p q = elim (d p.0 q.0) [
  | no n ↦ no (λ r. n (λ i. (r i).0))
  | yes a ↦ elim (e p.1 q.1) [ no n ↦ no (λ r. n (λ i. (r i).1)) | yes b ↦ yes (λ i. (a i, b i)) ]
]

instance abbrev pub pair_eq {ℓ κ} : {A : Type ℓ} {B : Type κ} ⦃a : Eq A⦄ ⦃b : Eq B⦄ → Eq (A × B)
pair_eq ⦃a⦄ ⦃b⦄ = record { dec = pair_discrete a.dec b.dec }

module _ {ℓ} {A : Type ℓ} ⦃e : Eq A⦄ where
  -- `a in xs`
  abbrev pub contains : List A → A → Bool
  contains [] a = false
  contains (x ∷ xs) a = x == a || contains xs a

  -- `s.add(a)` on a set kept as a list without repetitions
  abbrev pub add : A → List A → List A
  add a xs = if contains xs a then xs else xs ++ a ∷ []

  -- `s.discard(a)`
  abbrev pub discard : A → List A → List A
  discard a [] = []
  discard a (x ∷ xs) = if x == a then discard a xs else x ∷ discard a xs

  -- `if a in xs: xs.remove(a)`: the first occurrence
  abbrev pub remove : A → List A → List A
  remove a [] = []
  remove a (x ∷ xs) = if x == a then xs else x ∷ remove a xs

  -- `s - t`
  abbrev pub difference : List A → List A → List A
  difference xs [] = xs
  difference xs (y ∷ ys) = difference (discard y xs) ys

  -- `xs | ys`
  abbrev pub union : List A → List A → List A
  union xs [] = xs
  union xs (y ∷ ys) = union (add y xs) ys

  -- `dict.fromkeys(xs)`
  abbrev pub distinct : List A → List A
  distinct = union []

  pub contains-append :
      (xs ys : List A) (a : A) → contains (xs ++ ys) a ≡ (contains xs a || contains ys a)
  contains-append [] ys a = refl
  contains-append (x ∷ xs) ys a = ground (arith, contains-append xs ys a)

  pub contains-add : (a b : A) (xs : List A) → contains (add a xs) b ≡ (a == b || contains xs b)
  contains-add a b xs = ground (arith, contains-append xs (a ∷ []) b)

  pub contains-discard :
      (a b : A) (xs : List A)
      → contains (discard a xs) b ≡ (if a == b then false else contains xs b)
  contains-discard a b [] = ground arith
  contains-discard a b (x ∷ xs) = ground (arith, contains-discard a b xs)

  pub contains-union :
      (xs ys : List A) (a : A) → contains (union xs ys) a ≡ (contains xs a || contains ys a)
  contains-union xs [] a = ground arith
  contains-union xs (y ∷ ys) a = ground (arith, contains-union (add y xs) ys a, contains-add y a xs)

  pub contains-distinct : (xs : List A) (a : A) → contains (distinct xs) a ≡ contains xs a
  contains-distinct xs a = contains-union [] xs a
