-- ===== src/Base/Order.antt =====
-- Strict orders as Boolean tests, and the lexicographic order of Python's tuples.
use mathlib.Core.Path.{◌≡◌}
use mathlib.Core.Bool.{Bool, true, false}
use native.Mathlib.Omega.{arith}
use entropyhunt.Base.Tests.{ltb, if◌then◌else◌}
use entropyhunt.Base.Int.{ltb_ℤ}

-- A strict weak order: what `sorted` and `min` need of the order of their keys.
pub record IsOrder {ℓ} {A : Type ℓ} (lt : A → A → Bool) : Type ℓ where
  pub asymm : (a b : A) → lt a b ≡ true → lt b a ≡ false
  pub weak : (a b c : A) → lt a b ≡ false → lt b c ≡ false → lt a c ≡ false

abbrev pub then_by : Bool → Bool → Bool → Bool
then_by less greater rest = if less then true else if greater then false else rest

-- Compare by the first order, then by the second.
abbrev pub lex {ℓ} : {A : Type ℓ} → (A → A → Bool) → (A → A → Bool) → A → A → Bool
lex lt lt' a b = then_by (lt a b) (lt b a) (lt' a b)

-- Compare by a key.
abbrev pub by_key {ℓ κ} : {A : Type ℓ} {K : Type κ} → (K → K → Bool) → (A → K) → A → A → Bool
by_key lt key a b = lt (key a) (key b)

pub ltb-IsOrder : IsOrder ltb
ltb-IsOrder = record { asymm = λ a b h. ground arith; weak = λ a b c h k. ground arith }

pub ltb_ℤ-IsOrder : IsOrder ltb_ℤ
ltb_ℤ-IsOrder = record { asymm = λ a b h. ground arith; weak = λ a b c h k. ground arith }

pub by_key-IsOrder {ℓ κ} :
    {A : Type ℓ} {K : Type κ} {lt : K → K → Bool} (key : A → K)
    → IsOrder lt
    → IsOrder (by_key lt key)
by_key-IsOrder key o = record {
  asymm = λ a b. o.asymm (key a) (key b);
  weak = λ a b c. o.weak (key a) (key b) (key c);
}

module _ {ℓ} {A : Type ℓ} {lt lt' : A → A → Bool} (o : IsOrder lt) (o' : IsOrder lt') where
  lex-asymm : (a b : A) → lex lt lt' a b ≡ true → lex lt lt' b a ≡ false
  lex-asymm a b h = ground (arith, o.asymm a b, o.asymm b a, o'.asymm a b)

  lex-weak : (a b c : A) → lex lt lt' a b ≡ false → lex lt lt' b c ≡ false → lex lt lt' a c ≡ false
  lex-weak a b c h k = ground (
    arith,
    o.asymm a b,
    o.asymm b c,
    o.asymm a c,
    o.weak a b c,
    o.weak c a b,
    o.weak b c a,
    o.weak c b a,
    o'.weak a b c,
  )

  pub lex-IsOrder : IsOrder (lex lt lt')
  lex-IsOrder = record { asymm = lex-asymm; weak = lex-weak }

-- Keep the greater of two, and the second of equals.
abbrev pub pick {ℓ} : {A : Type ℓ} → (A → A → Bool) → A → A → A
pick lt a s = if lt s a then a else s

abbrev pub IsConnected {ℓ} : {A : Type ℓ} → (A → A → Bool) → Type ℓ
IsConnected {A} lt = (a b : A) → lt a b ≡ false → lt b a ≡ false → a ≡ b

module _ {ℓ} {A : Type ℓ} (lt : A → A → Bool) (o : IsOrder lt) (k : IsConnected lt) where
  pub pick_left_comm : (a b s : A) → pick lt a (pick lt b s) ≡ pick lt b (pick lt a s)
  pick_left_comm a b s = ground (
    arith,
    o.asymm a b,
    o.asymm b a,
    o.asymm s a,
    o.asymm s b,
    k a b,
    o.weak s a b,
    o.weak s b a,
    o.weak a s b,
    o.weak b s a,
    o.weak a b s,
    o.weak b a s,
  )

  pub pick_idem : (a s : A) → pick lt a (pick lt a s) ≡ pick lt a s
  pick_idem a s = ground (arith, o.asymm a a)

pub lex-IsConnected {ℓ κ} :
    {A : Type ℓ} {B : Type κ} {lt : A → A → Bool} {lt' : B → B → Bool}
    → IsConnected lt
    → IsConnected lt'
    → IsConnected (lex (by_key lt λ (p : A × B). p.0) (by_key lt' λ (p : A × B). p.1))
lex-IsConnected k l (a, b) (c, d) h h' =
    λ i. (k a c (ground arith) (ground arith) i, l b d (ground arith) (ground arith) i)

pub ltb-IsConnected : IsConnected ltb
ltb-IsConnected a b h k = ground arith
