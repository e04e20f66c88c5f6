-- ===== src/Base/Errors.antt =====
-- Python's exceptions as values.
use mathlib.Core.Path.{◌≡◌, refl}
use mathlib.Core.Logic.{◌⊎◌, inl, inr}
use mathlib.Core.List.{List, [], ◌∷◌}
use mathlib.Core.Option.{Option, none, some}

pub data Error : Type 0 where
  value_error index_error key_error type_error runtime_error zero_division_error : Error

pub data Result {ℓ} (A : Type ℓ) : Type ℓ where
  ok : A → Result A
  raise : Error → Result A

abbrev pub or_raise {ℓ} : {A : Type ℓ} → Option A → Error → Result A
or_raise none error = raise error
or_raise (some value) error = ok value

pub Result-cases {ℓ} :
    {A : Type ℓ} (r : Result A) → ((a : A) × (r ≡ ok a)) ⊎ ((e : Error) × (r ≡ raise e))
Result-cases (ok a) = inl (a, refl)
Result-cases (raise e) = inr (e, refl)

-- What follows a call that may raise.
infixl 5 ◌>>=◌
abbrev pub ◌>>=◌ {ℓ μ} : {V : Type ℓ} {W : Type μ} → Result V → (V → Result W) → Result W
raise error >>= next = raise error
ok value >>= next = next value

-- Only a call that answers is followed.
pub >>=-eq-ok {ℓ μ} :
    {V : Type ℓ} {W : Type μ} (call : Result V) (next : V → Result W) {w : W}
    → (call >>= next) ≡ ok w
    → (v : V) × (call ≡ ok v) × (next v ≡ ok w)
>>=-eq-ok (raise error) next h = cc
>>=-eq-ok (ok value) next h = (value, refl, h)

-- `for p in ps: …`, where the body may raise.
unfoldable pub each {ℓ κ} : {P : Type ℓ} {S : Type κ} → (P → S → Result S) → List P → S → Result S
each f [] s = ok s
each f (p ∷ ps) s = f p s >>= each f ps

abbrev pub map_ok {ℓ κ} : {A : Type ℓ} {B : Type κ} → (A → B) → Result A → Result B
map_ok f (ok a) = ok (f a)
map_ok f (raise e) = raise e

pub ok-injective {ℓ} : {A : Type ℓ} {a b : A} → ok a ≡ ok b → a ≡ b
ok-injective h = cc

pub map_ok-map_ok {ℓ κ μ} :
    {A : Type ℓ} {B : Type κ} {C : Type μ} (g : B → C) (f : A → B) (r : Result A)
    → map_ok g (map_ok f r) ≡ map_ok (λ a. g (f a)) r
map_ok-map_ok g f (ok a) = refl
map_ok-map_ok g f (raise e) = refl

pub map_ok_id {ℓ} : {A : Type ℓ} (r : Result A) → map_ok (λ a. a) r ≡ r
map_ok_id (ok a) = refl
map_ok_id (raise e) = refl

-- What holds of the answer, where there is one.
abbrev pub Answers {ℓ μ} : {A : Type ℓ} → (A → Type μ) → Result A → Type μ
Answers P (ok a) = P a
Answers P (raise e) = Unit

module _ {ℓ κ μ} {A : Type ℓ} {B : Type κ} (Q : B → Type μ) where
  pub Answers-after :
      (m : Result A) (f : A → Result B)
      → ((a : A) → m ≡ ok a → Answers Q (f a))
      → Answers Q (m >>= f)
  Answers-after (ok a) f h = h a refl
  Answers-after (raise e) f h = tt

  pub Answers-or_raise :
      (o : Option A) (error : Error) (f : A → Result B)
      → ((a : A) → o ≡ some a → Answers Q (f a))
      → Answers Q (or_raise o error >>= f)
  Answers-or_raise none error f h = tt
  Answers-or_raise (some a) error f h = h a refl

pub Answers-bind {ℓ κ μ ν} :
    {A : Type ℓ} {B : Type κ} (P : A → Type ν) (Q : B → Type μ) (m : Result A) (f : A → Result B)
    → Answers P m
    → ((a : A) → P a → Answers Q (f a))
    → Answers Q (m >>= f)
Answers-bind P Q (ok a) f p h = h a p
Answers-bind P Q (raise e) f p h = tt

-- An invariant of a loop's body is one of the loop.
pub each-Answers {ℓ κ μ} :
    {A : Type ℓ} {S : Type κ} (P : S → Type μ) (f : A → S → Result S) (xs : List A) (s : S)
    → ((x : A) (t : S) → P t → Answers P (f x t))
    → P s
    → Answers P (each f xs s)
unfolding each
each-Answers P f [] s keeps p = p
each-Answers P f (x ∷ xs) s keeps p =
    Answers-bind P P (f x s) (each f xs) (keeps x s p) (λ t q. each-Answers P f xs t keeps q)

pub Answers-mono {ℓ μ ν} :
    {A : Type ℓ} (P : A → Type μ) (Q : A → Type ν) (r : Result A)
    → ((a : A) → P a → Q a)
    → Answers P r
    → Answers Q r
Answers-mono P Q (ok a) f p = f a p
Answers-mono P Q (raise e) f p = tt
