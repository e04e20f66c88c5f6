-- ===== src/Base/Numeric.antt =====
-- The floating-point numbers that the program computes with, as an interface: Python's floats without
-- NaN, up to `==`, with the functions of `math` that the sources call.
use entropyhunt.Base.{
  if◌then◌else◌, Coordinate, ℕ, ◌≡◌, Bool, true, false, not, List, arith, string_eq, nat_eq,
  pair_eq, int_eq,
}
use entropyhunt.Base.Order.{IsOrder}

pub record Floats : Type 1 where
  pub Float : Type 0
  pub lt : Float → Float → Bool
  pub zero_f : Float
  pub half : Float
  pub one : Float
  pub add_f : Float → Float → Float
  pub sub_f : Float → Float → Float
  pub mul_f : Float → Float → Float
  pub div_f : Float → Float → Float
  pub neg : Float → Float
  pub log2 : Float → Float
  pub of_nat : ℕ → Float
  -- `sum` of a list of floats, and the quotient of two integers.
  pub sum_f : List Float → Float
  pub ratio : ℕ → ℕ → Float
  -- `round(x, 3)` and `round(x, 4)`, and `int(x)` of a number that is not negative.
  pub round3 : Float → Float
  pub round4 : Float → Float
  pub truncate : Float → ℕ
  -- `math.dist` of two cells, and `math.isclose`.
  pub dist : Coordinate → Coordinate → Float
  pub is_close : Float → Float → Bool
  pub order : IsOrder lt
  pub connected : (a b : Float) → lt a b ≡ false → lt b a ≡ false → a ≡ b
  pub zero_lt_one : lt zero_f one ≡ true
  pub lt-neg : (a b : Float) → lt (neg a) (neg b) ≡ lt b a

module _ ⦃fl : Floats⦄ where
  open fl use {Float, lt}

  -- `max(a, b)` and `min(a, b)` keep the first of two equal arguments.
  abbrev pub max_f : Float → Float → Float
  max_f a b = if lt a b then b else a

  abbrev pub min_f : Float → Float → Float
  min_f a b = if lt b a then b else a

  -- `a <= b`
  abbrev pub le_f : Float → Float → Bool
  le_f a b = not (lt b a)

  pub lt_irrefl : (a : Float) → lt a a ≡ false
  lt_irrefl a = ground (arith, fl.order.asymm a a)

  pub lt_trans : (a b c : Float) → lt a b ≡ true → lt b c ≡ true → lt a c ≡ true
  lt_trans a b c h k = ground (arith, fl.order.asymm b c, fl.order.weak a c b)
