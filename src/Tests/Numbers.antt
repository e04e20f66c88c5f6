-- ===== src/Tests/Numbers.antt =====
-- A concrete arithmetic for the examples: fixed-point numbers in thousandths, with a logarithm that is
-- linear between 0 and 1 and the distance along the axes.
use Prim.Native.Nat.{ℕ, zero, suc, ◌+◌, ◌*◌, ◌/◌}
use entropyhunt.Base.{
  ◌==◌, ℤ, pos, negsuc, Coordinate, ◌≡◌, refl, false, List, [], ◌∷◌, arith, string_eq, nat_eq,
  pair_eq, int_eq,
}
use entropyhunt.Base.Int.{◌+ℤ◌, ltb_ℤ, gap, eq_of_parts}
use entropyhunt.Base.Order.{ltb_ℤ-IsOrder}
use entropyhunt.Base.Numeric.{Floats}

unfoldable pub opposite : ℤ → ℤ
opposite (pos zero) = pos zero
opposite (pos (suc n)) = negsuc n
opposite (negsuc n) = pos (suc n)

unfoldable pub scaled : ℤ → ℤ → ℤ
unfolding opposite
scaled (pos a) (pos b) = pos (a * b / 1000)
scaled (pos a) (negsuc b) = opposite (pos (a * suc b / 1000))
scaled (negsuc a) (pos b) = opposite (pos (suc a * b / 1000))
scaled (negsuc a) (negsuc b) = pos (suc a * suc b / 1000)

unfoldable pub total : List ℤ → ℤ
unfolding ◌+ℤ◌
total [] = pos 0
total (x ∷ xs) = x +ℤ total xs

unfoldable pub quotient : ℤ → ℤ → ℤ
quotient (pos a) (pos b) = pos (a * 1000 / b)
quotient (pos a) (negsuc b) = negsuc (a * 1000 / suc b)
quotient (negsuc a) (pos b) = negsuc (suc a * 1000 / b)
quotient (negsuc a) (negsuc b) = pos (suc a * 1000 / suc b)

unfoldable pub per : ℕ → ℕ → ℤ
per a b = pos (a * 1000 / b)

unfoldable pub whole : ℤ → ℕ
whole (pos a) = a / 1000
whole (negsuc a) = 0

unfoldable pub paces : Coordinate → Coordinate → ℤ
paces p q = pos (1000 * (gap p.0 q.0 + gap p.1 q.1))

pub ltb_ℤ-connected : (a b : ℤ) → ltb_ℤ a b ≡ false → ltb_ℤ b a ≡ false → a ≡ b
ltb_ℤ-connected a b h k = eq_of_parts a b (ground arith)

pub ltb_ℤ-opposite : (a b : ℤ) → ltb_ℤ (opposite a) (opposite b) ≡ ltb_ℤ b a
unfolding opposite
ltb_ℤ-opposite (pos zero) (pos zero) = refl
ltb_ℤ-opposite (pos zero) (pos (suc n)) = ground arith
ltb_ℤ-opposite (pos zero) (negsuc n) = ground arith
ltb_ℤ-opposite (pos (suc m)) (pos zero) = ground arith
ltb_ℤ-opposite (pos (suc m)) (pos (suc n)) = ground arith
ltb_ℤ-opposite (pos (suc m)) (negsuc n) = ground arith
ltb_ℤ-opposite (negsuc m) (pos zero) = ground arith
ltb_ℤ-opposite (negsuc m) (pos (suc n)) = ground arith
ltb_ℤ-opposite (negsuc m) (negsuc n) = ground arith

instance abbrev pub thousandths : Floats
thousandths = record {
  Float = ℤ;
  lt = ltb_ℤ;
  zero_f = pos 0;
  half = pos 500;
  one = pos 1000;
  add_f = ◌+ℤ◌;
  sub_f = λ a b. a +ℤ opposite b;
  mul_f = scaled;
  div_f = quotient;
  neg = opposite;
  log2 = λ a. a +ℤ negsuc 999;
  of_nat = λ n. pos (1000 * n);
  sum_f = total;
  ratio = per;
  round3 = λ a. a;
  round4 = λ a. a;
  truncate = whole;
  dist = paces;
  is_close = λ a b. a == b;
  order = ltb_ℤ-IsOrder;
  connected = ltb_ℤ-connected;
  zero_lt_one = refl;
  lt-neg = ltb_ℤ-opposite;
}
