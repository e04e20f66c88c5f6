-- ===== src/Base/Text.antt =====
-- Texts: their order, which is Python's, and the decimal numbers that f-strings print.
use Prim.Native.Nat.{ℕ, zero, suc, ◌/◌, ◌%◌, ◌<◌}
use Prim.Native.String.compare
use Prim.Native.String.{String, compare, ◌++◌}
use mathlib.Core.Path.{◌≡◌, refl}
use mathlib.Core.Bool.{Bool, true, false}
use mathlib.Core.List.{List, [], ◌∷◌}
use native.Mathlib.Omega.{arith}
use text.Mathlib.Text.{is_lt}
use text.Mathlib.TextEquality.{codes_equal}
use entropyhunt.Base.Tests.{ltb, if◌then◌else◌}
use entropyhunt.Base.Int.{ℤ, pos, negsuc}
use entropyhunt.Base.Order.{IsOrder, IsConnected}

-- `s < t`
abbrev pub text_lt : String → String → Bool
text_lt s t = is_lt (compare s t)

text_lt-asymm : (s t : String) → text_lt s t ≡ true → text_lt t s ≡ false
text_lt-asymm String.[] String.[] h = ground (arith, compare.nil-nil)
text_lt-asymm String.[] (String.◌∷◌ d t) h = ground (arith, compare.cons-nil d t)
text_lt-asymm (String.◌∷◌ c s) String.[] h = ground (arith, compare.cons-nil c s)
text_lt-asymm (String.◌∷◌ c s) (String.◌∷◌ d t) h =
    ground (arith, compare.cons-cons c d s t, compare.cons-cons d c t s, text_lt-asymm s t)

text_lt-weak : (s t u : String) → text_lt s t ≡ false → text_lt t u ≡ false → text_lt s u ≡ false
text_lt-weak String.[] String.[] u h k = k
text_lt-weak String.[] (String.◌∷◌ d t) u h k = ground (arith, compare.nil-cons d t)
text_lt-weak (String.◌∷◌ c s) t String.[] h k = ground (arith, compare.cons-nil c s)
text_lt-weak (String.◌∷◌ c s) String.[] (String.◌∷◌ e u) h k = ground (arith, compare.nil-cons e u)
text_lt-weak (String.◌∷◌ c s) (String.◌∷◌ d t) (String.◌∷◌ e u) h k = ground (
  arith,
  compare.cons-cons c d s t,
  compare.cons-cons d e t u,
  compare.cons-cons c e s u,
  text_lt-weak s t u,
)

pub text_lt-IsOrder : IsOrder text_lt
text_lt-IsOrder = record { asymm = text_lt-asymm; weak = text_lt-weak }

pub text_lt-IsConnected : IsConnected text_lt
text_lt-IsConnected String.[] String.[] h k = refl
text_lt-IsConnected String.[] (String.◌∷◌ d t) h k = ground (arith, compare.nil-cons d t)
text_lt-IsConnected (String.◌∷◌ c s) String.[] h k = ground (arith, compare.nil-cons c s)
text_lt-IsConnected (String.◌∷◌ c s) (String.◌∷◌ d t) h k = λ i.
    String.◌∷◌
      (codes_equal c d (ground (arith, compare.cons-cons c d s t, compare.cons-cons d c t s)) i)
      (text_lt-IsConnected s t
        (ground (arith, compare.cons-cons c d s t, compare.cons-cons d c t s))
        (ground (arith, compare.cons-cons c d s t, compare.cons-cons d c t s)) i)

digit_text : ℕ → String
digit_text zero = "0"
digit_text (suc zero) = "1"
digit_text (suc (suc zero)) = "2"
digit_text (suc (suc (suc zero))) = "3"
digit_text (suc (suc (suc (suc zero)))) = "4"
digit_text (suc (suc (suc (suc (suc zero))))) = "5"
digit_text (suc (suc (suc (suc (suc (suc zero)))))) = "6"
digit_text (suc (suc (suc (suc (suc (suc (suc zero))))))) = "7"
digit_text (suc (suc (suc (suc (suc (suc (suc (suc zero)))))))) = "8"
digit_text _ = "9"

show_fuel : ℕ → ℕ → String
unfolding digit_text
show_fuel zero n = ""
show_fuel (suc f) n =
    let more = show_fuel f (n / 10) ++ digit_text (n % 10) in
    if ltb n 10 then digit_text n else more

-- `str(n)`: a number has at most `n + 1` digits.
unfoldable pub show_ℕ : ℕ → String
unfolding show_fuel
show_ℕ n = show_fuel (suc n) n

unfoldable pub show_ℤ : ℤ → String
unfolding show_ℕ
show_ℤ (pos n) = show_ℕ n
show_ℤ (negsuc n) = "-" ++ show_ℕ (suc n)

-- An f-string, as the list of its parts.
abbrev pub f_string : List String → String
f_string [] = ""
f_string (s ∷ parts) = s ++ f_string parts

-- The fuel is enough: more of it gives the same text.
show_fuel-more : (f g n : ℕ) → n < f → n < g → show_fuel f n ≡ show_fuel g n
unfolding show_fuel
show_fuel-more zero g n h k = elim h [ ]
show_fuel-more (suc f) zero n h k = elim k [ ]
show_fuel-more (suc f) (suc g) n h k = ground (arith, show_fuel-more f g (n / 10))

show_test : show_ℤ (negsuc 104) ≡ "-105"
unfolding show_ℤ
show_test = refl
