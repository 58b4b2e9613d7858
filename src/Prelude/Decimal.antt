-- ===== src/Prelude/Decimal.antt =====
-- Numbers printed in decimal, as `%d` of fmt prints them.
use Prim.Native.Nat.{ℕ, zero, suc, ◌+◌, ◌*◌, ◌/◌, ◌%◌, ◌≤◌, ◌<◌}
use Prim.Native.String.{String, ◌++◌ as text_append}
use mathlib.Core.Path.{◌≡◌, refl}
use mathlib.Core.Logic.{inl, inr}
use mathlib.Core.List.{List, [], ◌∷◌}
use native.Mathlib.Omega.{arith}
use vector_chain.Prelude.Tests.{ltb, if◌then◌else◌, Bool-cases}

-- The digits of a number, the last one first.
digits_fuel : ℕ → ℕ → List ℕ
digits_fuel zero n = []
digits_fuel (suc f) n =
    let rest = digits_fuel f (n / 10) in if ltb n 10 then n ∷ [] else (n % 10) ∷ rest

abbrev value : List ℕ → ℕ
value [] = 0
value (d ∷ ds) = d + 10 * value ds

-- Any fuel above the number is enough: the digits stand for it.
value-digits_fuel : (f n : ℕ) → n < f → value (digits_fuel f n) ≡ n
unfolding digits_fuel
value-digits_fuel zero n h = elim h [ ]
value-digits_fuel (suc f) n h = elim (Bool-cases (ltb n 10)) [
  | inl small ↦ rw small (omega arith)
  | inr large ↦
      rw large (
        let big : 10 ≤ n = ground arith in
        omega (arith, value-digits_fuel f (n / 10) (omega arith)))
]

abbrev digit_text : ℕ → String
digit_text zero = "0"
digit_text (suc zero) = "1"
digit_text (suc (suc zero)) = "2"
digit_text (suc (suc (suc zero))) = "3"
digit_text (suc (suc (suc (suc zero)))) = "4"
digit_text (suc (suc (suc (suc (suc zero))))) = "5"
digit_text (suc (suc (suc (suc (suc (suc zero)))))) = "6"
digit_text (suc (suc (suc (suc (suc (suc (suc zero))))))) = "7"
digit_text (suc (suc (suc (suc (suc (suc (suc (suc zero)))))))) = "8"
digit_text (suc (suc (suc (suc (suc (suc (suc (suc (suc n))))))))) = "9"

-- The digits written out, the last one first in the list and last in the text.
text_of : List ℕ → String
text_of [] = ""
text_of (d ∷ ds) = text_append (text_of ds) (digit_text d)

unfoldable pub decimal : ℕ → String
unfolding digits_fuel text_of
decimal n = text_of (digits_fuel (n + 1) n)

decimal_207 : decimal 207 ≡ "207"
unfolding decimal
decimal_207 = refl

decimal_0 : decimal 0 ≡ "0"
unfolding decimal
decimal_0 = refl
