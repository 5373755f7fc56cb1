-- ===== src/Common/Decimal.antt =====
-- `%d` of Go's fmt for an int32, and what its digits spell.
use Prim.Native.Nat.{ℕ, zero, suc, ◌+◌, ◌-◌, ◌*◌, ◌/◌, ◌%◌, ◌^◌, ◌<◌}
use Prim.Native.String.{String, ◌++◌}
use mathlib.Core.Path.{◌≡◌, refl, sym, ap, ◌∙◌}
use mathlib.Core.Logic.{inl, inr}
use mathlib.Core.List.{List, [], ◌∷◌, ◌++◌ as ◌++ᴸ◌}
use native.Mathlib.Nat.{pow-suc}
use native.Mathlib.Omega.{arith}
use fyp.Common.Tests.{ltb, ltb→lt, lt→ltb, if◌then◌else◌, Bool-cases}
use fyp.Common.Text.{codes, codes-append, Lacks, Lacks-append}

-- The text of one decimal digit.
digit : ℕ → String
digit zero = "0"
digit (suc zero) = "1"
digit (suc (suc zero)) = "2"
digit (suc (suc (suc zero))) = "3"
digit (suc (suc (suc (suc zero)))) = "4"
digit (suc (suc (suc (suc (suc zero))))) = "5"
digit (suc (suc (suc (suc (suc (suc zero)))))) = "6"
digit (suc (suc (suc (suc (suc (suc (suc zero))))))) = "7"
digit (suc (suc (suc (suc (suc (suc (suc (suc zero)))))))) = "8"
digit _ = "9"

-- At most `fuel` digits.
digits : ℕ → ℕ → String
unfolding digit
digits zero n = ""
digits (suc fuel) n =
    let front = digits fuel (n / 10) in if ltb n 10 then digit n else front ++ digit (n % 10)

-- A negative number has a bit pattern from 2 ^ 31 on; ten digits are enough for 2 ^ 32.
unfoldable pub show_int32 : ℕ → String
unfolding digits
show_int32 n = if ltb n (2 ^ 31) then digits 10 n else "-" ++ digits 10 (2 ^ 32 - n)

show_int32_tests :
    (show_int32 0 ≡ "0") × (show_int32 1205 ≡ "1205") × (show_int32 (2 ^ 32 - 7) ≡ "-7")
unfolding show_int32
show_int32_tests = (refl, refl, refl)

-- The number that a list of digits spells behind `n`.
abbrev value : ℕ → List ℕ → ℕ
value n [] = n
value n (c ∷ cs) = value (n * 10 + (c - 48)) cs

value-append : (n : ℕ) (xs ys : List ℕ) → value n (xs ++ᴸ ys) ≡ value (value n xs) ys
value-append n [] ys = refl
value-append n (x ∷ xs) ys = value-append (n * 10 + (x - 48)) xs ys

codes-digit : (d : ℕ) → d < 10 → codes (digit d) ≡ (48 + d) ∷ []
unfolding digit
codes-digit zero h = refl
codes-digit (suc zero) h = refl
codes-digit (suc (suc zero)) h = refl
codes-digit (suc (suc (suc zero))) h = refl
codes-digit (suc (suc (suc (suc zero)))) h = refl
codes-digit (suc (suc (suc (suc (suc zero))))) h = refl
codes-digit (suc (suc (suc (suc (suc (suc zero)))))) h = refl
codes-digit (suc (suc (suc (suc (suc (suc (suc zero))))))) h = refl
codes-digit (suc (suc (suc (suc (suc (suc (suc (suc zero)))))))) h = refl
codes-digit (suc (suc (suc (suc (suc (suc (suc (suc (suc zero))))))))) h = refl
codes-digit (suc (suc (suc (suc (suc (suc (suc (suc (suc (suc d)))))))))) h = absurd (omega arith)

value-codes-digit : (n d : ℕ) → d < 10 → value n (codes (digit d)) ≡ n * 10 + d
value-codes-digit n d h = ap (value n) (codes-digit d h) ∙ omega arith

-- The digits spell the number, where the fuel is enough for them.
value-digits : (fuel n : ℕ) → n < 10 ^ fuel → value 0 (codes (digits fuel n)) ≡ n
unfolding digits
value-digits zero n h = omega arith
value-digits (suc fuel) n h = elim (Bool-cases (ltb n 10)) [
  | inl small ↦ rw small (value-codes-digit 0 n (ltb→lt n 10 small) ∙ omega arith)
  | inr large ↦
      rw
        (
          large,
          codes-append,
          value-append,
          value-digits fuel (n / 10) (omega (arith, pow-suc 10 fuel)),
        )
        (value-codes-digit (n / 10) (n % 10) (omega arith) ∙ omega arith)
]

Lacks-digit : (d : ℕ) → d < 10 → Lacks 45 (codes (digit d))
Lacks-digit d h = rw (codes-digit d h) (omega arith, tt)

Lacks-digits : (fuel n : ℕ) → Lacks 45 (codes (digits fuel n))
unfolding digits
Lacks-digits zero n = tt
Lacks-digits (suc fuel) n = elim (Bool-cases (ltb n 10)) [
  | inl small ↦ rw small (Lacks-digit n (ltb→lt n 10 small))
  | inr large ↦
      rw (large, codes-append)
        (Lacks-append 45 _ _ (Lacks-digits fuel (n / 10)) (Lacks-digit (n % 10) (omega arith)))
]

-- A number that is not negative is printed without the sign, and its print spells it.
pub Lacks-show_int32 : (n : ℕ) → n < 2 ^ 31 → Lacks 45 (codes (show_int32 n))
unfolding show_int32
Lacks-show_int32 n h = rw (lt→ltb n (2 ^ 31) h) (Lacks-digits 10 n)

value-show_int32 : (n : ℕ) → n < 2 ^ 31 → value 0 (codes (show_int32 n)) ≡ n
unfolding show_int32
value-show_int32 n h = rw (lt→ltb n (2 ^ 31) h) (value-digits 10 n (omega arith))

pub codes-show_int32-injective :
    (m n : ℕ) → m < 2 ^ 31 → n < 2 ^ 31 → codes (show_int32 m) ≡ codes (show_int32 n) → m ≡ n
codes-show_int32-injective m n hm hn e =
    sym (value-show_int32 m hm) ∙ ap (value 0) e ∙ value-show_int32 n hn
