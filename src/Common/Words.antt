-- ===== src/Common/Words.antt =====
-- Go's fixed-width integers. An int32 is its bit pattern, a number below 2 ^ 32; the patterns from
-- 2 ^ 31 on stand for the negative numbers. An int64 (time.Duration) likewise, below 2 ^ 64.
use Prim.Native.Nat.{ℕ, ◌+◌, ◌-◌, ◌*◌, ◌%◌, ◌^◌, ◌≤◌, ◌<◌}
use mathlib.Core.Path.{◌≡◌}
use mathlib.Core.Logic.{◌↔◌}
use mathlib.Core.Bool.{Bool, true, false}
use native.Mathlib.Omega.{arith}
use fyp.Common.Tests.{ltb, leb, if◌then◌else◌}

abbrev pub Int32 : Type 0
Int32 = ℕ

-- Addition wraps around.
abbrev pub add32 : Int32 → Int32 → Int32
add32 a b = (a + b) % 2 ^ 32

-- Signed order: shifted by 2 ^ 31, the patterns are ordered as the integers they stand for.
abbrev pub rank32 : Int32 → ℕ
rank32 a = (a + 2 ^ 31) % 2 ^ 32

abbrev pub lt32 : Int32 → Int32 → Bool
lt32 a b = ltb (rank32 a) (rank32 b)

abbrev pub le32 : Int32 → Int32 → Bool
le32 a b = leb (rank32 a) (rank32 b)

-- The number is not negative as an int32.
abbrev pub IsNonneg32 : Int32 → Type 0
IsNonneg32 a = a < 2 ^ 31

abbrev pub Int64 : Type 0
Int64 = ℕ

-- Go's conversion int64(x) of an int32 copies the sign.
abbrev pub to_int64 : Int32 → Int64
to_int64 a = if ltb a (2 ^ 31) then a else a + (2 ^ 64 - 2 ^ 32)

abbrev pub mul64 : Int64 → Int64 → Int64
mul64 a b = (a * b) % 2 ^ 64

abbrev pub is_positive64 : Int64 → Bool
is_positive64 d = if ltb 0 d then ltb d (2 ^ 63) else false

pub lt32_iff : (a b : ℕ) → IsNonneg32 a → IsNonneg32 b → (lt32 a b ≡ true) ↔ (a < b)
lt32_iff a b ha hb = ground arith

pub le32_iff : (a b : ℕ) → IsNonneg32 a → IsNonneg32 b → (le32 a b ≡ true) ↔ (a ≤ b)
le32_iff a b ha hb = ground arith
