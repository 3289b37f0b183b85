-- ===== src/Base/Int.antt =====
-- Signed integers: Go's int32 and int64 where the code compares and prints them.
use Prim.Native.Nat.{ℕ, suc, ◌+◌, ◌-◌, ◌%◌}
use Prim.Native.String
use Prim.Native.String.{String}
use mathlib.Core.Bool.{Bool, true, false}
use ronak_agentk_runtime.Base.Tests.{leb, eqb, ltb, if◌then◌else◌}
use ronak_agentk_runtime.Base.Text.{itoa}

-- `negsuc n` is -(n + 1).
pub data ℤ : Type 0 where
  pos : ℕ → ℤ
  negsuc : ℕ → ℤ

-- `a <= b`
abbrev pub le_int : ℤ → ℤ → Bool
le_int (pos a) (pos b) = leb a b
le_int (pos a) (negsuc b) = false
le_int (negsuc a) (pos b) = true
le_int (negsuc a) (negsuc b) = leb b a

-- `a == b`
abbrev pub eq_int : ℤ → ℤ → Bool
eq_int (pos a) (pos b) = eqb a b
eq_int (negsuc a) (negsuc b) = eqb a b
eq_int _ _ = false

-- fmt's %d
unfoldable pub show_int : ℤ → String
unfolding itoa
show_int (pos n) = itoa n
show_int (negsuc n) = String.◌++◌ "-" (itoa (suc n))

-- int64: a value's 64 bits, and the value of 64 bits
abbrev u64_mod : ℕ
u64_mod = 18446744073709551616

to_bits64 : ℤ → ℕ
to_bits64 (pos n) = n % u64_mod
to_bits64 (negsuc n) = u64_mod - 1 - n % u64_mod

of_bits64 : ℕ → ℤ
of_bits64 b = if ltb b 9223372036854775808 then pos b else negsuc (u64_mod - 1 - b)

-- `a + b` on int64, which wraps
unfoldable pub add64 : ℤ → ℤ → ℤ
unfolding to_bits64 of_bits64
add64 a b = of_bits64 ((to_bits64 a + to_bits64 b) % u64_mod)

-- int32: likewise
abbrev u32_mod : ℕ
u32_mod = 4294967296

to_bits32 : ℤ → ℕ
to_bits32 (pos n) = n % u32_mod
to_bits32 (negsuc n) = u32_mod - 1 - n % u32_mod

of_bits32 : ℕ → ℤ
of_bits32 b = if ltb b 2147483648 then pos b else negsuc (u32_mod - 1 - b)

-- `a + b` on int32, which wraps
unfoldable pub add32 : ℤ → ℤ → ℤ
unfolding to_bits32 of_bits32
add32 a b = of_bits32 ((to_bits32 a + to_bits32 b) % u32_mod)

-- `int32(n)`
unfoldable pub to_int32 : ℕ → ℤ
unfolding add32
to_int32 n = add32 (pos n) (pos 0)
