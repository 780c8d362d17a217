-- ===== src/Prelude/Word.antt =====
-- Fixed-width integers of C: unsigned words as numbers below the modulus, the conversions between
-- them and the signed types, and the octets of a word in network byte order.
use mm_wave_tracker.Prelude.Tests.{ltb, if◌then◌else◌}
use mm_wave_tracker.Prelude.Int.{ℤ, pos, negsuc}
use Prim.Native.Nat.{ℕ, ◌-◌, ◌%◌}

-- The modulus of an unsigned type of 32 and of 64 bits.
abbrev pub u32_mod : ℕ
u32_mod = 4294967296

abbrev pub u64_mod : ℕ
u64_mod = 18446744073709551616

abbrev pub u32 : ℕ → ℕ
u32 n = n % u32_mod

abbrev pub u64 : ℕ → ℕ
u64 n = n % u64_mod

-- Conversion of an unsigned value to `int`: the value with the same low 32 bits.
abbrev pub to_int : ℕ → ℤ
to_int n = let w = n % 4294967296 in if ltb w 2147483648 then pos w else negsuc (4294967295 - w)

-- Conversion of a signed value to `uint64_t`, and of one to `uint32_t`: modulo the width.
abbrev pub to_u64 : ℤ → ℕ
to_u64 (pos n) = n % u64_mod
to_u64 (negsuc n) = u64_mod - 1 - n % u64_mod

abbrev pub to_u32 : ℤ → ℕ
to_u32 (pos n) = n % u32_mod
to_u32 (negsuc n) = u32_mod - 1 - n % u32_mod
