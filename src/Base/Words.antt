-- ===== src/Base/Words.antt =====
-- Fixed-width words: the wrap of the unsigned types, and the range of `std::int64_t`.
use Prim.Native.Nat.{ℕ, ◌-◌, ◌%◌, ◌^◌}
use arun_work.Base.Tests.{ltb, if◌then◌else◌}
use mathlib.Core.Bool.{Bool, ◌&&◌}
use arun_work.Base.Int.{ℤ, pos, negsuc, ◌≤ℤ◌, leb_ℤ}

abbrev pub u8 : ℕ → ℕ
u8 n = n % 256

abbrev pub u32 : ℕ → ℕ
u32 n = n % 2 ^ 32

abbrev pub u64 : ℕ → ℕ
u64 n = n % 2 ^ 64

-- `static_cast` from a signed integer.
abbrev pub u32_of : ℤ → ℕ
u32_of (pos n) = n % 2 ^ 32
u32_of (negsuc n) = 2 ^ 32 - 1 - n % 2 ^ 32

abbrev pub u64_of : ℤ → ℕ
u64_of (pos n) = n % 2 ^ 64
u64_of (negsuc n) = 2 ^ 64 - 1 - n % 2 ^ 64

-- `static_cast<int>` of a 32-bit word.
abbrev pub i32_of : ℕ → ℤ
i32_of n = if ltb (n % 2 ^ 32) (2 ^ 31) then pos (n % 2 ^ 32) else negsuc (2 ^ 32 - 1 - n % 2 ^ 32)

abbrev pub i64_min : ℤ
i64_min = negsuc (2 ^ 63 - 1)

abbrev pub i64_max : ℤ
i64_max = pos (2 ^ 63 - 1)

-- What an `std::int64_t` can hold.
abbrev pub IsI64 : ℤ → Type 0
IsI64 a = (i64_min ≤ℤ a) × (a ≤ℤ i64_max)

abbrev pub is_i64 : ℤ → Bool
is_i64 a = leb_ℤ i64_min a && leb_ℤ a i64_max
