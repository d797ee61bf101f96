-- ===== src/Base/Decimal.antt =====
-- `std::to_string` of a 64-bit integer.
use Prim.Native.Nat.{ℕ, zero, suc, ◌+◌, ◌/◌, ◌%◌}
use mathlib.Core.Bool.{true, false}
use mathlib.Core.List.{[], ◌∷◌}
use arun_work.Base.Tests.{ltb}
use arun_work.Base.Text.{Bytes}
use arun_work.Base.Int.{ℤ, pos, negsuc}

-- The digits of `n` before `acc`. The fuel `suc n` is enough: the number drops with each digit.
unfoldable pub digits : ℕ → ℕ → Bytes → Bytes
digits zero n acc = acc
digits (suc fuel) n acc = elim (ltb n 10) [
  | true ↦ (48 + n) ∷ acc
  | false ↦ digits fuel (n / 10) ((48 + n % 10) ∷ acc)
]

unfoldable pub decimal : ℕ → Bytes
decimal n = digits (suc n) n []

unfoldable pub to_string : ℤ → Bytes
to_string (pos n) = decimal n
to_string (negsuc n) = 45 ∷ decimal (suc n)
