-- ===== src/Base/Digits.antt =====
-- `std::from_chars` for `std::int64_t` in base ten, and that it reads back what `std::to_string`
-- wrote.
use Prim.Native.Nat.{ℕ, zero, suc, ◌+◌, ◌-◌, ◌*◌, ◌/◌, ◌^◌, ◌≤◌, ◌<◌}
use native.Mathlib.Omega.{arith}
use mathlib.Core.Path.{◌≡◌, refl, sym, ap, ◌∙◌}
use mathlib.Core.Logic.{inl, inr}
use mathlib.Core.Bool.{Bool, true, false, ◌&&◌}
use mathlib.Core.Option.{Option, none, some}
use mathlib.Core.List.{[], ◌∷◌, ◌++◌}
use arun_work.Base.Tests.{ltb, leb, ◌==◌, if◌then◌else◌, Bool-cases}
use arun_work.Base.Lists.{All}
use arun_work.Base.Text.{Bytes}
use arun_work.Base.Int.{ℤ, pos, negsuc, neg_ℕ}
use arun_work.Base.Words.{IsI64}
use arun_work.Base.Decimal.{digits, decimal, to_string}

abbrev pub is_digit : ℕ → Bool
is_digit c = leb 48 c && leb c 57

-- The digits at the head of the text, and what follows them.
unfoldable pub leading_digits : Bytes → Bytes × Bytes
leading_digits [] = ([], [])
leading_digits (c ∷ s) =
    let (ds, rest) = leading_digits s in if is_digit c then (c ∷ ds, rest) else ([], c ∷ s)

unfoldable pub value : ℕ → Bytes → ℕ
value n [] = n
value n (d ∷ ds) = value (n * 10 + (d - 48)) ds

-- `limit` is the largest magnitude that fits: one more below zero.
unfoldable pub magnitude : ℕ → Bytes → Option (ℕ × Bytes)
magnitude limit s =
    let (ds, rest) = leading_digits s in
    elim ds [
      | [] ↦ none
      | d ∷ more ↦ if leb (value 0 (d ∷ more)) limit then some (value 0 (d ∷ more), rest) else none
    ]

abbrev pub signed : (ℕ → ℤ) → Option (ℕ × Bytes) → Option (ℤ × Bytes)
signed sign none = none
signed sign (some (n, rest)) = some (sign n, rest)

-- The number and what follows it; `none` stands for either error code.
unfoldable pub from_chars : Bytes → Option (ℤ × Bytes)
from_chars [] = none
from_chars (c ∷ s) =
    if c == 45
    then signed neg_ℕ (magnitude (2 ^ 63) s)
    else signed pos (magnitude (2 ^ 63 - 1) (c ∷ s))

-- The text does not go on with a digit.
abbrev pub IsEnd : Bytes → Type 0
IsEnd [] = Unit {0}
IsEnd (c ∷ s) = is_digit c ≡ false

leading_digits-append :
    (ds rest : Bytes)
    → All (λ d. is_digit d ≡ true) ds
    → IsEnd rest
    → leading_digits (ds ++ rest) ≡ (ds, rest)
unfolding leading_digits
leading_digits-append [] [] h e = refl
leading_digits-append [] (c ∷ s) h e = rw e refl
leading_digits-append (d ∷ ds) rest h e = rw (h.0, leading_digits-append ds rest h.1 e) refl

All-digits :
    (fuel n : ℕ) (acc : Bytes)
    → All (λ d. is_digit d ≡ true) acc
    → All (λ d. is_digit d ≡ true) (digits fuel n acc)
unfolding digits
All-digits zero n acc h = h
All-digits (suc fuel) n acc h = elim (Bool-cases (ltb n 10)) [
  | inl small ↦ rw (small, digits) (ground arith, h)
  | inr large ↦ rw (large, digits) (All-digits fuel (n / 10) _ (ground arith, h))
]

value-digits : (fuel n : ℕ) (acc : Bytes) → n < fuel → value 0 (digits fuel n acc) ≡ value n acc
unfolding digits value
value-digits zero n acc h = absurd (omega arith)
value-digits (suc fuel) n acc h = elim (Bool-cases (ltb n 10)) [
  | inl small ↦ rw (small, digits) (ap (λ k. value k acc) (omega arith))
  | inr large ↦
      rw (large, digits)
        (value-digits fuel (n / 10) _ (ground arith) ∙ ap (λ k. value k acc) (omega arith))
]

-- The first digit is there.
digits-cons : (fuel n : ℕ) (acc : Bytes) → (c : ℕ) × (s : Bytes) × (digits (suc fuel) n acc ≡ c ∷ s)
unfolding digits
digits-cons zero n acc = elim (Bool-cases (ltb n 10)) [
  | inl small ↦ rw (small, digits) (_, _, refl)
  | inr large ↦ rw (large, digits) (_, _, refl)
]
digits-cons (suc fuel) n acc = elim (Bool-cases (ltb n 10)) [
  | inl small ↦ rw (small, digits) (_, _, refl)
  | inr large ↦ rw (large, digits) (digits-cons fuel (n / 10) _)
]

magnitude-decimal :
    (limit n : ℕ) (rest : Bytes)
    → n ≤ limit
    → IsEnd rest
    → magnitude limit (decimal n ++ rest) ≡ some (n, rest)
unfolding magnitude decimal
magnitude-decimal limit n rest h e =
    let (c, s, cons) = digits-cons n n [] in
    let text = digits (suc n) n [] in
    let split = leading_digits-append text rest (All-digits (suc n) n [] tt) e in
    rw (split, magnitude)
      (rw (cons, magnitude)
        (rw (rw cons at (value-digits (suc n) n [] (omega arith)), value_nil, fits)
          (ap (λ p. some (n, p.1)) split)))
  where
    value_nil : value n [] ≡ n
    value_nil = unfold value in refl

    fits : leb n limit ≡ true
    fits = ground arith

decimal-head : (n : ℕ) → (c : ℕ) × (s : Bytes) × (decimal n ≡ c ∷ s) × ((c == 45) ≡ false)
unfolding decimal
decimal-head n =
    let (c, s, cons) = digits-cons n n [] in
    let digit = (rw cons at (All-digits (suc n) n [] tt)).0 in (c, s, cons, ground (arith, digit))

-- Every 64-bit integer comes back from its own text, and what follows the text is left, as long as it
-- does not begin with a digit.
pub from_chars-to_string :
    (a : ℤ) (rest : Bytes)
    → IsI64 a
    → IsEnd rest
    → from_chars (to_string a ++ rest) ≡ some (a, rest)
unfolding from_chars to_string
from_chars-to_string (pos n) rest h e =
    let (c, s, cons, plain) = decimal-head n in
    rw (cons, from_chars)
      (rw plain (
        ap (λ t. signed pos (magnitude (2 ^ 63 - 1) (t ++ rest))) (sym cons)
        ∙ rw (magnitude-decimal (2 ^ 63 - 1) n rest (omega arith) e) refl))
from_chars-to_string (negsuc n) rest h e =
    rw (magnitude-decimal (2 ^ 63) (suc n) rest (omega arith) e) refl

-- The text of a number begins with no space.
pub to_string-head : (a : ℤ) → (c : ℕ) × (s : Bytes) × (to_string a ≡ c ∷ s) × ((c == 32) ≡ false)
unfolding to_string decimal
to_string-head (pos n) =
    let (c, s, cons) = digits-cons n n [] in
    let digit = (rw cons at (All-digits (suc n) n [] tt)).0 in (c, s, cons, ground (arith, digit))
to_string-head (negsuc n) = (45, _, refl, refl)
