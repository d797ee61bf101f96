-- ===== src/Base/Outcome.antt =====
-- C++ exceptions as values: a call returns, or it throws.
use mathlib.Core.Path.{◌≡◌, refl}
use mathlib.Core.Logic.{◌⊎◌, inl, inr}
use mathlib.Core.Bool.{Bool, true, false}
use mathlib.Core.Option.{Option, none, some}
use arun_work.Base.Text.{Bytes}

-- The standard exceptions that the program throws or lets through, with their `what()`. `other` is a thrown value
-- that no handler for `std::exception` catches, and `undefined` stands for an overflow of a signed
-- integer, behind which C++ defines nothing.
pub data Exception : Type 0 where
  logic_error invalid_argument runtime_error out_of_range zmq_error : Bytes → Exception
  other undefined : Exception

-- `none` if the exception is not a `std::exception`.
abbrev pub what : Exception → Option Bytes
what (logic_error s) = some s
what (invalid_argument s) = some s
what (runtime_error s) = some s
what (out_of_range s) = some s
what (zmq_error s) = some s
what other = none
what undefined = none

pub data Result (E A : Type 0) : Type 0 where
  ok : A → Result E A
  err : E → Result E A

infixl 5 ◌>>=◌ ◌>>◌
abbrev pub ◌>>=◌ : {E A B : Type 0} → Result E A → (A → Result E B) → Result E B
ok a >>= f = f a
err e >>= f = err e

abbrev pub ◌>>◌ : {E B : Type 0} → Result E (Unit {0}) → Result E B → Result E B
m >> k = m >>= λ _. k

pub Result-cases :
    {E A : Type 0} (r : Result E A) → ((a : A) × (r ≡ ok a)) ⊎ ((e : E) × (r ≡ err e))
Result-cases (ok a) = inl (a, refl)
Result-cases (err e) = inr (e, refl)

abbrev pub is_ok : {E A : Type 0} → Result E A → Bool
is_ok (ok a) = true
is_ok (err e) = false

-- A step and what follows it succeed, if what follows does for each outcome of the step.
pub is_ok-bind :
    {E A B : Type 0} (r : Result E A) (f : A → Result E B)
    → is_ok r ≡ true
    → ((a : A) → is_ok (f a) ≡ true)
    → is_ok (r >>= f) ≡ true
is_ok-bind (ok a) f h k = k a
is_ok-bind (err e) f h k = absurd (cc h)

-- What is returned satisfies the predicate.
abbrev pub Holds : {E A : Type 0} → (A → Type 0) → Result E A → Type 0
Holds P (ok a) = P a
Holds P (err e) = Unit

pub Holds-bind :
    {E A B : Type 0} (P : A → Type 0) (Q : B → Type 0) (r : Result E A) (f : A → Result E B)
    → Holds P r
    → ((a : A) → P a → Holds Q (f a))
    → Holds Q (r >>= f)
Holds-bind P Q (ok a) f h k = k a h
Holds-bind P Q (err e) f h k = tt

pub Holds-true : {E A : Type 0} (r : Result E A) → Holds (λ a. Unit) r
Holds-true (ok a) = tt
Holds-true (err e) = tt

pub Holds-ok :
    {E A : Type 0} (P : A → Type 0) (r : Result E A)
    → is_ok r ≡ true
    → Holds P r
    → (a : A) × (r ≡ ok a) × P a
Holds-ok P (ok a) h p = (a, refl, p)
Holds-ok P (err e) h p = absurd (cc h)

-- What a step returned, and what followed it, where the two together return.
pub ok-bind :
    {E A B : Type 0} (r : Result E A) (f : A → Result E B) (b : B)
    → (r >>= f) ≡ ok b
    → (a : A) × (r ≡ ok a) × (f a ≡ ok b)
ok-bind (ok a) f b h = (a, refl, h)
ok-bind (err e) f b h = absurd (cc h)
