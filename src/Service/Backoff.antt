-- ===== src/Service/Backoff.antt =====
-- apps/scan_publisher_recorder_main.cpp: the pause between two attempts to reconnect, which Ctrl+C
-- cuts short. `stop` gives what each reading of the flag finds, in the order of the readings.
use arun_work.Base.{
  ℕ, zero, suc, ◌+◌, ◌-◌, ◌≡◌, ◌⊎◌, min, Bool, true, false, not, ◌&&◌, ltb, if◌then◌else◌,
}

-- In milliseconds, with the number of readings of the flag.
pub record Nap : Type 0 where
  pub slept : ℕ
  pub remaining : ℕ
  pub readings : ℕ

abbrev pub slice : ℕ
slice = 100

unfoldable pub sleep_slice : Nap → Nap
sleep_slice n =
    let this_sleep = min slice n.remaining in
    record {
      slept = n.slept + this_sleep;
      remaining = n.remaining - this_sleep;
      readings = suc n.readings;
    }

-- The loop, on fuel.
unfoldable pub sleep_slices : (ℕ → Bool) → ℕ → Nap → Nap
sleep_slices stop zero n = n
sleep_slices stop (suc fuel) n =
    let rest = sleep_slices stop fuel (sleep_slice n) in
    if ltb 0 n.remaining && not (stop n.readings) then rest else n

-- A round for each millisecond would be enough.
unfoldable pub sleep_with_stop_check : (ℕ → Bool) → ℕ → Nap
sleep_with_stop_check stop total =
    sleep_slices stop total (record { slept = 0; remaining = total; readings = 0 })

-- The loop ended by its test, and what it did so far.
abbrev pub IsOver : (ℕ → Bool) → Nap → Type 0
IsOver stop n = (n.remaining ≡ 0) ⊎ (stop n.readings ≡ true)

-- The first so many readings found no Ctrl+C.
abbrev pub IsFree : (ℕ → Bool) → ℕ → Type 0
IsFree stop zero = Unit {0}
IsFree stop (suc n) = (stop n ≡ false) × IsFree stop n
