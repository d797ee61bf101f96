-- ===== src/Executor/Schedule.antt =====
-- src/executor.cpp: when a node is due again.
use arun_work.Base.{
  ℕ, ◌+◌, ◌*◌, ◌/◌, ◌-◌, ◌^◌, ◌≤◌, ◌<◌, ◌≡◌, ◌⊎◌, ◌∙◌, refl, ap, false, Option, none, some, arith,
  Exception, inl, inr,
}
use arun_work.Base.Division.{quotient_bounds}
use arun_work.Base.Int.{
  ℤ, pos, ◌+ℤ◌, ◌-ℤ◌, ◌*ℤ◌, ◌/ℤ◌, ◌≤ℤ◌, ◌<ℤ◌, pos_part, neg_part, int_laws, +ℤ_parts,
  eq-pos_of_nonneg,
}
use native.Mathlib.Nat.{add-mul}
use arun_work.Base.Words.{u64, i64_min}
use arun_work.Executor.State.{Report, measure, reschedule, not_due}

-- A time on the node's grid: the first tick's time and a number of whole periods.
abbrev pub slot : ℤ → ℕ → ℕ → ℤ
slot first period n = first +ℤ pos (n * period)

diff_of_le : (a b : ℤ) → a ≤ℤ b → (b -ℤ a ≡ pos (pos_part (b -ℤ a))) × (neg_part (b -ℤ a) ≡ 0)
diff_of_le a b h = eq-pos_of_nonneg (b -ℤ a) (omega int_laws)

pos-div : (d k : ℕ) → pos d /ℤ pos k ≡ pos (d / k)
unfolding ◌/ℤ◌
pos-div d k = refl

whole : (s k : ℕ) → (pos s +ℤ pos 1) *ℤ pos k ≡ pos ((s + 1) * k)
unfolding ◌+ℤ◌ ◌*ℤ◌
whole s k = ground arith

-- `due` is a slot at or before `now`; `skipped` whole periods have passed since.
late_by :
    (now due : ℤ) (k : ℕ)
    → 0 < k
    → due ≤ℤ now
    → (s : ℕ) × ((now -ℤ due) /ℤ pos k ≡ pos s)
      × (due +ℤ (pos s +ℤ pos 1) *ℤ pos k ≡ slot due k (s + 1))
      × (slot due k s ≤ℤ now)
      × (now <ℤ slot due k (s + 1))
late_by now due k h le =
    let d : ℕ = pos_part (now -ℤ due) in
    let (low, high) = quotient_bounds d k h in
    (
      d / k,
      rw ((diff_of_le due now le).0) (pos-div d k),
      ap (◌+ℤ◌ due) (whole (d / k) k),
      omega (int_laws, (diff_of_le due now le).1, low),
      omega (int_laws, (diff_of_le due now le).1, high),
    )

-- The third branch of `reschedule`, taken by a node with a period that has been ticked before.
reschedule_late :
    (now due : ℤ) (k : ℕ) (r : Report) (s : ℕ)
    → 0 < k
    → r.period_ns ≡ pos k
    → pos 0 ≤ℤ due
    → (now -ℤ due) /ℤ pos k ≡ pos s
    → due +ℤ (pos s +ℤ pos 1) *ℤ pos k ≡ slot due k (s + 1)
    → reschedule now due r ≡ (slot due k (s + 1), record r { missed = u64 (r.missed + u64 s) })
unfolding reschedule
reschedule_late now due k r s h e pd q p = ground arith

slots_fit :
    (first now : ℤ) (k n : ℕ)
    → 0 < k
    → pos 0 ≤ℤ first
    → slot first k n ≤ℤ now
    → now ≤ℤ pos (2 ^ 63 - 1)
    → n < 2 ^ 63
slots_fit first now k n h f le b = grind (arith, n_le, +ℤ_parts first (pos (n * k)))
  where
    n_le : n ≤ n * k
    n_le = grind arith

slot-slot : (first : ℤ) (k m n : ℕ) → slot (slot first k m) k n ≡ slot first k (m + n)
slot-slot first k m n = omega (int_laws, add-mul m n k)

-- Where a node stands in its schedule, whose first tick was at `first`: it has none; it has not run;
-- or its next slot is the first tick's time and one period for each tick made and each tick missed.
pub data IsScheduled (first : Option ℤ) (due : ℤ) (r : Report) : Type 0 where
  every_step : r.period_ns ≡ pos 0 → IsScheduled first due r
  unstarted :
      (k : ℕ)
      → 0 < k
      → r.period_ns ≡ pos k
      → due ≡ i64_min
      → r.ticks ≡ 0
      → r.missed ≡ 0
      → first ≡ none
      → IsScheduled first due r
  on_grid :
      (start : ℤ) (k : ℕ)
      → pos 0 ≤ℤ start
      → 0 < k
      → r.period_ns ≡ pos k
      → due ≡ slot start k (r.ticks + r.missed)
      → first ≡ some start
      → IsScheduled first due r

-- The time of the first tick, once there is a tick at `now`.
abbrev pub first_tick : Option ℤ → ℤ → ℤ
first_tick none now = now
first_tick (some start) now = start

-- The next due time lies ahead, by at most one period.
abbrev pub IsNext : ℤ → ℤ → Report → Type 0
IsNext now due r = (r.period_ns ≡ pos 0) ⊎ ((now <ℤ due) × (due ≤ℤ now +ℤ r.period_ns))

module _ (now : ℤ) (early : pos 0 ≤ℤ now) (fits : now ≤ℤ pos (2 ^ 63 - 1)) where
  reschedule-every_step :
      (due : ℤ) (r : Report) → r.period_ns ≡ pos 0 → reschedule now due r ≡ (due, r)
  unfolding reschedule
  reschedule-every_step due r e = rw e refl

  reschedule-unstarted :
      (due : ℤ) (k : ℕ) (r : Report)
      → 0 < k
      → r.period_ns ≡ pos k
      → due ≡ i64_min
      → reschedule now due r ≡ (now +ℤ pos k, r)
  unfolding reschedule
  reschedule-unstarted due k r h e d = ground arith

  reschedule-on_grid :
      (first : ℤ) (k : ℕ) (due : ℤ) (r : Report) (ticks : ℕ)
      → pos 0 ≤ℤ first
      → 0 < k
      → r.period_ns ≡ pos k
      → due ≡ slot first k (ticks + r.missed)
      → r.ticks ≡ u64 (ticks + 1)
      → due ≤ℤ now
      → let (due', r') = reschedule now due r in
        (due' ≡ slot first k (r'.ticks + r'.missed))
        × (now <ℤ due')
        × (due' ≤ℤ now +ℤ pos k)
        × (r'.period_ns ≡ pos k)
  reschedule-on_grid first k due r ticks f h e d t le =
      let (s, q, p, low, high) = late_by now due k h le in
      rw (reschedule_late now due k r s h e (omega (int_laws, ap pos_part d, ap neg_part d)) q p) (
        rw (d, t)
            (slot-slot first k (ticks + r.missed) (s + 1)
              ∙ ap (slot first k) (
                  omega (
                    arith,
                    slots_fit first now k (ticks + r.missed + s) h f
                        (rw (d, slot-slot first k (ticks + r.missed) s) at low) fits,
                  ))),
        high,
        omega (int_laws, low, add-mul s 1 k),
        e,
      )

  -- A scheduled node that is due at a time of 63 bits stays on the grid of its first tick, which is
  -- this one if there was none, and comes due next at the first slot after that time.
  pub tick-IsScheduled :
      (first : Option ℤ) (due : ℤ) (r : Report) (thrown : Option Exception) (took : ℤ)
      → IsScheduled first due r
      → not_due now due r ≡ false
      → let (due', r') = reschedule now due (measure thrown took r) in
        IsScheduled (some (first_tick first now)) due' r' × IsNext now due' r'
  unfolding measure not_due
  tick-IsScheduled first due r thrown took (every_step e) n =
      rw (reschedule-every_step due (measure thrown took r) e) (every_step e, inl e)
  tick-IsScheduled first due r thrown took (unstarted k h e d t m f) n =
      rw (reschedule-unstarted due k (measure thrown took r) h e d) (
        on_grid now k early h e (rw (t, m) (omega int_laws)) (rw f refl),
        inr (omega int_laws, rw e (omega arith)),
      )
  tick-IsScheduled first due r thrown took (on_grid start k f h e d s) n =
      let (d', low, high, e') =
        reschedule-on_grid start k due (measure thrown took r) r.ticks f h e d refl
          (ground arith) in
      (on_grid start k f h e' d' (rw s refl), inr (low, rw e' high))
