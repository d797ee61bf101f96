-- ===== src/Programs/ExecutorDemo/Busy.antt =====
-- apps/mw_executor_demo.cpp: the busy loop of a tick comes to its end.
use arun_work.Base.{
  ℕ, zero, suc, ◌≡◌, refl, ◌+◌, ◌%◌, ◌==◌, List, [], ◌∷◌, some, false, Bool-cases, Option-cases,
  inl, inr, arith, codes,
}
use arun_work.Base.Int.{ℤ, pos, ◌+ℤ◌, ◌≤ℤ◌, ltb_ℤ, int_laws}
use arun_work.Executor.State.{Executor, Report, running, require, not_due}
use arun_work.Executor.Calls.{timed_tick, step_node, step_nodes, step}
use arun_work.Programs.ExecutorDemo.{
  IClock, IDouble, Node, depth, control, telemetry, World, burn, tick_control, tick_node, nodes,
  wait_until,
}

-- A clock that never goes back: a reading is not before the time, and the time is then not before the
-- reading. A sleep takes at least as long as it is told.
pub record IsSteady {Clock : Type 0} (clock : IClock Clock) (time : Clock → ℤ) : Type 0 where
  pub reads : (c : Clock) → time c ≤ℤ (clock.steady_time_ns c).0
  pub goes_on : (c : Clock) → (clock.steady_time_ns c).0 ≤ℤ time (clock.steady_time_ns c).1
  pub sleeps : (d : ℤ) (c : Clock) → time c +ℤ d ≤ℤ time (clock.sleep_for d c)

-- The clock behind so many readings.
abbrev pub readings : {Clock : Type 0} → IClock Clock → ℕ → Clock → Clock
readings clock zero c = c
readings clock (suc n) c = readings clock n (clock.steady_time_ns c).1

-- So many readings in a row take 4 ms or more, whenever they begin.
abbrev pub Passes : {Clock : Type 0} → IClock Clock → ℕ → (Clock → ℤ) → Type 0
Passes {Clock} clock n time = (c : Clock) → time c +ℤ pos 4_000_000 ≤ℤ time (readings clock n c)

module _ {Clock Double : Type 0} (clock : IClock Clock) (double : IDouble Double) (patience : ℕ)
    (time : Clock → ℤ) (steady : IsSteady clock time) where
  burn-some :
      (n : ℕ) (until : ℤ) (c : Clock)
      → until ≤ℤ time (readings clock n c)
      → (c' : Clock) × (burn clock double patience (suc n) until c ≡ some c')
  unfolding burn
  burn-some zero until c h = elim (Bool-cases (ltb_ℤ (clock.steady_time_ns c).0 until)) [
    | inr over ↦ rw (over, burn) (_, refl)
    | inl busy ↦ let now = steady.reads c in absurd (ground (arith, h, busy, now))
  ]
  burn-some (suc n) until c h = elim (Bool-cases (ltb_ℤ (clock.steady_time_ns c).0 until)) [
    | inr over ↦ rw (over, burn) (_, refl)
    | inl busy ↦ rw (busy, burn) (burn-some n until (clock.steady_time_ns c).1 h)
  ]

  module _ (passes : Passes clock patience time) where
    tick_control-free :
        (w : World Clock Double)
        → w.stuck ≡ false
        → (tick_control clock double patience w).stuck ≡ false
    unfolding tick_control
    tick_control-free w h =
        let (now, c) = clock.steady_time_ns w.clock in
        let (c', ends) =
          burn-some patience (now +ℤ pos 4_000_000) c
            (omega (int_laws, steady.goes_on w.clock, passes c)) in
        elim (Bool-cases ((w.control_count + 1) % 10 == 0)) [
          | inl tenth ↦ rw (tenth, tick_control) (rw (ends, tick_control) h)
          | inr other ↦ rw (other, tick_control) h
        ]

    tick_node-free :
        (n : Node) (now : ℤ) (w : World Clock Double)
        → w.stuck ≡ false
        → (tick_node clock double patience n now w).stuck ≡ false
    unfolding tick_node
    tick_node-free depth now w h = h
    tick_node-free control now w h = tick_control-free w h
    tick_node-free telemetry now w h = h

    step_nodes-free :
        (now : ℤ) (ns : List Node) (dues : List ℤ) (rs : List Report) (w : World Clock Double)
        → w.stuck ≡ false
        → (step_nodes (nodes clock double patience) now ns dues rs w).2.stuck ≡ false
    unfolding step_nodes step_node timed_tick
    step_nodes-free now [] dues rs w h = h
    step_nodes-free now (n ∷ ns) [] rs w h = h
    step_nodes-free now (n ∷ ns) (due ∷ dues) [] w h = h
    step_nodes-free now (n ∷ ns) (due ∷ dues) (r ∷ rs) w h = elim (Bool-cases (not_due now due r)) [
      | inl wait ↦ rw wait (step_nodes-free now ns dues rs w h)
      | inr tick ↦ rw tick (step_nodes-free now ns dues rs _ (tick_node-free n now _ h))
    ]

    pub step-free :
        (now : ℤ) (ex : Executor Node) (w : World Clock Double)
        → w.stuck ≡ false
        → (step (nodes clock double patience) now ex w).2.stuck ≡ false
    unfolding step
    step-free now ex w h = elim (Option-cases (require ex.phase running (codes "step"))) [
      | inl e ↦ rw (e, step) (step_nodes-free now ex.nodes ex.next_due ex.reports w h)
      | inr (_, e) ↦ rw (e, step) h
    ]

  pub wait_until-free :
      (target : ℤ) (w : World Clock Double)
      → w.stuck ≡ false
      → (wait_until clock double patience target w).stuck ≡ false
  unfolding wait_until
  wait_until-free target w h = elim (Bool-cases (ltb_ℤ (clock.steady_time_ns w.clock).0 target)) [
    | inl early ↦ rw (early, wait_until) h
    | inr due ↦ rw (due, wait_until) h
  ]
