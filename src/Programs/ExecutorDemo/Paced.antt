-- ===== src/Programs/ExecutorDemo/Paced.antt =====
-- apps/mw_executor_demo.cpp: the loop steps the executor 400 times, and never before its slot.
use arun_work.Base.{
  ℕ, zero, suc, ◌+◌, ◌*◌, ◌<◌, ◌≤◌, ◌≡◌, ◌∙◌, refl, ap, List, [], ◌∷◌, length, Option, none, some,
  true, false, ltb, Exception, Result, ok, err, Bool-cases, inl, inr, arith,
}
use arun_work.Base.Int.{ℤ, pos, ◌+ℤ◌, ◌-ℤ◌, ◌≤ℤ◌, ltb_ℤ, int_laws}
use arun_work.Base.Words.{u64}
use arun_work.Executor.State.{Executor, running, stopped, require, create, add, new_report}
use arun_work.Executor.Calls.{step, stop_all, configure_all, configure_from, start_all, start_from}
use arun_work.Programs.ExecutorDemo.Busy.{IsSteady, Passes, step-free, wait_until-free}
use arun_work.Programs.ExecutorDemo.{
  IClock, IDouble, Node, World, nodes, wait_until, Run, stopped_run, read_clock, with_time,
  paced_loop, set_up, demo_main,
}

-- The round `n` has its slot at `n * period`.
abbrev pub IsPaced : ℕ → List ℤ → Type 0
IsPaced n [] = Unit {0}
IsPaced n (t ∷ ts) = (pos (n * 5_000_000) ≤ℤ t) × IsPaced (suc n) ts

under : (n : ℕ) → n < 400 → ltb (n * 5_000_000) 2_000_000_000 ≡ true
under n h = ground (arith, h)

over : (n : ℕ) → 400 ≤ n → ltb (n * 5_000_000) 2_000_000_000 ≡ false
over n h = ground (arith, h)

not_early : (a b : ℤ) → ltb_ℤ a b ≡ false → b ≤ℤ a
not_early a b h = ground (arith, h)

module _ {Clock Double : Type 0} (clock : IClock Clock) (double : IDouble Double) (patience : ℕ)
    (time : Clock → ℤ) (steady : IsSteady clock time) (passes : Passes clock patience time) where
  -- Behind the wait of a round its slot has come.
  wait_until-over :
      (target : ℤ) (w : World Clock Double)
      → target ≤ℤ time (wait_until clock double patience target w).clock
  unfolding wait_until
  wait_until-over target w =
      let now = (clock.steady_time_ns w.clock).0 in
      let c = (clock.steady_time_ns w.clock).1 in
      elim (Bool-cases (ltb_ℤ now target)) [
        | inl early ↦
            rw (early, wait_until)
              (omega (int_laws, steady.goes_on w.clock, steady.sleeps (target -ℤ now) c))
        | inr due ↦
            rw (due, wait_until)
              (omega (int_laws, steady.goes_on w.clock, not_early now target due))
      ]

  step-running :
      (now : ℤ) (ex : Executor Node) (w : World Clock Double)
      → ex.phase ≡ running
      → let (thrown, ex', w') = step (nodes clock double patience) now ex w in
        (thrown ≡ none) × (ex'.phase ≡ running) × (ex'.step_count ≡ u64 (ex.step_count + 1))
  unfolding step require
  step-running now ex w up = rw (up, step, require) (refl, up, refl)

  abbrev pub IsPacedRun : ℕ → ℕ → Executor Node → Option (Run clock double patience) → Type 0
  IsPacedRun n left ex none = ⊥
  IsPacedRun n left ex (some run) =
      (run.thrown ≡ none)
      × (run.executor.phase ≡ running)
      × (u64 run.executor.step_count ≡ u64 (ex.step_count + left))
      × (length run.times ≡ left)
      × IsPaced n run.times

  one_more :
      (t : ℤ) (later : Option (Run clock double patience)) (n left : ℕ) (ex ex' : Executor Node)
      → pos (n * 5_000_000) ≤ℤ t
      → ex'.step_count ≡ u64 (ex.step_count + 1)
      → IsPacedRun (suc n) left ex' later
      → IsPacedRun n (suc left) ex (with_time clock double patience t later)
  one_more t none n left ex ex' slot count h = h
  one_more t (some run) n left ex ex' slot count (fine, up, steps, rounds, paced) =
      (fine, up, steps ∙ omega (arith, count), ap suc rounds, (slot, paced))

  module _ (fuel n : ℕ) (origin : ℤ) (ex : Executor Node) (w : World Clock Double) where
    abbrev stepped : Option Exception × Executor Node × World Clock Double
    stepped =
        let (at, w') =
          read_clock clock double patience
            (wait_until clock double patience (origin +ℤ pos (n * 5_000_000)) w) in
        step (nodes clock double patience) (at -ℤ origin) ex w'

    -- The time that the round steps the executor with.
    abbrev at_time : ℤ
    at_time =
        (read_clock clock double patience
          (wait_until clock double patience (origin +ℤ pos (n * 5_000_000)) w)).0
        -ℤ origin

    paced_loop-over :
        400 ≤ n
        → paced_loop clock double patience (suc fuel) n origin ex w
          ≡ some (record { thrown = none; executor = ex; world = w; times = [] })
    unfolding paced_loop
    paced_loop-over h = rw (over n h, paced_loop) refl

    paced_loop-suc :
        n < 400
        → stepped.0 ≡ none
        → stepped.2.stuck ≡ false
        → paced_loop clock double patience (suc fuel) n origin ex w
          ≡ with_time clock double patience at_time
              (paced_loop clock double patience fuel (suc n) origin stepped.1 stepped.2)
    unfolding paced_loop
    paced_loop-suc h e free =
        rw (under n h, paced_loop) (rw (free, paced_loop) (rw (e, paced_loop) refl))

    stepped-free : w.stuck ≡ false → stepped.2.stuck ≡ false
    stepped-free free =
        step-free clock double patience time steady passes at_time ex
          (read_clock clock double patience
            (wait_until clock double patience (origin +ℤ pos (n * 5_000_000)) w)).1
          (wait_until-free clock double patience time steady (origin +ℤ pos (n * 5_000_000)) w free)

    at_time-slot : pos (n * 5_000_000) ≤ℤ at_time
    at_time-slot = omega (
      int_laws,
      wait_until-over (origin +ℤ pos (n * 5_000_000)) w,
      steady.reads (wait_until clock double patience (origin +ℤ pos (n * 5_000_000)) w).clock,
    )

  -- With `left` rounds to go, and fuel for one more.
  paced_loop-IsPacedRun :
      (left n : ℕ) (origin : ℤ) (ex : Executor Node) (w : World Clock Double)
      → n + left ≡ 400
      → ex.phase ≡ running
      → w.stuck ≡ false
      → IsPacedRun n left ex (paced_loop clock double patience (suc left) n origin ex w)
  paced_loop-IsPacedRun zero n origin ex w e up free =
      rw (paced_loop-over 0 n origin ex w (omega (arith, e))) (refl, up, omega arith, refl, tt)
  paced_loop-IsPacedRun (suc left) n origin ex w e up free =
      let later = stepped-free (suc left) n origin ex w free in
      let (went, still, count) =
        step-running (at_time (suc left) n origin ex w) ex
          (read_clock clock double patience
            (wait_until clock double patience (origin +ℤ pos (n * 5_000_000)) w)).1
          up in
      rw (paced_loop-suc (suc left) n origin ex w (omega (arith, e)) went later) (
        one_more (at_time (suc left) n origin ex w) _ n left ex (stepped (suc left) n origin ex w).1
          (at_time-slot (suc left) n origin ex w) count
          (paced_loop-IsPacedRun left (suc n) origin (stepped (suc left) n origin ex w).1
            (stepped (suc left) n origin ex w).2 (omega (arith, e)) still later))

  set_up-running :
      (w : World Clock Double)
      → (p : Executor Node × World Clock Double) × (set_up clock double patience w ≡ ok p)
        × (p.0.phase ≡ running)
        × ◌≡◌ {A = ℕ} p.0.step_count 0
        × (p.1.stuck ≡ w.stuck)
  unfolding set_up create add require new_report configure_all configure_from start_all start_from
  set_up-running w = (_, refl, refl, refl, refl)

  abbrev pub IsDemoRun : Result Exception (Option (Run clock double patience)) → Type 0
  IsDemoRun (err e) = ⊥
  IsDemoRun (ok none) = ⊥
  IsDemoRun (ok (some run)) =
      (run.thrown ≡ none)
      × (run.executor.phase ≡ stopped)
      × (u64 run.executor.step_count ≡ 400)
      × (length run.times ≡ 400)
      × IsPaced 0 run.times

  stopped_run-IsDemoRun :
      (ex : Executor Node) (o : Option (Run clock double patience))
      → ◌≡◌ {A = ℕ} ex.step_count 0
      → IsPacedRun 0 400 ex o
      → IsDemoRun (ok (stopped_run clock double patience o))
  unfolding stop_all
  stopped_run-IsDemoRun ex none none_yet h = h
  stopped_run-IsDemoRun ex (some run) none_yet (fine, up, steps, rounds, paced) =
      rw fine (rw (up, stop_all) (fine, refl, steps ∙ omega (arith, none_yet), rounds, paced))

  -- With a clock that never goes back and of which so many readings as the busy loop is given take
  -- 4 ms, and fuel for 401 tests of the loop, the program comes to its end: every tick ends, nothing
  -- throws, the executor was stepped 400 times and is stopped, and the step of round `n` was handed a
  -- time of at least `n` periods since the start, however late the rounds before it were.
  pub demo_main-IsDemoRun :
      (w : World Clock Double) → w.stuck ≡ false → IsDemoRun (demo_main clock double patience 401 w)
  unfolding demo_main
  demo_main-IsDemoRun w free =
      let (p, made, up, none_yet, same) = set_up-running w in
      rw made (
        stopped_run-IsDemoRun p.0 _ none_yet (
          paced_loop-IsPacedRun 400 0 (read_clock clock double patience p.1).0 p.0
            (read_clock clock double patience p.1).1 (omega arith) up (same ∙ free)))
