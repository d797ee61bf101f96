-- ===== src/Executor/Runs.antt =====
-- src/executor.cpp with nodes that write down what is asked of them.
use arun_work.Base.{
  ℕ, ◌+◌, ◌==◌, ◌≡◌, refl, List, [], ◌∷◌, Option, none, some, arith, if◌then◌else◌, Exception,
  other, runtime_error, codes,
}
use arun_work.Base.Int.{pos, ◌+ℤ◌}
use arun_work.Base.Words.{i64_min}
use arun_work.Executor.State.{
  INode, Executor, Report, building, configured, running, stopped, new_report, measure, reschedule,
  not_due, require, add,
}
use arun_work.Executor.Calls.{
  adds, configures, starts, steps, run, start_all, stop_all, destroy, apply_call, step,
  configure_all, configure_from, start_from, step_nodes, step_node,
}
use arun_work.Executor.Schedule.{IsScheduled, IsNext, on_grid, unstarted, tick-IsScheduled}
use arun_work.Executor.Firsts.{IsWf}
use arun_work.Executor.Sync.{run-IsWf}
use arun_work.Executor.Lifecycle.{start_all_leaks}
use arun_work.Executor.Phases.{stop_all_reverses}

-- Node 8 cannot start; node 9 cannot either, and throws no standard exception.
abbrev refusal : ℕ → Option Exception
refusal n =
    if n == 8 then some (runtime_error (codes "no device")) else if n == 9 then some other else none

abbrev node : INode ℕ (List ℕ)
node = record {
  spec = λ n w. record {
    name = codes "n";
    period_ns = pos 10;
    budget_ns = pos 5;
    publishes = [];
    subscribes = [];
  };
  configure = λ n w. (none, w);
  start = λ n w. (refusal n, n ∷ w);
  tick = λ n now w. (none, (20 + n) ∷ w);
  stop = λ n w. (40 + n) ∷ w;
  steady_time_ns = λ w. (pos 0, w);
}

abbrev empty : Executor ℕ
empty = record {
  period_ns = pos 10;
  phase = building;
  step_count = 0;
  nodes = [];
  next_due = [];
  reports = [];
  started = 0;
}

abbrev report : Report
report = new_report (node.spec 1 [])

abbrev two : List ℕ → Executor ℕ
two ns = record {
  period_ns = pos 10;
  phase = configured;
  step_count = 0;
  nodes = 1 ∷ ns;
  next_due = i64_min ∷ i64_min ∷ [];
  reports = report ∷ report ∷ [];
  started = 0;
}

run-IsWf_example :
    IsWf
      (some (pos 5) ∷ some (pos 5) ∷ [])
      (run node empty []
        (adds 1 ∷ adds 2 ∷ configures ∷ starts ∷ steps (pos 5) ∷ steps (pos 47) ∷ [])).0
unfolding apply_call step run require start_all configure_all add configure_from start_from
    step_nodes step_node not_due new_report reschedule measure ◌+ℤ◌
run-IsWf_example =
    run-IsWf node [] empty []
      (adds 1 ∷ adds 2 ∷ configures ∷ starts ∷ steps (pos 5) ∷ steps (pos 47) ∷ [])
      (tt, (tt, (tt, (tt, ((omega arith, omega arith), ((omega arith, omega arith), tt)))))) tt

-- Due at 15 after a tick at 5, and ticked at 47: three slots are missed, and the next is at 55.
abbrev ticked : Report
ticked = record report { ticks = 1 }

tick-IsScheduled_example :
    let (due', r') = reschedule (pos 47) (pos 15) (measure none (pos 2) ticked) in
    IsScheduled (some (pos 5)) due' r' × IsNext (pos 47) due' r'
unfolding new_report
tick-IsScheduled_example =
    tick-IsScheduled (pos 47) (omega arith) (omega arith) (some (pos 5)) (pos 15) ticked none
      (pos 2) (on_grid (pos 5) 10 (omega arith) (omega arith) refl (unfold ◌+ℤ◌ in refl) refl)
      (unfold not_due in refl)

two-IsWf : (n : ℕ) → IsWf (none ∷ none ∷ []) (two (n ∷ []))
unfolding new_report
two-IsWf n = (due, (due, tt))
  where
    due : IsScheduled none i64_min report
    due = unstarted 10 (omega arith) refl refl refl refl refl

-- Node 1 is left running.
start_all_leaks_example :
    let (out, ex', w') = start_all node (two (9 ∷ [])) [] in
    (out ≡ some other)
    × (w' ≡ 9 ∷ 1 ∷ [])
    × ((stop_all node ex' w').1 ≡ 9 ∷ 1 ∷ [])
    × (destroy node ex' w' ≡ 9 ∷ 1 ∷ [])
start_all_leaks_example =
    start_all_leaks node (two (9 ∷ [])) [] (1 ∷ []) (9 ∷ 1 ∷ []) (1 ∷ []) [] 9 (report ∷ []) []
      report other refl refl refl refl refl refl refl

abbrev running_two : Executor ℕ
running_two = record (two (2 ∷ [])) { phase = running; started = 2 }

stop_all_reverses_example :
    let (ex', w') = stop_all node running_two [] in
    (w' ≡ 41 ∷ 42 ∷ []) × (ex'.phase ≡ stopped) × (destroy node ex' w' ≡ w')
stop_all_reverses_example = stop_all_reverses node running_two [] refl
