-- ===== src/Executor/Sync.antt =====
-- src/executor.cpp: the three parallel vectors stay in step, and every node on its schedule.
use arun_work.Base.{
  zero, suc, Option, none, ◌^◌, ◌-◌, ◌≡◌, refl, ◌||◌, false, List, All, [], ◌∷◌, arith, Bool-cases,
  Option-cases, inl, inr, codes,
}
use arun_work.Base.Int.{ℤ, pos, negsuc, ◌≤ℤ◌, ltb_ℤ}
use arun_work.Base.Words.{i64_min}
use arun_work.Executor.State.{
  INode, same_phase, NodeSpec, building, configured, running, Report, Executor, require, add,
  not_due, new_report, measure, reschedule,
}
use arun_work.Executor.Calls.{
  configure_from, start_from, configure_all, start_all, step_node, step_nodes, step, stop_all, Call,
  timed_tick, adds, configures, starts, steps, stops, apply_call, run,
}
use arun_work.Executor.Schedule.{IsScheduled, every_step, unstarted, tick-IsScheduled}
use arun_work.Executor.Firsts.{
  InSync, IsWf, mark, marks, unmarked, marked, InSync-kept, InSync-append,
}

module _ {Ref W : Type 0} (node : INode Ref W) (now : ℤ) (early : pos 0 ≤ℤ now)
    (fits : now ≤ℤ pos (2 ^ 63 - 1)) where
  reschedule-ticks : (due : ℤ) (r : Report) → (reschedule now due r).1.ticks ≡ r.ticks
  unfolding reschedule
  reschedule-ticks due r = ground arith

  step_node-IsScheduled :
      (n : Ref) (due : ℤ) (r : Report) (first : Option ℤ) (w : W)
      → IsScheduled first due r
      → let (due', r', w') = step_node node now n due r w in
        IsScheduled (mark now r.ticks r'.ticks first) due' r'
  unfolding step_node measure
  step_node-IsScheduled n due r first w h = elim (Bool-cases (not_due now due r)) [
    | inl wait ↦ rw wait (rw (unmarked now r.ticks first) h)
    | inr tick ↦
        let (thrown, took, w') = timed_tick node n now w in
        rw tick (
          rw (reschedule-ticks due (measure thrown took r), marked now r.ticks first)
            (tick-IsScheduled now early fits first due r thrown took h tick).0)
  ]

  step_nodes-InSync :
      (ns : List Ref) (dues : List ℤ) (rs : List Report) (fs : List (Option ℤ)) (w : W)
      → InSync ns dues rs fs
      → let (dues', rs', w') = step_nodes node now ns dues rs w in
        InSync ns dues' rs' (marks now rs rs' fs)
  unfolding step_nodes
  step_nodes-InSync [] [] [] [] w h = tt
  step_nodes-InSync (n ∷ ns) (due ∷ dues) (r ∷ rs) (f ∷ fs) w h =
      (step_node-IsScheduled n due r f w h.0, step_nodes-InSync ns dues rs fs _ h.1)
  step_nodes-InSync [] [] [] (_ ∷ _) w h = absurd h
  step_nodes-InSync [] [] (_ ∷ _) _ w h = absurd h
  step_nodes-InSync [] (_ ∷ _) _ _ w h = absurd h
  step_nodes-InSync (_ ∷ _) [] _ _ w h = absurd h
  step_nodes-InSync (_ ∷ _) (_ ∷ _) [] _ w h = absurd h
  step_nodes-InSync (_ ∷ _) (_ ∷ _) (_ ∷ _) [] w h = absurd h

  step-IsWf :
      (fs : List (Option ℤ)) (ex : Executor Ref) (w : W)
      → IsWf fs ex
      → let ex' = (step node now ex w).1 in IsWf (marks now ex.reports ex'.reports fs) ex'
  unfolding step
  step-IsWf fs ex w h = elim (Option-cases (require ex.phase running (codes "step"))) [
    | inl e ↦ rw (e, step) (step_nodes-InSync ex.nodes ex.next_due ex.reports fs w h)
    | inr (_, e) ↦ rw (e, step) (InSync-kept now ex.nodes ex.next_due ex.reports fs h)
  ]

-- The step times that a caller hands in are nanosecond counts of 63 bits.
abbrev pub IsTimely : {Ref : Type 0} → Call Ref → Type 0
IsTimely (steps now) = (pos 0 ≤ℤ now) × (now ≤ℤ pos (2 ^ 63 - 1))
IsTimely _ = Unit {0}

new_report-IsScheduled :
    (s : NodeSpec) → ltb_ℤ s.period_ns (pos 0) ≡ false → IsScheduled none i64_min (new_report s)
unfolding new_report
new_report-IsScheduled s h = by_period s.period_ns refl h
  where
    by_period :
        (p : ℤ)
        → s.period_ns ≡ p
        → ltb_ℤ p (pos 0) ≡ false
        → IsScheduled none i64_min (new_report s)
    by_period (pos zero) e h = every_step e
    by_period (pos (suc k)) e h = unstarted (suc k) (omega arith) e refl refl refl refl
    by_period (negsuc k) e h = absurd (ground arith)

-- The time that a call hands in.
abbrev pub time_of : {Ref : Type 0} → Call Ref → ℤ
time_of (steps now) = now
time_of _ = pos 0

module _ {Ref W : Type 0} (node : INode Ref W) where
  module _ (now : ℤ) (fs : List (Option ℤ)) (ex : Executor Ref) (h : IsWf fs ex) where
    -- What the call leaves is in order, with the first ticks that it adds.
    abbrev Follows : Executor Ref → Type 0
    Follows ex' = IsWf (marks now ex.reports ex'.reports fs) ex'

    kept : Follows ex
    kept = InSync-kept now ex.nodes ex.next_due ex.reports fs h

    add-IsWf : (n : Ref) (w : W) → Follows (add node n w ex).1
    unfolding add
    add-IsWf n w = elim (Option-cases (require ex.phase building (codes "add"))) [
      | inr (_, e) ↦ rw (e, add) kept
      | inl e ↦
          elim (Bool-cases
            (ltb_ℤ (node.spec n w).period_ns (pos 0) || ltb_ℤ (node.spec n w).budget_ns (pos 0))) [
              | inl f ↦ rw (e, add) (rw (f, add) kept)
              | inr f ↦
                  rw (e, add)
                    (rw (f, add)
                      (InSync-append now ex.nodes ex.next_due ex.reports fs n i64_min _ h
                        (new_report-IsScheduled (node.spec n w) (ground arith))))
            ]
    ]

    configure_all-IsWf : (w : W) → Follows (configure_all node ex w).1
    unfolding configure_all
    configure_all-IsWf w = elim (Option-cases (require ex.phase building (codes "configure_all"))) [
      | inr (_, e) ↦ rw (e, configure_all) kept
      | inl e ↦ elim (Option-cases (configure_from node ex.nodes ex.reports w).0) [
        | inl f ↦ rw (e, configure_all) (rw (f, configure_all) kept)
        | inr (_, f) ↦ rw (e, configure_all) (rw (f, configure_all) kept)
      ]
    ]

    start_all-IsWf : (w : W) → Follows (start_all node ex w).1
    unfolding start_all
    start_all-IsWf w = elim (Option-cases (require ex.phase configured (codes "start_all"))) [
      | inr (_, e) ↦ rw (e, start_all) kept
      | inl e ↦ elim (Option-cases (start_from node ex.nodes ex.nodes ex.reports 0 w).0) [
        | inl f ↦ rw (e, start_all) (rw (f, start_all) kept)
        | inr (_, f) ↦ rw (e, start_all) (rw (f, start_all) kept)
      ]
    ]

    stop_all-IsWf : (w : W) → Follows (stop_all node ex w).0
    unfolding stop_all
    stop_all-IsWf w = elim (Bool-cases (same_phase ex.phase running)) [
      | inl e ↦ rw e kept
      | inr e ↦ rw e kept
    ]

  apply_call-IsWf :
      (fs : List (Option ℤ)) (ex : Executor Ref) (w : W) (c : Call Ref)
      → IsTimely c
      → IsWf fs ex
      → let ex' = (apply_call node ex w c).0 in
        IsWf (marks (time_of c) ex.reports ex'.reports fs) ex'
  unfolding apply_call
  apply_call-IsWf fs ex w (adds n) t h = add-IsWf (pos 0) fs ex h n w
  apply_call-IsWf fs ex w configures t h = configure_all-IsWf (pos 0) fs ex h w
  apply_call-IsWf fs ex w starts t h = start_all-IsWf (pos 0) fs ex h w
  apply_call-IsWf fs ex w (steps now) t h = step-IsWf node now t.0 t.1 fs ex w h
  apply_call-IsWf fs ex w stops t h = stop_all-IsWf (pos 0) fs ex h w

  -- The times of the first ticks behind the calls: of each node that of the first step which changed
  -- its count of ticks.
  abbrev pub first_ticks : Executor Ref → W → List (Call Ref) → List (Option ℤ) → List (Option ℤ)
  first_ticks ex w [] fs = fs
  first_ticks ex w (c ∷ cs) fs =
      let (ex', w') = apply_call node ex w c in
      first_ticks ex' w' cs (marks (time_of c) ex.reports ex'.reports fs)

  -- Over any calls, whatever the nodes do and throw, and whatever order the step times (of 63 bits)
  -- come in: the three vectors keep one length; a node with no period has none to keep; one that has
  -- not been ticked is due at once; and the next due time of any other is the time of its first tick,
  -- which is that of the first step that changed its count of ticks, and one period for each tick and
  -- each missed slot.
  pub run-IsWf :
      (fs : List (Option ℤ)) (ex : Executor Ref) (w : W) (cs : List (Call Ref))
      → All IsTimely cs
      → IsWf fs ex
      → IsWf (first_ticks ex w cs fs) (run node ex w cs).0
  unfolding run
  run-IsWf fs ex w [] t h = h
  run-IsWf fs ex w (c ∷ cs) t h =
      run-IsWf (marks (time_of c) ex.reports (apply_call node ex w c).0.reports fs)
        (apply_call node ex w c).0 (apply_call node ex w c).1 cs t.1
        (apply_call-IsWf fs ex w c t.0 h)
