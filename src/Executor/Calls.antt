-- ===== src/Executor/Calls.antt =====
-- src/executor.cpp: the calls that go through all nodes. Each returns the exception that it throws,
-- if any, beside the executor and the outside as it leaves them. The three parallel vectors are
-- walked together; `Sync` shows that they are of one length.
use arun_work.Base.{
  ℕ, zero, suc, ◌+◌, List, [], ◌∷◌, ◌++◌, Option, none, some, if◌then◌else◌, length, get_elem?,
  Bytes, codes, Exception, runtime_error, what,
}
use arun_work.Base.Int.{ℤ, ◌-ℤ◌}
use arun_work.Base.Words.{u64}
use arun_work.Executor.State.{
  INode, building, configured, running, stopped, same_phase, Report, Executor, require, measure,
  reschedule, not_due, add,
}

-- What a handler for `std::exception` throws instead; another exception goes on as it is.
unfoldable pub rethrown : Bytes → Bytes → Bytes → Exception → Exception
rethrown called name failed e = elim (what e) [
  | none ↦ e
  | some text ↦ runtime_error (
      codes "mw::Executor::"
      ++ called
      ++ codes ": node '"
      ++ name
      ++ codes "' failed to "
      ++ failed
      ++ codes ": "
      ++ text)
]

module _ {Ref W : Type 0} (node : INode Ref W) where
  open node use {configure, start, tick, stop, steady_time_ns}

  unfoldable pub configure_from : List Ref → List Report → W → Option Exception × W
  configure_from (n ∷ ns) (r ∷ rs) w =
      let (thrown, w') = configure n w in
      elim thrown [
        | none ↦ configure_from ns rs w'
        | some e ↦ (some (rethrown (codes "configure_all") r.name (codes "configure") e), w')
      ]
  configure_from _ _ w = (none, w)

  unfoldable pub configure_all : Executor Ref → W → Option Exception × Executor Ref × W
  configure_all ex w = elim (require ex.phase building (codes "configure_all")) [
    | some e ↦ (some e, ex, w)
    | none ↦
        let (thrown, w') = configure_from ex.nodes ex.reports w in
        elim thrown [
          | some e ↦ (some e, ex, w')
          | none ↦ (none, record ex { phase = configured }, w')
        ]
  ]

  -- `for (j = count; j > 0; --j) nodes[j - 1]->stop()`
  unfoldable pub stop_down : List Ref → ℕ → W → W
  stop_down nodes zero w = w
  stop_down nodes (suc j) w =
      stop_down nodes j (elim (get_elem? nodes j) [ none ↦ w | some n ↦ stop n w ])

  -- `started` counts the nodes before those still to start. `what e ≡ none` is the exception that
  -- the handler does not catch.
  unfoldable pub start_from : List Ref → List Ref → List Report → ℕ → W → Option Exception × ℕ × W
  start_from all (n ∷ ns) (r ∷ rs) started w =
      let (thrown, w') = start n w in
      elim thrown [
        | none ↦ start_from all ns rs (started + 1) w'
        | some e ↦ elim (what e) [
          | none ↦ (some e, started, w')
          | some _ ↦ (
            some (rethrown (codes "start_all") r.name (codes "start") e),
            0,
            stop_down all started w',
          )
        ]
      ]
  start_from all _ _ started w = (none, started, w)

  unfoldable pub start_all : Executor Ref → W → Option Exception × Executor Ref × W
  start_all ex w = elim (require ex.phase configured (codes "start_all")) [
    | some e ↦ (some e, ex, w)
    | none ↦
        let (thrown, count, w') = start_from ex.nodes ex.nodes ex.reports 0 w in
        elim thrown [
          | some e ↦ (some e, record ex { started = count }, w')
          | none ↦ (none, record ex { started = count; phase = running }, w')
        ]
  ]

  -- One tick between two readings of the measurement clock: what it threw, how long it took.
  unfoldable pub timed_tick : Ref → ℤ → W → Option Exception × ℤ × W
  timed_tick n now w =
      let (began, w1) = steady_time_ns w in
      let (thrown, w2) = tick n now w1 in
      let (ended, w3) = steady_time_ns w2 in (thrown, ended -ℤ began, w3)

  -- One round of the loop in `step`.
  unfoldable pub step_node : ℤ → Ref → ℤ → Report → W → ℤ × Report × W
  step_node now n due r w =
      let (thrown, took, w') = timed_tick n now w in
      let (due', r') = reschedule now due (measure thrown took r) in
      if not_due now due r then (due, r, w) else (due', r', w')

  unfoldable pub step_nodes : ℤ → List Ref → List ℤ → List Report → W → List ℤ × List Report × W
  step_nodes now (n ∷ ns) (due ∷ dues) (r ∷ rs) w =
      let (due', r', w') = step_node now n due r w in
      let (dues', rs', w'') = step_nodes now ns dues rs w' in (due' ∷ dues', r' ∷ rs', w'')
  step_nodes now _ dues rs w = (dues, rs, w)

  unfoldable pub step : ℤ → Executor Ref → W → Option Exception × Executor Ref × W
  step now ex w = elim (require ex.phase running (codes "step")) [
    | some e ↦ (some e, ex, w)
    | none ↦
        let (dues, rs, w') = step_nodes now ex.nodes ex.next_due ex.reports w in
        (
          none,
          record ex { step_count = u64 (ex.step_count + 1); next_due = dues; reports = rs },
          w',
        )
  ]

  unfoldable pub stop_all : Executor Ref → W → Executor Ref × W
  stop_all ex w =
      if same_phase ex.phase running
      then (record ex { phase = stopped }, stop_down ex.nodes (length ex.nodes) w)
      else (record ex { phase = stopped }, w)

  -- The destructor, on an executor that has not been moved from.
  unfoldable pub destroy : Executor Ref → W → W
  destroy ex w = (stop_all ex w).1

-- What the owner of an executor does with it; an exception is caught, and the next call follows.
pub data Call (Ref : Type 0) : Type 0 where
  adds : Ref → Call Ref
  configures starts stops : Call Ref
  steps : ℤ → Call Ref

module _ {Ref W : Type 0} (node : INode Ref W) where
  unfoldable pub apply_call : Executor Ref → W → Call Ref → Executor Ref × W
  apply_call ex w (adds n) = ((add node n w ex).1, w)
  apply_call ex w configures = let (_, ex', w') = configure_all node ex w in (ex', w')
  apply_call ex w starts = let (_, ex', w') = start_all node ex w in (ex', w')
  apply_call ex w (steps now) = let (_, ex', w') = step node now ex w in (ex', w')
  apply_call ex w stops = stop_all node ex w

  unfoldable pub run : Executor Ref → W → List (Call Ref) → Executor Ref × W
  run ex w [] = (ex, w)
  run ex w (c ∷ cs) = let (ex', w') = apply_call ex w c in run ex' w' cs
