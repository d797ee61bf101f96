-- ===== src/Executor/State.antt =====
-- include/mw/node.hpp, include/mw/executor.hpp and src/executor.cpp: the executor's state, and what
-- `add` and one tick do to it.
-- The nodes' code and the measurement clock belong to the outside: `INode` is
-- what the executor may ask of them, over a state `W` that they all share, so that a node which is
-- added twice is one node. `std::int64_t` times are unbounded integers here (`Schedule` bounds
-- them); the 64-bit counters wrap.
use arun_work.Base.{
  ℕ, ◌+◌, Bool, true, false, ◌&&◌, ◌||◌, List, [], ◌∷◌, ◌++◌, Option, none, some, if◌then◌else◌,
  Bytes, codes, Exception, logic_error, invalid_argument,
}
use arun_work.Base.Int.{ℤ, pos, ◌+ℤ◌, ◌-ℤ◌, ◌*ℤ◌, ◌/ℤ◌, ltb_ℤ, leb_ℤ, eq_ℤ}
use arun_work.Base.Words.{u64, u64_of, i64_min}

pub record NodeSpec : Type 0 where
  pub name : Bytes
  pub period_ns : ℤ
  pub budget_ns : ℤ
  pub publishes : List Bytes
  pub subscribes : List Bytes

-- A node's method returns, or it throws; either way it may have changed the outside.
pub record INode (Ref W : Type 0) : Type 0 where
  pub spec : Ref → W → NodeSpec
  pub configure : Ref → W → Option Exception × W
  pub start : Ref → W → Option Exception × W
  pub tick : Ref → ℤ → W → Option Exception × W
  pub stop : Ref → W → W
  pub steady_time_ns : W → ℤ × W

pub data Phase : Type 0 where
  building configured running stopped : Phase

pub Phase-discrete : Discrete Phase
Phase-discrete = hlevel

abbrev pub same_phase : Phase → Phase → Bool
same_phase building building = true
same_phase configured configured = true
same_phase running running = true
same_phase stopped stopped = true
same_phase _ _ = false

pub to_text : Phase → Bytes
to_text building = codes "building"
to_text configured = codes "configured"
to_text running = codes "running"
to_text stopped = codes "stopped"

pub record Report : Type 0 where
  pub name : Bytes
  pub period_ns : ℤ
  pub budget_ns : ℤ
  pub ticks : ℕ
  pub faults : ℕ
  pub overruns : ℕ
  pub missed : ℕ
  pub last_ns : ℤ
  pub max_ns : ℤ
  pub total_ns : ℤ

pub record Executor (Ref : Type 0) : Type 0 where
  pub period_ns : ℤ
  pub phase : Phase
  pub step_count : ℕ
  pub nodes : List Ref
  pub next_due : List ℤ
  pub reports : List Report
  pub started : ℕ

-- The exception of `require`, if it throws.
unfoldable pub require : Phase → Phase → Bytes → Option Exception
require phase expected called =
    if same_phase phase expected
    then none
    else some (
        logic_error (
          codes "mw::Executor::"
          ++ called
          ++ codes ": executor is "
          ++ to_text phase
          ++ codes ", expected "
          ++ to_text expected))

unfoldable pub create : {Ref : Type 0} → ℤ → Option Exception × Option (Executor Ref)
create period =
    if leb_ℤ period (pos 0)
    then (some (invalid_argument (codes "mw::Executor: period_ns must be positive")), none)
    else (
      none,
      some (record {
        period_ns = period;
        phase = building;
        step_count = 0;
        nodes = [];
        next_due = [];
        reports = [];
        started = 0;
      }),
    )

unfoldable pub new_report : NodeSpec → Report
new_report spec = record {
  name = spec.name;
  period_ns = spec.period_ns;
  budget_ns = spec.budget_ns;
  ticks = 0;
  faults = 0;
  overruns = 0;
  missed = 0;
  last_ns = pos 0;
  max_ns = pos 0;
  total_ns = pos 0;
}

-- What the measurement of one tick adds to the report.
unfoldable pub measure : Option Exception → ℤ → Report → Report
measure thrown took r = record r {
  faults = elim thrown [ none ↦ r.faults | some _ ↦ u64 (r.faults + 1) ];
  ticks = u64 (r.ticks + 1);
  last_ns = took;
  total_ns = r.total_ns +ℤ took;
  max_ns = if ltb_ℤ r.max_ns took then took else r.max_ns;
  overruns =
      if ltb_ℤ (pos 0) r.budget_ns && ltb_ℤ r.budget_ns took
      then u64 (r.overruns + 1)
      else r.overruns;
}

-- The next due time, and the report with the slots that were dropped.
unfoldable pub reschedule : ℤ → ℤ → Report → ℤ × Report
reschedule now due r =
    let skipped : ℤ = (now -ℤ due) /ℤ r.period_ns in
    if eq_ℤ r.period_ns (pos 0)
    then (due, r)
    else if eq_ℤ due i64_min
    then (now +ℤ r.period_ns, r)
    else (
      due +ℤ (skipped +ℤ pos 1) *ℤ r.period_ns,
      record r { missed = u64 (r.missed + u64_of skipped) },
    )

-- The test of the `continue` at the head of the loop.
unfoldable pub not_due : ℤ → ℤ → Report → Bool
not_due now due r = ltb_ℤ (pos 0) r.period_ns && ltb_ℤ now due

module _ {Ref W : Type 0} (node : INode Ref W) where
  open node use {spec, configure, start, tick, stop, steady_time_ns}

  unfoldable pub add : Ref → W → Executor Ref → Option Exception × Executor Ref
  add n w ex =
      let s : NodeSpec = spec n w in
      elim (require ex.phase building (codes "add")) [
        | some e ↦ (some e, ex)
        | none ↦
            if ltb_ℤ s.period_ns (pos 0) || ltb_ℤ s.budget_ns (pos 0)
            then (
              some (
                  invalid_argument (
                    codes "mw::Executor::add: node '"
                    ++ s.name
                    ++ codes "' declares a negative period or budget")),
              ex,
            )
            else (
              none,
              record ex {
                nodes = ex.nodes ++ n ∷ [];
                next_due = ex.next_due ++ i64_min ∷ [];
                reports = ex.reports ++ new_report s ∷ [];
              },
            )
      ]
