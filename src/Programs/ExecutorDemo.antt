-- ===== src/Programs/ExecutorDemo.antt =====
-- apps/mw_executor_demo.cpp: three nodes, and the loop that steps the executor by the real clock. The
-- clock and the floats are parameters; the report at the end is left out.
pub mod Busy
pub mod Paced
use arun_work.Base.{
  ℕ, zero, suc, ◌+◌, ◌*◌, ◌%◌, List, [], ◌∷◌, Option, none, some, Bool, true, false, ◌==◌, ltb,
  if◌then◌else◌, Bytes, codes, Exception, other, Result, ok, err, ◌>>=◌,
}
use arun_work.Base.Int.{ℤ, pos, ◌+ℤ◌, ◌-ℤ◌, ltb_ℤ}
use arun_work.Executor.State.{NodeSpec, INode, Executor, create, add}
use arun_work.Executor.Calls.{configure_all, start_all, step, stop_all}

-- `mw::steady_time_ns` and `std::this_thread::sleep_for`
pub record IClock (Clock : Type 0) : Type 0 where
  pub steady_time_ns : Clock → ℤ × Clock
  pub sleep_for : ℤ → Clock → Clock

-- The operations on `double`; `literal` is a decimal with its digits and how many of them stand behind
-- the point.
pub record IDouble (Double : Type 0) : Type 0 where
  pub of_ℤ : ℤ → Double
  pub literal : ℕ → ℕ → Double
  pub plus : Double → Double → Double
  pub times : Double → Double → Double
  pub divided : Double → Double → Double
  pub sin : Double → Double

-- `kMs`
abbrev pub ms : ℕ
ms = 1_000_000

pub data Node : Type 0 where
  depth control telemetry : Node

-- The clock, and the members of the three nodes. A world in which a busy loop has not ended is `stuck`.
pub record World (Clock Double : Type 0) : Type 0 where
  pub clock : Clock
  pub depth_m : Double
  pub depth_count : ℕ
  pub control_count : ℕ
  pub telemetry_count : ℕ
  pub stuck : Bool

abbrev pub spec_of : Node → NodeSpec
spec_of depth = record {
  name = codes "depth";
  period_ns = pos (10 * ms);
  budget_ns = pos (1 * ms);
  publishes = codes "nav/depth" ∷ [];
  subscribes = [];
}
spec_of control = record {
  name = codes "control";
  period_ns = pos (20 * ms);
  budget_ns = pos (2 * ms);
  publishes = codes "cmd/thrust" ∷ [];
  subscribes = codes "nav/depth" ∷ [];
}
spec_of telemetry = record {
  name = codes "telemetry";
  period_ns = pos (500 * ms);
  budget_ns = pos (5 * ms);
  publishes = [];
  subscribes = codes "nav/depth" ∷ codes "cmd/thrust" ∷ [];
}

module _ {Clock Double : Type 0} (clock : IClock Clock) (double : IDouble Double)
    (patience : ℕ) where
  open clock use {steady_time_ns, sleep_for}
  open double use {of_ℤ, literal, plus, times, divided, sin}

  abbrev pub read_clock : World Clock Double → ℤ × World Clock Double
  read_clock w = let (now, c) = steady_time_ns w.clock in (now, record w { clock = c })

  -- The loop that burns the budget; `none` if it is still busy after so many tests.
  unfoldable pub burn : ℕ → ℤ → Clock → Option Clock
  burn zero until c = none
  burn (suc fuel) until c =
      let (now, c') = steady_time_ns c in
      elim (ltb_ℤ now until) [ false ↦ some c' | true ↦ burn fuel until c' ]

  -- Every tenth tick burns 4 ms; `patience` is how many tests may find it busy.
  unfoldable pub tick_control : World Clock Double → World Clock Double
  tick_control w =
      let count = w.control_count + 1 in
      let (now, c) = steady_time_ns w.clock in
      if count % 10 == 0
      then elim (burn (suc patience) (now +ℤ pos (4 * ms)) c) [
        | none ↦ record w { control_count = count; stuck = true }
        | some c' ↦ record w { control_count = count; clock = c' }
      ]
      else record w { control_count = count }

  unfoldable pub tick_node : Node → ℤ → World Clock Double → World Clock Double
  tick_node depth now w = record w {
    depth_m =
        plus (literal 120 1)
          (times (literal 5 1) (sin (divided (of_ℤ now) (of_ℤ (pos 1_000_000_000)))));
    depth_count = w.depth_count + 1;
  }
  tick_node control now w = tick_control w
  tick_node telemetry now w = record w { telemetry_count = w.telemetry_count + 1 }

  -- No method of the three nodes throws, and only `tick` does anything.
  abbrev pub nodes : INode Node (World Clock Double)
  nodes = record {
    spec = λ n w. spec_of n;
    configure = λ n w. (none, w);
    start = λ n w. (none, w);
    tick = λ n now w. (none, tick_node n now w);
    stop = λ n w. w;
    steady_time_ns = read_clock;
  }

  -- `kPeriod` and `kRunFor`
  abbrev pub period : ℕ
  period = 5 * ms

  abbrev pub run_for : ℕ
  run_for = 2000 * ms

  -- How the loop ends: the exception of `step`, if any, the executor and the world, and the times that
  -- it was stepped with.
  pub record Run : Type 0 where
    pub thrown : Option Exception
    pub executor : Executor Node
    pub world : World Clock Double
    pub times : List ℤ

  -- The wait of one round, up to its slot.
  unfoldable pub wait_until : ℤ → World Clock Double → World Clock Double
  wait_until target w =
      let (now, w') = read_clock w in
      if ltb_ℤ now target then record w' { clock = sleep_for (target -ℤ now) w'.clock } else w'

  abbrev pub with_time : ℤ → Option Run → Option Run
  with_time t none = none
  with_time t (some run) = some (record run { times = t ∷ run.times })

  -- The real-time loop from round `n` on; `none` if the fuel does not last, or a tick does not end.
  unfoldable pub paced_loop : ℕ → ℕ → ℤ → Executor Node → World Clock Double → Option Run
  paced_loop zero n origin ex w = none
  paced_loop (suc fuel) n origin ex w = elim (ltb (n * period) run_for) [
    | false ↦ some (record { thrown = none; executor = ex; world = w; times = [] })
    | true ↦
        let (at, w') = read_clock (wait_until (origin +ℤ pos (n * period)) w) in
        let (thrown, ex', w'') = step nodes (at -ℤ origin) ex w' in
        elim w''.stuck [
          | true ↦ none
          | false ↦ elim thrown [
            | some e ↦ some (record {
              thrown = some e;
              executor = ex';
              world = w'';
              times = (at -ℤ origin) ∷ [];
            })
            | none ↦ with_time (at -ℤ origin) (paced_loop fuel (suc n) origin ex' w'')
          ]
        ]
  ]

  abbrev pub stopped_run : Option Run → Option Run
  stopped_run none = none
  stopped_run (some run) = elim run.thrown [
    | some e ↦ some run
    | none ↦
        let (ex, w) = stop_all nodes run.executor run.world in
        some (record run { executor = ex; world = w })
  ]

  abbrev returned : {A : Type 0} → Option Exception × A → Result Exception A
  returned (none, a) = ok a
  returned (some e, a) = err e

  abbrev returned_world :
      Option Exception × Executor Node × World Clock Double
      → Result Exception (Executor Node × World Clock Double)
  returned_world (none, ex, w) = ok (ex, w)
  returned_world (some e, ex, w) = err e

  -- A constructor gives an object, or it throws.
  abbrev created : {A : Type 0} → Option Exception × Option A → Result Exception A
  created (thrown, some a) = ok a
  created (some e, none) = err e
  created (none, none) = err other

  -- The executor with its three nodes, started.
  unfoldable pub set_up : World Clock Double → Result Exception (Executor Node × World Clock Double)
  set_up w = do
    ex ← created (create (pos period))
    ex ← returned (add nodes depth w ex)
    ex ← returned (add nodes control w ex)
    ex ← returned (add nodes telemetry w ex)
    configured ← returned_world (configure_all nodes ex w)
    returned_world (start_all nodes configured.0 configured.1)

  -- An exception of the set-up leaves `main`.
  unfoldable pub demo_main : ℕ → World Clock Double → Result Exception (Option Run)
  demo_main fuel w = do
    started ← set_up w
    let from_now = read_clock started.1
    ok (stopped_run (paced_loop fuel 0 from_now.0 started.0 from_now.1))
