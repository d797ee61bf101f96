-- ===== src/Programs/Runs.antt =====
-- apps/mw_pub.cpp, apps/mw_sub.cpp and apps/mw_executor_demo.cpp: small runs.
mod Archive
mod Swarm
mod Watching
use arun_work.Base.{
  ℕ, ◌≡◌, refl, List, [], ◌∷◌, picked, length, true, false, Option, none, some, Bool, Bytes, codes,
  arith,
}
use arun_work.Base.Int.{ℤ, pos, ◌+ℤ◌, int_laws}
use arun_work.Transport.{Publisher}
use arun_work.Transport.Stream.{parts_of}
use arun_work.Transport.Samples.{Wire, wire, new_wire, wire-IsPub, wire-IsQueue}
use arun_work.Header.{Header, stamp}
use arun_work.Programs.Heartbeats.{Heartbeat, IBeats, Clocks, beat, publish_beats, listen}
use arun_work.Programs.Heartbeats.Gaps.{messages, report, listen-publish_beats}
use arun_work.Programs.ExecutorDemo.{IClock, IDouble, World, demo_main}
use arun_work.Programs.ExecutorDemo.Busy.{IsSteady, Passes}
use arun_work.Programs.ExecutorDemo.Paced.{IsDemoRun, demo_main-IsDemoRun}

-- A heartbeat in one byte, its sequence number; all clocks stand at 0.
abbrev still : Clocks
still = record { wall = pos 0; steady = pos 0 }

abbrev decoded : Bytes → Option Heartbeat
decoded (n ∷ []) = some (beat (pos 0) still n).0
decoded _ = none

abbrev header_of : Option Heartbeat → Option (Option Header)
header_of none = none
header_of (some hb) = some (some hb.header)

abbrev beats : IBeats
beats = record {
  serialize = λ hb. hb.header.sequence ∷ [];
  parse = decoded;
  parse_any = λ bytes size. header_of (decoded bytes);
  IsEncodable = λ hb. (beat (pos 0) still hb.header.sequence).0 ≡ hb;
  parse-serialize = λ hb h. rw h refl;
  parse_any-serialize = λ hb h. rw h refl;
}

abbrev topic : Bytes
topic = codes "health.heartbeat"

abbrev rounds : List Clocks
rounds = still ∷ still ∷ still ∷ []

-- The second of three heartbeats is lost.
abbrev arrives : List Bool
arrives = true ∷ false ∷ true ∷ []

abbrev publisher : Publisher Wire
publisher = record { sock = new_wire; dropped = 0 }

abbrev full : Wire
full = record new_wire {
  waiting = parts_of (picked arrives (messages beats topic (pos 0) rounds 0));
}

listen-publish_beats_example :
    let (answers, last, p') = publish_beats beats wire topic (pos 0) rounds 0 publisher in
    (p'.sock.accepted ≡ parts_of (picked answers (messages beats topic (pos 0) rounds 0)))
    × ((listen beats wire 2 full (record { expected = 0; first = true })).0
        ≡ report beats topic (pos 0) true false 0 arrives rounds)
unfolding beat stamp
listen-publish_beats_example =
    listen-publish_beats beats topic (pos 0) wire (λ s. s.waiting) wire-IsQueue (λ s. s.accepted)
      wire-IsPub rounds publisher arrives full (omega arith) (refl, (refl, (refl, tt))) refl refl

-- A clock that moves on by a millisecond at each reading, and by what it is told in a sleep.
abbrev ticking : IClock ℤ
ticking = record { steady_time_ns = λ c. (c, c +ℤ pos 1_000_000); sleep_for = λ d c. c +ℤ d }

ticking-IsSteady : IsSteady ticking (λ c. c)
ticking-IsSteady = record {
  reads = λ c. omega int_laws;
  goes_on = λ c. omega int_laws;
  sleeps = λ d c. omega int_laws;
}

abbrev no_double : IDouble (Unit {0})
no_double = record {
  of_ℤ = λ n. tt;
  literal = λ n k. tt;
  plus = λ a b. tt;
  times = λ a b. tt;
  divided = λ a b. tt;
  sin = λ a. tt;
}

abbrev world : World ℤ (Unit {0})
world = record {
  clock = pos 7;
  depth_m = tt;
  depth_count = 0;
  control_count = 0;
  telemetry_count = 0;
  stuck = false;
}

ticking-Passes : Passes ticking 4 (λ c. c)
ticking-Passes c = omega int_laws

demo_main-IsDemoRun_example :
    IsDemoRun ticking no_double 4
      (λ c. c)
      ticking-IsSteady
      ticking-Passes
      (demo_main ticking no_double 4 401 world)
demo_main-IsDemoRun_example =
    demo_main-IsDemoRun ticking no_double 4 (λ c. c) ticking-IsSteady ticking-Passes world refl
