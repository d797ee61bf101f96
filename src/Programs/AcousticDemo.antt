-- ===== src/Programs/AcousticDemo.antt =====
-- apps/mw_acoustic_demo.cpp: ten vehicles offer a heartbeat each in its own slot of the shared channel.
-- The engine and its roll, which have the demo's seed and its loss of a twentieth, are parameters; the
-- report prints the fields of the result.
pub mod Turns
use arun_work.Base.{ℕ, zero, suc, ◌+◌, ◌*◌, Bool, true, false, if◌then◌else◌, Bytes, codes}
use arun_work.Base.Int.{ℤ, pos, ◌+ℤ◌}
use arun_work.Acoustic.{Config, LoopbackBearer, normal, new, offer, advance}

-- `propagation_ns`, `guard_ns`, `slot_ns` and `cycle_ns`
abbrev pub propagation : ℕ
propagation = 333_000_000

abbrev pub guard : ℕ
guard = 200_000_000

abbrev pub slot : ℕ
slot = propagation + guard

abbrev pub vehicles : ℕ
vehicles = 10

abbrev pub cycle : ℕ
cycle = slot * vehicles

abbrev pub config : Config
config = record { propagation_ns = pos propagation; bits_per_second = pos 80; max_frame_bytes = 64 }

abbrev pub heartbeat : Bytes
heartbeat = codes "HHHH"

-- The variables of `main`.
pub record Tally (Rng : Type 0) : Type 0 where
  pub bearer : LoopbackBearer Rng
  pub offered : ℕ
  pub accepted : ℕ

module _ {Rng : Type 0} (loss_roll : Rng → Bool × Rng) where
  -- A vehicle's slot: the deadline is its next turn.
  unfoldable pub take_turn : Tally Rng → Tally Rng
  take_turn t =
      let (taken, b) = offer loss_roll t.bearer heartbeat normal (t.bearer.now_ns +ℤ pos cycle) in
      record {
        bearer = advance b (pos slot);
        offered = t.offered + 1;
        accepted = if taken then t.accepted + 1 else t.accepted;
      }

  -- The inner loop over the vehicles, and the outer one over the cycles.
  unfoldable pub take_turns : ℕ → Tally Rng → Tally Rng
  take_turns zero t = t
  take_turns (suc n) t = take_turns n (take_turn t)

  unfoldable pub run_cycles : ℕ → Tally Rng → Tally Rng
  run_cycles zero t = t
  run_cycles (suc n) t = run_cycles n (take_turns vehicles t)

  -- Behind the cycles, what is still in flight lands.
  unfoldable pub acoustic_demo : Rng → Tally Rng
  acoustic_demo rng =
      let t = run_cycles 5 (record { bearer = new config rng; offered = 0; accepted = 0 }) in
      record t { bearer = advance t.bearer (pos 1_000_000_000) }
