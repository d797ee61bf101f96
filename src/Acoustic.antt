-- ===== src/Acoustic.antt =====
-- include/mw/acoustic.hpp, include/mw/acoustic_loopback.hpp, src/acoustic.cpp and
-- src/acoustic_loopback.cpp: the acoustic bearer and its lossy loopback.
-- The random engine and the Bernoulli distribution are one parameter: a state and a roll.
-- Nanoseconds are unbounded integers; `Stats` counts in 64-bit words, which wrap.
mod Runs
pub mod Cases
pub mod Channel
pub mod Serial
pub mod Accounting
pub mod Delivered
use arun_work.Base.{
  ℕ, ◌+◌, ◌*◌, ◌≤◌, Bool, true, false, not, List, [], ◌∷◌, ◌++◌, ltb, if◌then◌else◌, length, Bytes,
  codes,
}
use arun_work.Base.Int.{ℤ, pos, ◌+ℤ◌, ◌-ℤ◌, ◌/ℤ◌, ltb_ℤ, leb_ℤ}
use arun_work.Base.Words.{u64}

pub data Priority : Type 0 where
  bulk normal urgent : Priority

pub to_string : Priority → Bytes
to_string bulk = codes "bulk"
to_string normal = codes "normal"
to_string urgent = codes "urgent"

-- Nanoseconds on the steady clock.
abbrev pub Deadline : Type 0
Deadline = ℤ

-- `loss_probability` and `rng_seed` are in the engine's parameter.
pub record Config : Type 0 where
  pub propagation_ns : ℤ
  pub bits_per_second : ℤ
  pub max_frame_bytes : ℕ

pub record Delivery : Type 0 where
  pub bytes : Bytes
  pub priority : Priority
  pub sent_at_ns : ℤ
  pub arrives_at_ns : ℤ

pub record Stats : Type 0 where
  pub offered : ℕ
  pub rejected_size : ℕ
  pub rejected_late : ℕ
  pub rejected_busy : ℕ
  pub accepted : ℕ
  pub lost : ℕ

pub record LoopbackBearer (Rng : Type 0) : Type 0 where
  pub cfg : Config
  pub now_ns : ℤ
  pub channel_free_at : ℤ
  pub rng : Rng
  pub stats : Stats
  pub in_flight : List Delivery
  pub delivered : List Delivery

unfoldable pub ceil_div : ℤ → ℤ → ℤ
ceil_div numerator denominator = (numerator +ℤ denominator -ℤ pos 1) /ℤ denominator

-- How long the frame occupies the channel.
unfoldable pub serialization_ns : Config → Bytes → ℤ
serialization_ns cfg bytes = ceil_div (pos (length bytes * 8 * 1_000_000_000)) cfg.bits_per_second

unfoldable pub arrival_ns : {Rng : Type 0} → LoopbackBearer Rng → Bytes → ℤ
arrival_ns b bytes = b.now_ns +ℤ serialization_ns b.cfg bytes +ℤ b.cfg.propagation_ns

unfoldable pub new : {Rng : Type 0} → Config → Rng → LoopbackBearer Rng
new cfg rng = record {
  cfg = cfg;
  now_ns = pos 0;
  channel_free_at = pos 0;
  rng = rng;
  stats = record {
    offered = 0;
    rejected_size = 0;
    rejected_late = 0;
    rejected_busy = 0;
    accepted = 0;
    lost = 0;
  };
  in_flight = [];
  delivered = [];
}

pub max_frame_bytes : {Rng : Type 0} → LoopbackBearer Rng → ℕ
max_frame_bytes b = b.cfg.max_frame_bytes

unfoldable pub with_stats : {Rng : Type 0} → LoopbackBearer Rng → Stats → LoopbackBearer Rng
with_stats b s = record b { stats = s }

module _ {Rng : Type 0} (loss_roll : Rng → Bool × Rng) where
  -- The part of `offer` behind the three refusals: the channel takes the frame, then the water
  -- decides about it.
  unfoldable pub send : LoopbackBearer Rng → Bytes → Priority → LoopbackBearer Rng
  send b bytes priority =
      let (is_lost, rng') = loss_roll b.rng in
      let taken : Stats = record b.stats { accepted = u64 (b.stats.accepted + 1) } in
      let frame : Delivery = record {
        bytes = bytes;
        priority = priority;
        sent_at_ns = b.now_ns;
        arrives_at_ns = arrival_ns b bytes;
      } in
      record b {
        channel_free_at = b.now_ns +ℤ serialization_ns b.cfg bytes;
        rng = rng';
        stats = if is_lost then record taken { lost = u64 (taken.lost + 1) } else taken;
        in_flight = if is_lost then b.in_flight else b.in_flight ++ frame ∷ [];
      }

  unfoldable pub offer :
      LoopbackBearer Rng → Bytes → Priority → Deadline → Bool × LoopbackBearer Rng
  unfolding with_stats
  offer b₀ bytes priority deadline =
      let st : Stats = record b₀.stats { offered = u64 (b₀.stats.offered + 1) } in
      let b : LoopbackBearer Rng = with_stats b₀ st in
      if ltb b.cfg.max_frame_bytes (length bytes)
      then (false, with_stats b (record st { rejected_size = u64 (st.rejected_size + 1) }))
      else if ltb_ℤ deadline (arrival_ns b bytes)
      then (false, with_stats b (record st { rejected_late = u64 (st.rejected_late + 1) }))
      else if ltb_ℤ b.now_ns b.channel_free_at
      then (false, with_stats b (record st { rejected_busy = u64 (st.rejected_busy + 1) }))
      else (true, send b bytes priority)

-- `std::stable_partition`: the frames still under way, and those whose time has come.
unfoldable pub waiting : ℤ → List Delivery → List Delivery
waiting now [] = []
waiting now (d ∷ ds) = if leb_ℤ d.arrives_at_ns now then waiting now ds else d ∷ waiting now ds

unfoldable pub ready : ℤ → List Delivery → List Delivery
ready now [] = []
ready now (d ∷ ds) = if leb_ℤ d.arrives_at_ns now then d ∷ ready now ds else ready now ds

unfoldable pub advance : {Rng : Type 0} → LoopbackBearer Rng → ℤ → LoopbackBearer Rng
advance b ns =
    let now = b.now_ns +ℤ ns in
    record b {
      now_ns = now;
      in_flight = waiting now b.in_flight;
      delivered = b.delivered ++ ready now b.in_flight;
    }

unfoldable pub drain : {Rng : Type 0} → LoopbackBearer Rng → LoopbackBearer Rng
drain b = record b { delivered = [] }

-- What a user of the bearer does, in the order done.
pub data Call : Type 0 where
  offers : Bytes → Priority → Deadline → Call
  advances : ℤ → Call
  drains : Call

module _ {Rng : Type 0} (loss_roll : Rng → Bool × Rng) where
  unfoldable pub apply_call : LoopbackBearer Rng → Call → LoopbackBearer Rng
  apply_call b (offers bytes priority deadline) = (offer loss_roll b bytes priority deadline).1
  apply_call b (advances ns) = advance b ns
  apply_call b drains = drain b

  unfoldable pub run : LoopbackBearer Rng → List Call → LoopbackBearer Rng
  run b [] = b
  run b (c ∷ cs) = run (apply_call b c) cs
