-- ===== src/Acoustic/Cases.antt =====
-- acoustic_loopback.cpp: the case rule for `offer`.
use arun_work.Base.{
  ◌+◌, ◌≤◌, ◌≡◌, Bool, true, false, arith, Bytes, length, ltb, Bool-cases, inl, inr,
}
use arun_work.Base.Int.{◌≤ℤ◌, ltb_ℤ}
use arun_work.Base.Words.{u64}
use arun_work.Acoustic.{
  Stats, LoopbackBearer, Priority, Deadline, arrival_ns, send, offer, with_stats,
}

-- A refusal counts the offer, and one reason.
pub record IsRefusal (before after : Stats) : Type 0 where
  pub offered : after.offered ≡ u64 (before.offered + 1)
  pub accepted : after.accepted ≡ before.accepted
  pub lost : after.lost ≡ before.lost
  pub reasons :
      u64 (after.rejected_size + after.rejected_late + after.rejected_busy)
      ≡ u64 (before.rejected_size + before.rejected_late + before.rejected_busy + 1)

abbrev pub counted : Stats → Stats
counted s = record s { offered = u64 (s.offered + 1) }

module _ {ℓ} {Rng : Type 0} (loss_roll : Rng → Bool × Rng)
    (P : Bool × LoopbackBearer Rng → Type ℓ) where
  -- A refusal touches the counters alone; an accepted frame fits, comes in time, and finds the
  -- channel free.
  pub offer_cases :
      (b : LoopbackBearer Rng) (bytes : Bytes) (priority : Priority) (deadline : Deadline)
      → ((s : Stats) → IsRefusal b.stats s → P (false, with_stats b s))
      → (length bytes ≤ b.cfg.max_frame_bytes
          → arrival_ns b bytes ≤ℤ deadline
          → b.channel_free_at ≤ℤ b.now_ns
          → P (true, send loss_roll (with_stats b (counted b.stats)) bytes priority))
      → P (offer loss_roll b bytes priority deadline)
  unfolding offer arrival_ns with_stats
  offer_cases b bytes priority deadline refused accepted =
      elim (Bool-cases (ltb b.cfg.max_frame_bytes (length bytes))) [
        | inl e ↦ rw e (refused _ (omega arith))
        | inr small ↦ rw small (elim (Bool-cases (ltb_ℤ deadline (arrival_ns b bytes))) [
          | inl e ↦ rw e (refused _ (omega arith))
          | inr timely ↦ rw timely (elim (Bool-cases (ltb_ℤ b.now_ns b.channel_free_at)) [
            | inl e ↦ rw e (refused _ (omega arith))
            | inr free ↦ rw free (accepted (ground arith) (ground arith) (ground arith))
          ])
        ])
      ]
