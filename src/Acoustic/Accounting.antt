-- ===== src/Acoustic/Accounting.antt =====
-- acoustic_loopback.cpp: what becomes of every offered frame is counted once.
use arun_work.Base.{ℕ, ◌+◌, ◌≡◌, Bool, List, [], ◌∷◌, length, arith}
use arun_work.Base.Int.{ℤ}
use arun_work.Base.Words.{u64}
use arun_work.Acoustic.{Delivery, LoopbackBearer, Call, drains, waiting, ready, apply_call}

-- `drained` frames have been cleared from `delivered()`.
pub record IsAccounted {Rng : Type 0} (drained : ℕ) (b : LoopbackBearer Rng) : Type 0 where
  pub answers :
      b.stats.offered
      ≡ u64
          (b.stats.rejected_size + b.stats.rejected_late + b.stats.rejected_busy + b.stats.accepted)
  pub fates :
      b.stats.accepted ≡ u64 (b.stats.lost + length b.in_flight + length b.delivered + drained)

pub length-split :
    (now : ℤ) (ds : List Delivery) → length (ready now ds) + length (waiting now ds) ≡ length ds
unfolding ready waiting
length-split now [] = omega arith
length-split now (d ∷ ds) = ground (arith, length-split now ds)

-- How many frames a run drains.
abbrev pub drained_by : {Rng : Type 0} → LoopbackBearer Rng → Call → ℕ
drained_by b drains = length b.delivered
drained_by b _ = 0

module _ {Rng : Type 0} where
  module _ (loss_roll : Rng → Bool × Rng) where
    -- How many frames the calls drain, started at `b`.
    abbrev pub drained_in : LoopbackBearer Rng → List Call → ℕ
    drained_in b [] = 0
    drained_in b (c ∷ cs) = drained_by b c + drained_in (apply_call loss_roll b c) cs
