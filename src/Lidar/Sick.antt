-- ===== src/Lidar/Sick.antt =====
-- src/sick_scan_source.cpp: the bounded queue between the driver's thread and the caller's. Each
-- operation holds the queue's lock, so that they follow one another.
pub mod Newest
pub mod Message
pub mod Scans
pub mod Clouds
pub mod Driver
pub mod Source
pub mod Lifetime
pub mod Lives
pub mod Fields
pub mod Reads
pub mod Readable
pub mod Shape
pub mod Converted
pub mod Contract
pub mod Arrivals
mod Runs
use arun_work.Base.{
  ℕ, suc, ◌+◌, List, [], ◌∷◌, ◌++◌, Option, none, some, leb, if◌then◌else◌, length,
}
use arun_work.Base.Words.{u64}

-- The queue with its capacity, of which the constructor refuses 0, and its count of lost elements.
pub record BoundedQueue (A : Type 0) : Type 0 where
  pub capacity : ℕ
  pub queue : List A
  pub dropped : ℕ

-- The loop that makes room.
unfoldable pub make_room : {A : Type 0} → ℕ → List A → ℕ → List A × ℕ
make_room capacity [] dropped = ([], dropped)
make_room capacity (a ∷ queue) dropped =
    if leb capacity (suc (length queue))
    then make_room capacity queue (u64 (dropped + 1))
    else (a ∷ queue, dropped)

unfoldable pub enqueue : {A : Type 0} → A → BoundedQueue A → BoundedQueue A
enqueue a q =
    let (queue, dropped) = make_room q.capacity q.queue q.dropped in
    record q { queue = queue ++ a ∷ []; dropped = dropped }

-- `poll_scan` when its wait is over: `none` if nothing has arrived.
unfoldable pub poll_scan : {A : Type 0} → BoundedQueue A → Option A × BoundedQueue A
poll_scan q = elim q.queue [ [] ↦ (none, q) | a ∷ rest ↦ (some a, record q { queue = rest }) ]
