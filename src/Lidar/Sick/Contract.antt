-- ===== src/Lidar/Sick/Contract.antt =====
-- src/sick_scan_source.cpp and src/sick_cloud_source.cpp: what a source promises its caller, and that
-- the queue keeps the promise.
use arun_work.Base.{
  ℕ, ◌-◌, ◌≤◌, ◌<◌, ◌≡◌, ◌∙◌, refl, ap, ap₂, List, [], ◌∷◌, ◌++◌, Option, none, some, length,
  length-drop, Result, ok, err, ◌>>=◌, arith,
}
use arun_work.Base.Int.{ℤ}
use arun_work.Lidar.Sick.{BoundedQueue, enqueue, poll_scan}
use arun_work.Lidar.Sick.Newest.{newest, enqueue_all-newest}
use arun_work.Lidar.Sick.Message.{SickScanPointCloudMsg, Undefined}
use arun_work.Lidar.Sick.Source.{Impl, Conversion, enqueue_msg}

-- What happens to a source: the driver delivers a message, or the caller polls.
pub data Op : Type 0 where
  arrived : SickScanPointCloudMsg → Op
  polled : Op

module _ {Config A : Type 0} (convert : Conversion Config A) where
  -- What the caller's polls return.
  unfoldable pub run : List Op → Impl Config A → Result Undefined (List (Option A))
  run [] s = ok []
  run (arrived msg ∷ ops) s = do after ← enqueue_msg convert msg s; run ops after
  run (polled ∷ ops) s = do
    rest ← run ops (record s { queue = (poll_scan s.queue).1 })
    ok ((poll_scan s.queue).0 ∷ rest)

  -- The promise: a window over what the messages become, which keeps the newest of them, and from
  -- which a poll takes the oldest.
  unfoldable pub window : Config → ℕ → List Op → ℤ → List A → Result Undefined (List (Option A))
  window cfg capacity [] last kept = ok []
  window cfg capacity (arrived msg ∷ ops) last kept = do
    converted ← convert cfg msg last
    elim converted [
      | none ↦ window cfg capacity ops last kept
      | some (a, stamp_ns) ↦ window cfg capacity ops stamp_ns (newest capacity (kept ++ a ∷ []))
    ]
  window cfg capacity (polled ∷ ops) last [] = do
    rest ← window cfg capacity ops last []
    ok (none ∷ rest)
  window cfg capacity (polled ∷ ops) last (a ∷ kept) = do
    rest ← window cfg capacity ops last kept
    ok (some a ∷ rest)

  -- From here on the source does what the window does.
  abbrev IsRefined : List Op → Impl Config A → Type 0
  IsRefined ops s = run ops s ≡ window s.cfg s.queue.capacity ops s.last_stamp_ns s.queue.queue

  abbrev pub IsBounded : Impl Config A → Type 0
  IsBounded s = (0 < s.queue.capacity) × (length s.queue.queue ≤ s.queue.capacity)

  length-newest : (capacity : ℕ) (l : List A) → length (newest capacity l) ≤ capacity
  length-newest capacity l = omega (arith, length-drop (length l - capacity) l)

  enqueue-newest :
      (a : A) (q : BoundedQueue A)
      → 0 < q.capacity
      → length q.queue ≤ q.capacity
      → ((enqueue a q).queue ≡ newest q.capacity (q.queue ++ a ∷ []))
        × ((enqueue a q).capacity ≡ q.capacity)
  unfolding enqueue
  enqueue-newest a q h le = ((enqueue_all-newest (a ∷ []) q h le).0, refl)

  arrived-IsRefined :
      (ops : List Op) (s : Impl Config A) (r : Result Undefined (Option (A × ℤ)))
      → IsBounded s
      → ((t : Impl Config A) → IsBounded t → IsRefined ops t)
      → ((r >>= λ converted. ok (elim converted [
        | none ↦ s
        | some (a, stamp_ns) ↦ record s { queue = enqueue a s.queue; last_stamp_ns = stamp_ns }
      ]))
          >>= run ops)
        ≡ (r >>= λ converted. elim converted [
          | none ↦ window s.cfg s.queue.capacity ops s.last_stamp_ns s.queue.queue
          | some (a, stamp_ns) ↦
              window s.cfg s.queue.capacity ops stamp_ns
                (newest s.queue.capacity (s.queue.queue ++ a ∷ []))
        ])
  arrived-IsRefined ops s (err e) h ih = refl
  arrived-IsRefined ops s (ok none) h ih = ih s h
  arrived-IsRefined ops s (ok (some (a, stamp_ns))) (positive, le) ih =
      let (kept, same) = enqueue-newest a s.queue positive le in
      ih t (room, fits) ∙ ap₂ (λ c q. window s.cfg c ops stamp_ns q) same kept
    where
      t : Impl Config A
      t = record s { queue = enqueue a s.queue; last_stamp_ns = stamp_ns }

      room : 0 < t.queue.capacity
      room = omega (arith, positive, (enqueue-newest a s.queue positive le).1)

      fits : length t.queue.queue ≤ t.queue.capacity
      fits =
          let (kept, same) = enqueue-newest a s.queue positive le in
          omega
            (arith, same, ap length kept, length-newest s.queue.capacity (s.queue.queue ++ a ∷ []))

  polled-IsRefined :
      (ops : List Op) (s : Impl Config A) (queue : List A)
      → IsBounded s
      → s.queue.queue ≡ queue
      → ((t : Impl Config A) → IsBounded t → IsRefined ops t)
      → IsRefined (polled ∷ ops) s
  unfolding run poll_scan window
  polled-IsRefined ops s [] h e ih =
      rw (e, poll_scan, run, window)
        (ap (λ r. r >>= λ rest. ok (none ∷ rest))
          (ih s h ∙ ap (window s.cfg s.queue.capacity ops s.last_stamp_ns) e))
  polled-IsRefined ops s (a ∷ kept) h e ih =
      rw (e, poll_scan, run, window)
        (ap (λ r. r >>= λ rest. ok (some a ∷ rest))
          (ih (record s { queue = record s.queue { queue = kept } })
            (h.0, omega (arith, h.1, ap length e))))

  -- Whatever messages arrive and however the caller polls in between, the polls return what they
  -- return of the window: a message that converts joins it, and a poll takes the oldest of the newest
  -- `capacity` that wait. The capacity is not 0, and the queue does not exceed it at first.
  pub run-window :
      (ops : List Op) (s : Impl Config A)
      → IsBounded s
      → run ops s ≡ window s.cfg s.queue.capacity ops s.last_stamp_ns s.queue.queue
  unfolding run window enqueue_msg
  run-window [] s h = refl
  run-window (arrived msg ∷ ops) s h =
      arrived-IsRefined ops s (convert s.cfg msg s.last_stamp_ns) h (run-window ops)
  run-window (polled ∷ ops) s h = polled-IsRefined ops s s.queue.queue h refl (run-window ops)
