-- ===== src/Lidar/Sick/Newest.antt =====
-- src/sick_scan_source.cpp: the queue keeps the newest scans.
use arun_work.Base.{
  ℕ, suc, ◌+◌, ◌-◌, ◌≤◌, ◌<◌, ◌≡◌, ◌∙◌, refl, ap, List, [], ◌∷◌, ◌++◌, append_assoc, append-nil,
  true, false, leb, length, length-append, drop, arith, Bool-cases, inl, inr,
}
use arun_work.Base.Words.{u64}
use arun_work.Lidar.Sick.{BoundedQueue, make_room, enqueue}

module _ {A : Type 0} where
  abbrev pub enqueue_all : List A → BoundedQueue A → BoundedQueue A
  enqueue_all [] q = q
  enqueue_all (a ∷ xs) q = enqueue_all xs (enqueue a q)

  make_room-room :
      (capacity : ℕ) (queue : List A) (dropped : ℕ)
      → length queue < capacity
      → make_room capacity queue dropped ≡ (queue, dropped)
  unfolding make_room
  make_room-room capacity [] dropped h = refl
  make_room-room capacity (a ∷ queue) dropped h = rw fits refl
    where
      fits : leb capacity (suc (length queue)) ≡ false
      fits = ground arith

  make_room-full :
      (capacity : ℕ) (a : A) (queue : List A) (dropped : ℕ)
      → suc (length queue) ≡ capacity
      → make_room capacity (a ∷ queue) dropped ≡ (queue, u64 (dropped + 1))
  unfolding make_room
  make_room-full capacity a queue dropped h =
      rw full (make_room-room capacity queue (u64 (dropped + 1)) (omega (arith, h)))
    where
      full : leb capacity (suc (length queue)) ≡ true
      full = ground arith

  enqueue-room :
      (capacity : ℕ) (a : A) (queue : List A) (dropped : ℕ)
      → length queue < capacity
      → enqueue a (record { capacity = capacity; queue = queue; dropped = dropped })
        ≡ record { capacity = capacity; queue = queue ++ a ∷ []; dropped = dropped }
  unfolding enqueue
  enqueue-room capacity a queue dropped h = rw (make_room-room capacity queue dropped h) refl

  enqueue-full :
      (capacity : ℕ) (a b : A) (queue : List A) (dropped : ℕ)
      → suc (length queue) ≡ capacity
      → enqueue a (record { capacity = capacity; queue = b ∷ queue; dropped = dropped })
        ≡ record { capacity = capacity; queue = queue ++ a ∷ []; dropped = u64 (dropped + 1) }
  unfolding enqueue
  enqueue-full capacity a b queue dropped h = rw (make_room-full capacity b queue dropped h) refl

  -- The last `capacity` of all.
  abbrev pub newest : ℕ → List A → List A
  newest capacity xs = drop (length xs - capacity) xs

  newest-cons :
      (capacity : ℕ) (b : A) (l : List A)
      → capacity ≤ length l
      → newest capacity l ≡ newest capacity (b ∷ l)
  newest-cons capacity b l h = ap (λ n. drop n (b ∷ l)) more
    where
      more : suc (length l - capacity) ≡ suc (length l) - capacity
      more = omega (arith, h)

  newest-all : (capacity : ℕ) (l : List A) → length l ≤ capacity → l ≡ newest capacity l
  newest-all capacity l h = ap (λ n. drop n l) none_over
    where
      none_over : 0 ≡ length l - capacity
      none_over = omega (arith, h)

  by_queue :
      (xs : List A) (capacity : ℕ) (queue : List A) (dropped : ℕ)
      → 0 < capacity
      → length queue ≤ capacity
      → let q = enqueue_all xs (record { capacity = capacity; queue = queue; dropped = dropped }) in
        (q.queue ≡ newest capacity (queue ++ xs))
        × (u64 q.dropped ≡ u64 (dropped + (length (queue ++ xs) - capacity)))
  by_queue [] capacity queue dropped h le =
      rw (append-nil queue) (newest-all capacity queue le, omega (arith, le))
  by_queue (a ∷ xs) capacity [] dropped h le =
      rw (enqueue-room capacity a [] dropped h, enqueue_all)
        (by_queue xs capacity (a ∷ []) dropped h (omega arith))
  by_queue (a ∷ xs) capacity (b ∷ rest) dropped h le =
      elim (Bool-cases (leb capacity (suc (length rest)))) [
        | inr room ↦
            let (kept, count) =
              by_queue xs capacity (b ∷ rest ++ a ∷ []) dropped h
                (ground (arith, room, length-append rest (a ∷ []))) in
            let regroup = append_assoc (b ∷ rest) (a ∷ []) xs in
            rw (enqueue-room capacity a (b ∷ rest) dropped (ground (arith, room)), enqueue_all)
              (
                kept ∙ ap (newest capacity) regroup,
                count ∙ ap (λ l. u64 (dropped + (length l - capacity))) regroup,
              )
        | inl full ↦
            let e : suc (length rest) ≡ capacity = ground (arith, full, le) in
            let (kept, count) =
              by_queue xs capacity (rest ++ a ∷ []) (u64 (dropped + 1)) h
                (omega (arith, e, length-append rest (a ∷ []))) in
            let regroup = append_assoc rest (a ∷ []) xs in
            rw (enqueue-full capacity a b rest dropped e, enqueue_all)
              (
                kept
                    ∙ ap (newest capacity) regroup
                    ∙ newest-cons capacity b (rest ++ a ∷ xs)
                        (omega (arith, e, length-append rest (a ∷ xs))),
                count
                    ∙ ap (λ l. u64 (u64 (dropped + 1) + (length l - capacity))) regroup
                    ∙ omega (arith, e, length-append rest (a ∷ xs)),
              )
      ]

  -- Whatever arrives while nobody polls: the queue is the last `capacity` of what it held and what
  -- arrived, in order, and `dropped` grows by the number of the others, modulo 2 ^ 64. The capacity is
  -- not 0, and the queue did not exceed it before.
  pub enqueue_all-newest :
      (xs : List A) (q : BoundedQueue A)
      → 0 < q.capacity
      → length q.queue ≤ q.capacity
      → let r = enqueue_all xs q in
        (r.queue ≡ newest q.capacity (q.queue ++ xs))
        × (u64 r.dropped ≡ u64 (q.dropped + (length (q.queue ++ xs) - q.capacity)))
  enqueue_all-newest xs q h le = by_queue xs q.capacity q.queue q.dropped h le
