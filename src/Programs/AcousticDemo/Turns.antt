-- ===== src/Programs/AcousticDemo/Turns.antt =====
-- apps/mw_acoustic_demo.cpp and acoustic_loopback.cpp: no vehicle is refused its slot.
use arun_work.Base.{
  ℕ, zero, suc, ◌+◌, ◌*◌, ◌<◌, ◌^◌, ◌≡◌, refl, ap, Bool, true, false, List, [], ◌∷◌, ◌++◌, length,
  length-append, ltb, All, All-append, arith, Bytes, Bool-cases, inl, inr,
}
use arun_work.Base.Int.{ℤ, pos, ◌+ℤ◌, ◌-ℤ◌, ◌/ℤ◌, ◌≤ℤ◌, ltb_ℤ, leb_ℤ, int_laws}
use arun_work.Acoustic.{
  Delivery, LoopbackBearer, Priority, Deadline, normal, new, send, offer, advance, waiting, ready,
  with_stats, arrival_ns, serialization_ns, ceil_div,
}
use arun_work.Acoustic.Cases.{counted}
use arun_work.Acoustic.Accounting.{length-split}
use arun_work.Programs.AcousticDemo.{
  config, heartbeat, slot, cycle, vehicles, Tally, take_turn, take_turns, run_cycles, acoustic_demo,
}

-- A heartbeat occupies the channel for 400 ms.
on_channel : serialization_ns config heartbeat ≡ pos 400_000_000
unfolding serialization_ns ceil_div ◌+ℤ◌ ◌-ℤ◌ ◌/ℤ◌
on_channel = refl

-- It arrives before the vehicle's next turn.
meets_deadline : (now : ℤ) → ltb_ℤ (now +ℤ pos cycle) (now +ℤ pos 733_000_000) ≡ false
meets_deadline now =
    let h : now +ℤ pos 733_000_000 ≤ℤ now +ℤ pos cycle = omega int_laws in ground (arith, h)

abbrev IsDue : ℤ → Delivery → Type 0
IsDue t d = d.arrives_at_ns ≤ℤ t

IsDue-later : (t u : ℤ) (ds : List Delivery) → t ≤ℤ u → All (IsDue t) ds → All (IsDue u) ds
IsDue-later t u [] h p = tt
IsDue-later t u (d ∷ ds) h p = (omega arith, IsDue-later t u ds h p.1)

IsDue-waiting : (now t : ℤ) (ds : List Delivery) → All (IsDue t) ds → All (IsDue t) (waiting now ds)
unfolding waiting
IsDue-waiting now t [] p = tt
IsDue-waiting now t (d ∷ ds) p = elim (Bool-cases (leb_ℤ d.arrives_at_ns now)) [
  | inl due ↦ rw due (IsDue-waiting now t ds p.1)
  | inr early ↦ rw early (p.0, IsDue-waiting now t ds p.1)
]

none_wait : (now : ℤ) (ds : List Delivery) → All (IsDue now) ds → waiting now ds ≡ []
unfolding waiting
none_wait now [] p = refl
none_wait now (d ∷ ds) p = ground (arith, none_wait now ds)

-- All of `n` heartbeats were taken, and none is due later than a guard time after now.
record IsOnTime {Rng : Type 0} (n : ℕ) (b : LoopbackBearer Rng) : Type 0 where
  same : b.cfg ≡ config
  free : b.channel_free_at ≤ℤ b.now_ns
  due : All (IsDue (b.now_ns +ℤ pos 200_000_000)) b.in_flight
  offered : b.stats.offered ≡ n
  accepted : b.stats.accepted ≡ n
  too_big : b.stats.rejected_size ≡ 0
  too_late : b.stats.rejected_late ≡ 0
  too_busy : b.stats.rejected_busy ≡ 0
  fates : b.stats.lost + length b.in_flight + length b.delivered ≡ n

module _ {Rng : Type 0} (loss_roll : Rng → Bool × Rng) where
  offer-taken :
      (b : LoopbackBearer Rng) (bytes : Bytes) (p : Priority) (deadline : Deadline)
      → ltb b.cfg.max_frame_bytes (length bytes) ≡ false
      → ltb_ℤ deadline (arrival_ns b bytes) ≡ false
      → ltb_ℤ b.now_ns b.channel_free_at ≡ false
      → offer loss_roll b bytes p deadline
        ≡ (true, send loss_roll (with_stats b (counted b.stats)) bytes p)
  unfolding offer arrival_ns with_stats
  offer-taken b bytes p deadline small timely free = rw (small, timely, free) refl

  arrival :
      (b : LoopbackBearer Rng)
      → b.cfg ≡ config
      → arrival_ns b heartbeat ≡ b.now_ns +ℤ pos 733_000_000
  unfolding arrival_ns
  arrival b h = rw (h, on_channel) (omega int_laws)

  send-IsOnTime :
      (n : ℕ) (b : LoopbackBearer Rng)
      → suc n < 2 ^ 64
      → IsOnTime n b
      → IsOnTime
          (suc n)
          (advance (send loss_roll (with_stats b (counted b.stats)) heartbeat normal) (pos slot))
  unfolding send advance with_stats
  send-IsOnTime n b few h = elim (Bool-cases (loss_roll b.rng).0) [
    | inl lost ↦ rw lost (record {
      same = h.same;
      free = free;
      due = IsDue-waiting later (later +ℤ pos 200_000_000) b.in_flight waited;
      offered = omega (arith, h.offered);
      accepted = omega (arith, h.accepted);
      too_big = h.too_big;
      too_late = h.too_late;
      too_busy = h.too_busy;
      fates = omega (
        arith,
        h.fates,
        length-split later b.in_flight,
        length-append b.delivered (ready later b.in_flight),
      );
    })
    | inr kept ↦ rw kept (record {
      same = h.same;
      free = free;
      due = IsDue-waiting later (later +ℤ pos 200_000_000) (b.in_flight ++ _ ∷ []) (
          All-append (IsDue (later +ℤ pos 200_000_000)) b.in_flight (_ ∷ []) waited
            (rw (arrival (with_stats b (counted b.stats)) h.same) (omega int_laws), tt));
      offered = omega (arith, h.offered);
      accepted = omega (arith, h.accepted);
      too_big = h.too_big;
      too_late = h.too_late;
      too_busy = h.too_busy;
      fates = omega (
        arith,
        h.fates,
        length-split later (b.in_flight ++ _ ∷ []),
        length-append b.in_flight (_ ∷ []),
        length-append b.delivered (ready later (b.in_flight ++ _ ∷ [])),
      );
    })
  ]
    where
      later : ℤ
      later = b.now_ns +ℤ pos slot

      free : b.now_ns +ℤ serialization_ns b.cfg heartbeat ≤ℤ b.now_ns +ℤ pos slot
      free = rw (h.same, on_channel) (omega int_laws)

      waited : All (IsDue (b.now_ns +ℤ pos slot +ℤ pos 200_000_000)) b.in_flight
      waited = IsDue-later _ _ b.in_flight (omega int_laws) h.due

  -- After `n` turns.
  abbrev IsTally : ℕ → Tally Rng → Type 0
  IsTally n t = IsOnTime n t.bearer × (t.accepted ≡ n) × (t.offered ≡ n)

  turn-IsTally :
      (n : ℕ) (t : Tally Rng)
      → suc n < 2 ^ 64
      → IsTally n t
      → IsTally (suc n) (take_turn loss_roll t)
  unfolding take_turn
  turn-IsTally n t few (h, taken, asked) =
      let small : ltb t.bearer.cfg.max_frame_bytes (length heartbeat) ≡ false = rw h.same refl in
      let timely : ltb_ℤ (t.bearer.now_ns +ℤ pos cycle) (arrival_ns t.bearer heartbeat) ≡ false =
        rw (arrival t.bearer h.same) (meets_deadline t.bearer.now_ns) in
      rw
        (offer-taken t.bearer heartbeat normal (t.bearer.now_ns +ℤ pos cycle) small timely
          (ground (arith, h.free)))
        (send-IsOnTime n t.bearer few h, omega arith, omega arith)

  turns-IsTally :
      (k n m : ℕ) (t : Tally Rng)
      → m ≡ k + n
      → m < 2 ^ 64
      → IsTally n t
      → IsTally m (take_turns loss_roll k t)
  unfolding take_turns
  turns-IsTally zero n m t e few h = let same : m ≡ n = omega arith in rw same h
  turns-IsTally (suc k) n m t e few h =
      turns-IsTally k (suc n) m (take_turn loss_roll t) (omega arith) few
        (turn-IsTally n t (omega arith) h)

  cycles-IsTally :
      (k n m : ℕ) (t : Tally Rng)
      → m ≡ k * vehicles + n
      → m < 2 ^ 64
      → IsTally n t
      → IsTally m (run_cycles loss_roll k t)
  unfolding run_cycles
  cycles-IsTally zero n m t e few h = let same : m ≡ n = omega arith in rw same h
  cycles-IsTally (suc k) n m t e few h =
      cycles-IsTally k (vehicles + n) m (take_turns loss_roll vehicles t) (omega arith) few
        (turns-IsTally vehicles n (vehicles + n) t refl (omega arith) h)

  landed :
      (n : ℕ) (b : LoopbackBearer Rng)
      → IsOnTime n b
      → let b' = advance b (pos 1_000_000_000) in
        (b'.stats.offered ≡ n)
        × (b'.stats.accepted ≡ n)
        × (b'.stats.rejected_size + b'.stats.rejected_late + b'.stats.rejected_busy ≡ 0)
        × (b'.in_flight ≡ [])
        × (b'.stats.lost + length b'.delivered ≡ n)
  unfolding advance
  landed n b h =
      let later = b.now_ns +ℤ pos 1_000_000_000 in
      let none =
        none_wait later b.in_flight (IsDue-later _ later b.in_flight (omega int_laws) h.due) in
      (
        h.offered,
        h.accepted,
        omega (arith, h.too_big, h.too_late, h.too_busy),
        none,
        omega (
          arith,
          h.fates,
          ap length none,
          length-split later b.in_flight,
          length-append b.delivered (ready later b.in_flight),
        ),
      )

  -- Whatever the water loses: the channel takes all fifty heartbeats, and refuses none; at the
  -- end nothing is in flight, and what was not lost has been delivered.
  pub acoustic_demo-counts :
      (rng : Rng)
      → let t = acoustic_demo loss_roll rng in
        (t.offered ≡ 50)
        × (t.accepted ≡ 50)
        × (t.bearer.stats.offered ≡ 50)
        × (t.bearer.stats.accepted ≡ 50)
        × (t.bearer.stats.rejected_size + t.bearer.stats.rejected_late
              + t.bearer.stats.rejected_busy
            ≡ 0)
        × (t.bearer.in_flight ≡ [])
        × (t.bearer.stats.lost + length t.bearer.delivered ≡ 50)
  unfolding acoustic_demo advance
  acoustic_demo-counts rng =
      let (h, taken, asked) = cycles-IsTally 5 0 50 start refl (omega arith) (begun, refl, refl) in
      let (offers, accepts, refused, empty, fates) = landed 50 _ h in
      (asked, taken, offers, accepts, refused, empty, fates)
    where
      start : Tally Rng
      start = record { bearer = new config rng; offered = 0; accepted = 0 }

      begun : IsOnTime 0 (new config rng)
      begun =
          unfold new in
          record {
            same = refl;
            free = omega arith;
            due = tt;
            offered = refl;
            accepted = refl;
            too_big = refl;
            too_late = refl;
            too_busy = refl;
            fates = refl;
          }
