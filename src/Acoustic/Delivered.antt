-- ===== src/Acoustic/Delivered.antt =====
-- acoustic_loopback.cpp: no frame is handed over before its arrival, and none is kept after it.
use arun_work.Base.{
  ltb, length, ◌≡◌, refl, Bool, List, [], ◌∷◌, All, All-append, arith, Bytes, Bool-cases, inl, inr,
}
use arun_work.Base.Int.{ℤ, pos, ◌+ℤ◌, ◌≤ℤ◌, ◌<ℤ◌, leb_ℤ, ltb_ℤ, int_laws}
use arun_work.Acoustic.{
  Config, Delivery, Stats, LoopbackBearer, Call, Priority, Deadline, offers, advances, drains,
  arrival_ns, new, send, offer, waiting, ready, advance, drain, with_stats, apply_call, run,
}
use arun_work.Acoustic.Cases.{offer_cases, counted}
use arun_work.Acoustic.Channel.{IsConfig, serialization_nonneg}

-- The calls that do not turn the fake clock back.
abbrev pub IsForward : Call → Type 0
IsForward (advances ns) = pos 0 ≤ℤ ns
IsForward _ = Unit {0}

pub record IsPunctual {Rng : Type 0} (b : LoopbackBearer Rng) : Type 0 where
  pub valid : IsConfig b.cfg
  pub arrived : All (λ d. d.arrives_at_ns ≤ℤ b.now_ns) b.delivered
  pub under_way : All (λ d. b.now_ns ≤ℤ d.arrives_at_ns) b.in_flight

All-ready : (now : ℤ) (ds : List Delivery) → All (λ d. d.arrives_at_ns ≤ℤ now) (ready now ds)
unfolding ready
All-ready now [] = tt
All-ready now (d ∷ ds) = elim (Bool-cases (leb_ℤ d.arrives_at_ns now)) [
  | inl due ↦ rw due (ground arith, All-ready now ds)
  | inr early ↦ rw early (All-ready now ds)
]

All-waiting : (now : ℤ) (ds : List Delivery) → All (λ d. now <ℤ d.arrives_at_ns) (waiting now ds)
unfolding waiting
All-waiting now [] = tt
All-waiting now (d ∷ ds) = elim (Bool-cases (leb_ℤ d.arrives_at_ns now)) [
  | inl due ↦ rw due (All-waiting now ds)
  | inr early ↦ rw early (ground arith, All-waiting now ds)
]

arrived_later :
    (now later : ℤ) (ds : List Delivery)
    → now ≤ℤ later
    → All (λ d. d.arrives_at_ns ≤ℤ now) ds
    → All (λ d. d.arrives_at_ns ≤ℤ later) ds
arrived_later now later [] h p = tt
arrived_later now later (d ∷ ds) h p = (omega arith, arrived_later now later ds h p.1)

at_most_of_lt :
    (now : ℤ) (ds : List Delivery)
    → All (λ d. now <ℤ d.arrives_at_ns) ds
    → All (λ d. now ≤ℤ d.arrives_at_ns) ds
at_most_of_lt now [] p = tt
at_most_of_lt now (d ∷ ds) p = (omega arith, at_most_of_lt now ds p.1)

module _ {Rng : Type 0} where
  -- After the clock has moved, by no negative time, a frame is in `delivered()` when its arrival
  -- time has come, and in flight when it is still ahead.
  pub advance_splits :
      (b : LoopbackBearer Rng) (ns : ℤ)
      → pos 0 ≤ℤ ns
      → IsPunctual b
      → All (λ d. d.arrives_at_ns ≤ℤ (advance b ns).now_ns) (advance b ns).delivered
        × All (λ d. (advance b ns).now_ns <ℤ d.arrives_at_ns) (advance b ns).in_flight
  unfolding advance
  advance_splits b ns h p =
      let now = b.now_ns +ℤ ns in
      (
        All-append (λ d. d.arrives_at_ns ≤ℤ now) b.delivered (ready now b.in_flight)
            (arrived_later b.now_ns now b.delivered (omega int_laws) p.arrived)
            (All-ready now b.in_flight),
        All-waiting now b.in_flight,
      )

  advance-IsPunctual :
      (b : LoopbackBearer Rng) (ns : ℤ) → pos 0 ≤ℤ ns → IsPunctual b → IsPunctual (advance b ns)
  advance-IsPunctual b ns h p = record {
    valid = unfold advance in p.valid;
    arrived = (advance_splits b ns h p).0;
    under_way = at_most_of_lt (advance b ns).now_ns _ (advance_splits b ns h p).1;
  }

  drain-IsPunctual : (b : LoopbackBearer Rng) → IsPunctual b → IsPunctual (drain b)
  unfolding drain
  drain-IsPunctual b p = record { valid = p.valid; arrived = tt; under_way = p.under_way }

  module _ (loss_roll : Rng → Bool × Rng) where
    send-IsPunctual :
        (b : LoopbackBearer Rng) (bytes : Bytes) (priority : Priority)
        → IsPunctual b
        → IsPunctual (send loss_roll b bytes priority)
    unfolding send arrival_ns
    send-IsPunctual b bytes priority p = elim (Bool-cases (loss_roll b.rng).0) [
      | inl lost ↦
          rw lost (record { valid = p.valid; arrived = p.arrived; under_way = p.under_way })
      | inr kept ↦ rw kept (record {
        valid = p.valid;
        arrived = p.arrived;
        under_way =
            All-append (λ d. b.now_ns ≤ℤ d.arrives_at_ns) b.in_flight _ p.under_way
              (omega (int_laws, serialization_nonneg b.cfg bytes p.valid.1), tt);
      })
    ]

    offer-IsPunctual :
        (b : LoopbackBearer Rng) (bytes : Bytes) (priority : Priority) (deadline : Deadline)
        → IsPunctual b
        → IsPunctual (offer loss_roll b bytes priority deadline).1
    offer-IsPunctual b bytes priority deadline p =
        offer_cases loss_roll (λ r. IsPunctual r.1) b bytes priority deadline
          (λ s _. with_stats-IsPunctual s)
          (λ _ _ _.
            send-IsPunctual (with_stats b (counted b.stats)) bytes priority
              (with_stats-IsPunctual _))
      where
        with_stats-IsPunctual : (s : Stats) → IsPunctual (with_stats b s)
        with_stats-IsPunctual s =
            unfold with_stats in
            record { valid = p.valid; arrived = p.arrived; under_way = p.under_way }

    run-IsPunctual :
        (b : LoopbackBearer Rng) (cs : List Call)
        → All IsForward cs
        → IsPunctual b
        → IsPunctual (run loss_roll b cs)
    unfolding run apply_call
    run-IsPunctual b [] f p = p
    run-IsPunctual b (offers bytes priority deadline ∷ cs) f p =
        run-IsPunctual _ cs f.1 (offer-IsPunctual b bytes priority deadline p)
    run-IsPunctual b (advances ns ∷ cs) f p =
        run-IsPunctual (advance b ns) cs f.1 (advance-IsPunctual b ns f.0 p)
    run-IsPunctual b (drains ∷ cs) f p = run-IsPunctual (drain b) cs f.1 (drain-IsPunctual b p)

    -- From a new bearer whose clock never runs backwards: every delivered frame's arrival time has
    -- come, and no frame in flight is overdue.
    pub run-new-IsPunctual :
        (cfg : Config) (rng : Rng) (cs : List Call)
        → IsConfig cfg
        → All IsForward cs
        → IsPunctual (run loss_roll (new cfg rng) cs)
    run-new-IsPunctual cfg rng cs valid f =
        run-IsPunctual (new cfg rng) cs f
          (unfold new in record { valid = valid; arrived = tt; under_way = tt })

    -- The priority decides neither the answer, nor the counters, nor when the channel is free.
    pub offer_ignores_priority :
        (b : LoopbackBearer Rng) (bytes : Bytes) (p q : Priority) (deadline : Deadline)
        → let (answer, c) = offer loss_roll b bytes p deadline in
          let (answer', c') = offer loss_roll b bytes q deadline in
          (answer ≡ answer') × (c.stats ≡ c'.stats) × (c.channel_free_at ≡ c'.channel_free_at)
    unfolding offer arrival_ns with_stats send
    offer_ignores_priority b bytes p q deadline =
        elim (Bool-cases (ltb b.cfg.max_frame_bytes (length bytes))) [
          | inl e ↦ rw e (refl, refl, refl)
          | inr small ↦ rw small (elim (Bool-cases (ltb_ℤ deadline (arrival_ns b bytes))) [
            | inl e ↦ rw e (refl, refl, refl)
            | inr timely ↦ rw timely (elim (Bool-cases (ltb_ℤ b.now_ns b.channel_free_at)) [
              | inl e ↦ rw e (refl, refl, refl)
              | inr free ↦ rw free (refl, refl, refl)
            ])
          ])
        ]
