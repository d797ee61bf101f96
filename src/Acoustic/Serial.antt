-- ===== src/Acoustic/Serial.antt =====
-- acoustic_loopback.cpp: every call keeps the frames apart on the channel, and in order.
use arun_work.Base.{
  ◌≡◌, refl, ap, if◌then◌else◌, Bool, List, [], ◌∷◌, ◌++◌, append_assoc, All-append,
  All-append_right, arith, Bytes, Bool-cases, inl, inr,
}
use arun_work.Base.Int.{ℤ, ◌+ℤ◌, ◌≤ℤ◌, int_laws}
use arun_work.Acoustic.{
  Config, Delivery, LoopbackBearer, Call, Priority, Deadline, offers, advances, drains, arrival_ns,
  serialization_ns, send, offer, advance, drain, with_stats, apply_call, run,
}
use arun_work.Acoustic.Cases.{offer_cases, counted}
use arun_work.Acoustic.Channel.{
  sent, Spaced, IsTimed, Spaced-append, serialization_nonneg, IsSerial, Ordered, Spaced-Ordered,
  ready-append-waiting,
}

Spaced-mono :
    (cfg : Config) (ds : List Delivery) (free later : ℤ)
    → free ≤ℤ later
    → Spaced cfg ds free
    → Spaced cfg ds later
Spaced-mono cfg [] free later h s = tt
Spaced-mono cfg (d ∷ ds) free later h s = (omega arith, s.1, Spaced-mono cfg ds free later h s.2)

Spaced-append_right :
    (cfg : Config) (xs ys : List Delivery) (free : ℤ)
    → Spaced cfg (xs ++ ys) free
    → Spaced cfg ys free
Spaced-append_right cfg [] ys free s = s
Spaced-append_right cfg (x ∷ xs) ys free s = Spaced-append_right cfg xs ys free s.2

module _ {Rng : Type 0} where
  Ordered-sent : (b : LoopbackBearer Rng) → IsSerial b → Ordered (sent b)
  Ordered-sent b s = Spaced-Ordered b.cfg s.valid (sent b) b.channel_free_at s.spaced s.timed

  -- Moving the clock hands frames over in the order in which they were sent, and loses none: the
  -- delivered frames followed by those in flight stay the same sequence.
  pub advance-sent : (b : LoopbackBearer Rng) (ns : ℤ) → IsSerial b → sent (advance b ns) ≡ sent b
  unfolding advance
  advance-sent b ns s = rw append_assoc (
      ap (◌++◌ b.delivered) (
        ready-append-waiting (b.now_ns +ℤ ns) b.in_flight
          (Ordered-append_right b.delivered b.in_flight (Ordered-sent b s))))
    where
      Ordered-append_right : (xs ys : List Delivery) → Ordered (xs ++ ys) → Ordered ys
      Ordered-append_right [] ys h = h
      Ordered-append_right (x ∷ xs) ys h = Ordered-append_right xs ys h.1

  advance-IsSerial : (b : LoopbackBearer Rng) (ns : ℤ) → IsSerial b → IsSerial (advance b ns)
  advance-IsSerial b ns s = record {
    valid = unfold advance in s.valid;
    spaced = rw (advance-sent b ns s) (unfold advance in s.spaced);
    timed = rw (advance-sent b ns s) (unfold advance in s.timed);
  }

  drain-IsSerial : (b : LoopbackBearer Rng) → IsSerial b → IsSerial (drain b)
  unfolding drain
  drain-IsSerial b s = record {
    valid = s.valid;
    spaced = Spaced-append_right b.cfg b.delivered b.in_flight b.channel_free_at s.spaced;
    timed = All-append_right (IsTimed b.cfg) b.delivered b.in_flight s.timed;
  }

  module _ (loss_roll : Rng → Bool × Rng) where
    send-IsSerial :
        (b : LoopbackBearer Rng) (bytes : Bytes) (priority : Priority)
        → b.channel_free_at ≤ℤ b.now_ns
        → IsSerial b
        → IsSerial (send loss_roll b bytes priority)
    unfolding send arrival_ns
    send-IsSerial b bytes priority free s = elim (Bool-cases (loss_roll b.rng).0) [
      | inl lost ↦ rw lost (record {
        valid = s.valid;
        spaced =
            Spaced-mono b.cfg (sent b) _ _
              (omega (int_laws, serialization_nonneg b.cfg bytes s.valid.1)) s.spaced;
        timed = s.timed;
      })
      | inr kept ↦ rw kept (record {
        valid = s.valid;
        spaced = rw (← append_assoc) (
            Spaced-append b.cfg (sent b) b.channel_free_at frame free
              (omega (int_laws, serialization_nonneg b.cfg bytes s.valid.1)) s.spaced);
        timed =
            rw (← append_assoc)
              (All-append (IsTimed b.cfg) (sent b) (frame ∷ []) s.timed (refl, tt));
      })
    ]
      where
        frame : Delivery
        frame = record {
          bytes = bytes;
          priority = priority;
          sent_at_ns = b.now_ns;
          arrives_at_ns = arrival_ns b bytes;
        }

    offer-IsSerial :
        (b : LoopbackBearer Rng) (bytes : Bytes) (priority : Priority) (deadline : Deadline)
        → IsSerial b
        → IsSerial (offer loss_roll b bytes priority deadline).1
    offer-IsSerial b bytes priority deadline s =
        offer_cases loss_roll (λ r. IsSerial r.1) b bytes priority deadline
          (λ st _.
            unfold with_stats in record { valid = s.valid; spaced = s.spaced; timed = s.timed })
          (λ _ _ free.
            send-IsSerial (with_stats b (counted b.stats)) bytes priority
              (unfold with_stats in free)
              (unfold with_stats in record { valid = s.valid; spaced = s.spaced; timed = s.timed }))

    pub apply_call-IsSerial :
        (b : LoopbackBearer Rng) (c : Call) → IsSerial b → IsSerial (apply_call loss_roll b c)
    unfolding apply_call
    apply_call-IsSerial b (offers bytes priority deadline) s =
        offer-IsSerial b bytes priority deadline s
    apply_call-IsSerial b (advances ns) s = advance-IsSerial b ns s
    apply_call-IsSerial b drains s = drain-IsSerial b s

    pub run-IsSerial :
        (b : LoopbackBearer Rng) (cs : List Call) → IsSerial b → IsSerial (run loss_roll b cs)
    unfolding run
    run-IsSerial b [] s = s
    run-IsSerial b (c ∷ cs) s =
        run-IsSerial (apply_call loss_roll b c) cs (apply_call-IsSerial b c s)

    -- Until when the channel is taken behind a call: for an offer that it accepts, lost or not, until
    -- the frame's last bit has left; any other call changes nothing.
    abbrev pub taken_until : LoopbackBearer Rng → Call → ℤ → ℤ
    taken_until b (offers bytes priority deadline) free =
        if (offer loss_roll b bytes priority deadline).0
        then b.now_ns +ℤ serialization_ns b.cfg bytes
        else free
    taken_until b _ free = free

    abbrev pub all_taken_until : LoopbackBearer Rng → List Call → ℤ → ℤ
    all_taken_until b [] free = free
    all_taken_until b (c ∷ cs) free =
        all_taken_until (apply_call loss_roll b c) cs (taken_until b c free)
