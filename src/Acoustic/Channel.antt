-- ===== src/Acoustic/Channel.antt =====
-- acoustic_loopback.cpp: the channel carries one frame at a time.
use arun_work.Base.{
  ℕ, ◌+◌, ◌*◌, ◌-◌, ◌/◌, ◌≤◌, ◌<◌, ◌≡◌, ap, refl, false, List, [], ◌∷◌, ◌++◌, length, All,
  All-append, arith, Bytes, Bool-cases, inl, inr,
}
use arun_work.Base.Division.{le-ceil_mul, ceil_mul-lt}
use arun_work.Base.Int.{
  ℤ, pos, negsuc, ◌+ℤ◌, ◌-ℤ◌, ◌/ℤ◌, ◌≤ℤ◌, ◌<ℤ◌, leb_ℤ, pos_part, neg_part, int_laws,
}
use arun_work.Acoustic.{
  Config, Delivery, LoopbackBearer, serialization_ns, ceil_div, waiting, ready,
}

abbrev pub IsConfig : Config → Type 0
IsConfig cfg = (pos 0 ≤ℤ cfg.propagation_ns) × (pos 0 <ℤ cfg.bits_per_second)

-- The frames that survived, in the order in which they were sent.
abbrev pub sent : {Rng : Type 0} → LoopbackBearer Rng → List Delivery
sent b = b.delivered ++ b.in_flight

module _ (cfg : Config) where
  -- The moment at which the last bit of the frame has left.
  abbrev pub off_channel : Delivery → ℤ
  off_channel d = d.sent_at_ns +ℤ serialization_ns cfg d.bytes

  -- No frame is sent before all earlier ones are off the channel, and the channel is free from
  -- `free` on.
  abbrev pub Spaced : List Delivery → ℤ → Type 0
  Spaced [] free = Unit {0}
  Spaced (d ∷ ds) free =
      (off_channel d ≤ℤ free) × All (λ e. off_channel d ≤ℤ e.sent_at_ns) ds × Spaced ds free

  abbrev pub IsTimed : Delivery → Type 0
  IsTimed d = d.arrives_at_ns ≡ off_channel d +ℤ cfg.propagation_ns

  All-off-append :
      (d e : Delivery) (ds : List Delivery)
      → off_channel d ≤ℤ e.sent_at_ns
      → All (λ x. off_channel d ≤ℤ x.sent_at_ns) ds
      → All (λ x. off_channel d ≤ℤ x.sent_at_ns) (ds ++ e ∷ [])
  All-off-append d e ds h k = All-append (λ x. off_channel d ≤ℤ x.sent_at_ns) ds (e ∷ []) k (h, tt)

  -- A frame sent when the channel is free comes behind all others.
  pub Spaced-append :
      (ds : List Delivery) (free : ℤ) (e : Delivery)
      → free ≤ℤ e.sent_at_ns
      → e.sent_at_ns ≤ℤ off_channel e
      → Spaced ds free
      → Spaced (ds ++ e ∷ []) (off_channel e)
  Spaced-append [] free e h k s = (omega arith, tt, tt)
  Spaced-append (d ∷ ds) free e h k s =
      (omega arith, All-off-append d e ds (omega arith) s.1, Spaced-append ds free e h k s.2)

pub ceil_div-pos : (a b : ℕ) → 0 < b → ceil_div (pos a) (pos b) ≡ pos ((a + b - 1) / b)
unfolding ceil_div ◌+ℤ◌ ◌-ℤ◌ ◌/ℤ◌
ceil_div-pos a b h = ground arith

-- The bits of the frame fit into its time on the channel, and a nanosecond less would not do.
pub serialization_least :
    (cfg : Config) (bytes : Bytes) (bps : ℕ)
    → cfg.bits_per_second ≡ pos bps
    → 0 < bps
    → (n : ℕ) × (serialization_ns cfg bytes ≡ pos n)
      × (length bytes * 8 * 1_000_000_000 ≤ n * bps)
      × (n * bps < length bytes * 8 * 1_000_000_000 + bps)
unfolding serialization_ns
serialization_least cfg bytes bps e h = (
  (length bytes * 8 * 1_000_000_000 + bps - 1) / bps,
  rw (e, ceil_div-pos _ bps h),
  le-ceil_mul _ bps h,
  ceil_mul-lt _ bps h,
)

pub serialization_nonneg :
    (cfg : Config) (bytes : Bytes)
    → pos 0 <ℤ cfg.bits_per_second
    → pos 0 ≤ℤ serialization_ns cfg bytes
unfolding serialization_ns
serialization_nonneg cfg bytes = positive cfg.bits_per_second
  where
    positive : (k : ℤ) → pos 0 <ℤ k → pos 0 ≤ℤ ceil_div (pos (length bytes * 8 * 1_000_000_000)) k
    positive (pos k) h = rw (ceil_div-pos _ k (omega arith)) (omega arith)
    positive (negsuc k) h = absurd (omega arith)

pub record IsSerial {Rng : Type 0} (b : LoopbackBearer Rng) : Type 0 where
  pub valid : IsConfig b.cfg
  pub spaced : Spaced b.cfg (sent b) b.channel_free_at
  pub timed : All (IsTimed b.cfg) (sent b)

-- Frames that are due later stand behind those due earlier.
abbrev pub Ordered : List Delivery → Type 0
Ordered [] = Unit {0}
Ordered (d ∷ ds) = All (λ e. d.arrives_at_ns ≤ℤ e.arrives_at_ns) ds × Ordered ds

module _ (cfg : Config) (valid : IsConfig cfg) where
  later :
      (d : Delivery) (ds : List Delivery)
      → IsTimed cfg d
      → All (IsTimed cfg) ds
      → All (λ e. off_channel cfg d ≤ℤ e.sent_at_ns) ds
      → All (λ e. d.arrives_at_ns ≤ℤ e.arrives_at_ns) ds
  later d [] t ts s = tt
  later d (e ∷ ds) t ts s = (
    omega (
      int_laws,
      ap pos_part t,
      ap neg_part t,
      ap pos_part ts.0,
      ap neg_part ts.0,
      serialization_nonneg cfg e.bytes valid.1,
    ),
    later d ds t ts.1 s.1,
  )

  pub Spaced-Ordered :
      (ds : List Delivery) (free : ℤ) → Spaced cfg ds free → All (IsTimed cfg) ds → Ordered ds
  Spaced-Ordered [] free s t = tt
  Spaced-Ordered (d ∷ ds) free s t = (later d ds t.0 t.1 s.1, Spaced-Ordered ds free s.2 t.1)

-- `advance` splits the frames in order.
pub ready-append-waiting :
    (now : ℤ) (ds : List Delivery) → Ordered ds → ready now ds ++ waiting now ds ≡ ds
unfolding ready waiting
ready-append-waiting now [] h = refl
ready-append-waiting now (d ∷ ds) h = elim (Bool-cases (leb_ℤ d.arrives_at_ns now)) [
  | inl due ↦ rw due (ap (◌∷◌ d) (ready-append-waiting now ds h.1))
  | inr early ↦ rw (early, none_ready d ds early h.0, all_wait d ds early h.0)
]
  where
    none_ready :
        (d : Delivery) (ds : List Delivery)
        → leb_ℤ d.arrives_at_ns now ≡ false
        → All (λ e. d.arrives_at_ns ≤ℤ e.arrives_at_ns) ds
        → ready now ds ≡ []
    none_ready d [] p q = refl
    none_ready d (e ∷ ds) p q = ground (arith, none_ready d ds p)

    all_wait :
        (d : Delivery) (ds : List Delivery)
        → leb_ℤ d.arrives_at_ns now ≡ false
        → All (λ e. d.arrives_at_ns ≤ℤ e.arrives_at_ns) ds
        → waiting now ds ≡ ds
    all_wait d [] p q = refl
    all_wait d (e ∷ ds) p q = ground (arith, all_wait d ds p)
