-- ===== src/Programs/Heartbeats/Gaps.antt =====
-- apps/mw_pub.cpp and apps/mw_sub.cpp: a gap is marked where a heartbeat is missing.
use arun_work.Base.{
  ℕ, suc, ◌+◌, ◌<◌, ◌^◌, ◌≡◌, ◌∙◌, sym, refl, ap, List, [], ◌∷◌, ◌++◌, append-nil, some, Bool, true,
  false, not, ◌&&◌, ◌==◌, picked, length, Bytes, codes, arith,
}
use arun_work.Base.Int.{ℤ, pos}
use arun_work.Base.Words.{u64}
use arun_work.Transport.{IZmq, Publisher, Message, publish, receive}
use arun_work.Transport.Stream.{IsQueue, parts_of, receive-parts_of}
use arun_work.Transport.Accepted.{IsPub, taken_one_more, taken-publish}
use arun_work.Header.{Header, accepted, stamp, peek_header}
use arun_work.Header.Stamps.{peek_header-stamp}
use arun_work.Programs.Heartbeats.{
  Heartbeat, IBeats, empty_header, Clocks, beat, publish_beat, publish_beats, Printed, shown, Watch,
  watch, listen,
}

module _ (beats : IBeats) (topic : Bytes) (t0 : ℤ) where
  -- The messages of the rounds of `mw_pub`, from this sequence number on.
  abbrev pub messages : List Clocks → ℕ → List Message
  messages [] k = []
  messages (now ∷ nows) k =
      record { topic = topic; payload = beats.serialize (beat t0 now k).0 }
      ∷ messages nows (u64 (k + 1))

  abbrev pub AllEncodable : List Clocks → ℕ → Type 0
  AllEncodable [] k = Unit {0}
  AllEncodable (now ∷ nows) k =
      beats.IsEncodable (beat t0 now k).0 × AllEncodable nows (u64 (k + 1))

  -- What is to be printed of the heartbeats that arrive: each with its number, and with a gap marked
  -- if it is not the first to arrive and the one before it did not arrive.
  abbrev pub report : (first lost : Bool) → ℕ → List Bool → List Clocks → List Printed
  report first lost k [] nows = []
  report first lost k (b ∷ bs) [] = []
  report first lost k (true ∷ bs) (now ∷ nows) =
      shown topic k (codes "auv-control") (pos 2) (not first && lost)
      ∷ report false false (suc k) bs nows
  report first lost k (false ∷ bs) (now ∷ nows) = report first true (suc k) bs nows

  -- A message whose header is accepted, and whose body parses.
  watch-accepted :
      (m : Message) (header : Header) (hb : Heartbeat) (w : Watch)
      → peek_header beats.parse_any m.payload empty_header ≡ (accepted, header)
      → beats.parse m.payload ≡ some hb
      → watch beats (some m) w ≡ (
        shown m.topic header.sequence header.publisher
            (pos hb.state)
            (not w.first && not (header.sequence == w.expected)),
        record { expected = u64 (header.sequence + 1); first = false },
      )
  unfolding watch
  watch-accepted m header hb w e f = rw (e, watch) (rw (f, watch) (rw e refl))

  -- One heartbeat that arrives.
  watch-beat :
      (now : Clocks) (k : ℕ) (w : Watch)
      → beats.IsEncodable (beat t0 now k).0
      → watch beats (some (record { topic = topic; payload = beats.serialize (beat t0 now k).0 })) w
        ≡ (
          shown topic k (codes "auv-control") (pos 2) (not w.first && not (k == w.expected)),
          record { expected = u64 (k + 1); first = false },
        )
  unfolding beat stamp
  watch-beat now k w h =
      watch-accepted (record { topic = topic; payload = beats.serialize (beat t0 now k).0 })
        (beat t0 now k).0.header (beat t0 now k).0 w
        (peek_header-stamp beats.parse_any (beats.serialize (beat t0 now k).0) empty_header now.wall
          empty_header (codes "auv-control") k (beats.parse_any-serialize (beat t0 now k).0 h))
        (beats.parse-serialize (beat t0 now k).0 h)

  -- `expected` is the next number if none was lost since the last heartbeat that arrived, and an
  -- earlier one if some were.
  abbrev Follows : (first lost : Bool) → ℕ → Watch → Type 0
  Follows true lost k w = w.first ≡ true
  Follows false true k w = (w.first ≡ false) × (w.expected < k)
  Follows false false k w = (w.first ≡ false) × (w.expected ≡ k)

  gap-Follows :
      (first lost : Bool) (k : ℕ) (w : Watch)
      → Follows first lost k w
      → (not w.first && not (k == w.expected)) ≡ (not first && lost)
  gap-Follows true lost k w f = rw f refl
  gap-Follows false true k w f = rw (f.0) (ground (arith, f.1))
  gap-Follows false false k w f = rw (f.0) (ground (arith, f.1))

  Follows-lost :
      (first lost : Bool) (k : ℕ) (w : Watch)
      → Follows first lost k w
      → Follows first true (suc k) w
  Follows-lost true lost k w f = f
  Follows-lost false true k w f = (f.0, omega (arith, f.1))
  Follows-lost false false k w f = (f.0, omega (arith, f.1))

  module _ {Sock : Type 0} (zmq : IZmq Sock) (parts : Sock → List (Bytes × Bool))
      (queue : IsQueue zmq parts) where
    listen-report :
        (first lost : Bool) (bs : List Bool) (nows : List Clocks) (k : ℕ) (sock : Sock) (w : Watch)
        → k + length nows < 2 ^ 64
        → AllEncodable nows k
        → Follows first lost k w
        → parts sock ≡ parts_of (picked bs (messages nows k))
        → (listen beats zmq (length (picked bs (messages nows k))) sock w).0
          ≡ report first lost k bs nows
    unfolding listen
    listen-report first lost [] nows k sock w few h f e = refl
    listen-report first lost (b ∷ bs) [] k sock w few h f e = refl
    listen-report first lost (true ∷ bs) (now ∷ nows) k sock w few h f e =
        let next : u64 (k + 1) ≡ suc k = omega (arith, few) in
        let (got, left) =
          receive-parts_of zmq parts queue (pos 1000) sock
            (record { topic = topic; payload = beats.serialize (beat t0 now k).0 })
            (picked bs (messages nows (u64 (k + 1)))) e in
        rw (got, watch-beat now k w h.0, gap-Follows first lost k w f, next)
          (ap (◌∷◌ (shown topic k (codes "auv-control") (pos 2) (not first && lost))) (
            listen-report false false bs nows (suc k) (receive zmq (pos 1000) sock).1
              (record { expected = suc k; first = false }) (omega (arith, few)) (rw next at h.1)
              (refl, refl) (rw next at left)))
    listen-report first lost (false ∷ bs) (now ∷ nows) k sock w few h f e =
        let next : u64 (k + 1) ≡ suc k = omega (arith, few) in
        rw next (
          listen-report first true bs nows (suc k) sock w (omega (arith, few)) (rw next at h.1)
            (Follows-lost first lost k w f) (rw next at e))

    module _ (taken : Sock → List (Bytes × Bool)) (is_pub : IsPub zmq taken) where
      taken-publish_beats :
          (nows : List Clocks) (k : ℕ) (p : Publisher Sock)
          → let (answers, last, p') = publish_beats beats zmq topic t0 nows k p in
            taken p'.sock ≡ taken p.sock ++ parts_of (picked answers (messages nows k))
      unfolding publish_beats publish_beat beat stamp
      taken-publish_beats [] k p = sym (append-nil _)
      taken-publish_beats (now ∷ nows) k p =
          let bytes = beats.serialize (beat t0 now k).0 in
          let p' = (publish zmq topic bytes p).1 in
          taken_one_more (publish zmq topic bytes p).0 _ (record { topic = topic; payload = bytes })
            _ _ _ _ (taken-publish zmq taken is_pub topic bytes p)
            (taken-publish_beats nows (u64 (k + 1)) p')

      -- What `mw_pub` publishes in its rounds, and what `mw_sub` prints of it. The publisher's socket
      -- accepts the heartbeats whose publication is answered `true`. Whichever heartbeats arrive: each
      -- is shown once and in order, with its number, and with a gap marked exactly if it is not the
      -- first to arrive and the one published before it did not arrive.
      pub listen-publish_beats :
          (nows : List Clocks) (p : Publisher Sock) (bs : List Bool) (sock : Sock)
          → length nows < 2 ^ 64
          → AllEncodable nows 0
          → taken p.sock ≡ []
          → parts sock ≡ parts_of (picked bs (messages nows 0))
          → let (answers, last, p') = publish_beats beats zmq topic t0 nows 0 p in
            (taken p'.sock ≡ parts_of (picked answers (messages nows 0)))
            × ((listen beats zmq
                  (length (picked bs (messages nows 0)))
                  sock
                  (record { expected = 0; first = true })).0
                ≡ report true false 0 bs nows)
      listen-publish_beats nows p bs sock few h empty e = (
        taken-publish_beats nows 0 p
            ∙ ap
                (λ t.
                  t
                  ++ parts_of
                      (picked (publish_beats beats zmq topic t0 nows 0 p).0 (messages nows 0)))
                empty,
        listen-report true false bs nows 0 sock (record { expected = 0; first = true })
            (omega (arith, few)) h refl e,
      )
