-- ===== src/Lidar/Feed/Delivery.antt =====
-- src/subscriber.cpp and src/cloud_subscriber.cpp: what a subscriber makes of the messages that have
-- arrived.
use arun_work.Base.{
  ℕ, ◌+◌, ◌≡◌, ◌∙◌, refl, sym, ap, ap₂, List, [], ◌∷◌, map, Option, none, some, Bool, Bytes,
  Option-cases, inl, inr, arith,
}
use arun_work.Base.Int.{ℤ}
use arun_work.Base.Words.{u64}
use arun_work.Transport.{IZmq, Message, receive}
use arun_work.Transport.Stream.{IsQueue, parts_of, receive-parts_of}
use arun_work.Lidar.Scan.{Scan, LidarScan}
use arun_work.Lidar.Codec.{from_proto}
use arun_work.Lidar.Replies.{IProtobuf}
use arun_work.Lidar.Feed.{Subscriber, poll, poll_scan}

module _ {Float Sock : Type 0} (zmq : IZmq Sock) (protobuf : IProtobuf (LidarScan Float)) where
  -- One poll for each message, with the results in order.
  abbrev pub poll_each :
      ℤ → List Message → Subscriber Sock → List (Option (Scan Float)) × Subscriber Sock
  poll_each timeout [] s = ([], s)
  poll_each timeout (m ∷ ms) s =
      let (scan, s') = poll_scan zmq protobuf timeout s in
      let (scans, s'') = poll_each timeout ms s' in (scan ∷ scans, s'')

  abbrev parsed : Option (LidarScan Float) → Option (Scan Float)
  parsed none = none
  parsed (some wire) = some (from_proto wire)

  abbrev unparsed : Option (LidarScan Float) → ℕ
  unparsed none = 1
  unparsed (some wire) = 0

  -- A message as the scan that it carries, if it carries one.
  abbrev pub scan_of : Message → Option (Scan Float)
  scan_of m = parsed (protobuf.parse m.payload)

  abbrev pub unparsable : List Message → ℕ
  unparsable [] = 0
  unparsable (m ∷ ms) = unparsed (protobuf.parse m.payload) + unparsable ms

  module _ (parts : Sock → List (Bytes × Bool)) (queue : IsQueue zmq parts) where
    poll-good :
        (timeout : ℤ) (m : Message) (s : Subscriber Sock) (wire : LidarScan Float)
        → (receive zmq timeout s.sock).0 ≡ some m
        → protobuf.parse m.payload ≡ some wire
        → poll_scan zmq protobuf timeout s
          ≡ (some (from_proto wire), record s { sock = (receive zmq timeout s.sock).1 })
    unfolding poll_scan poll
    poll-good timeout m s wire arrived good = rw (arrived, poll) (rw (good, poll) refl)

    poll-bad :
        (timeout : ℤ) (m : Message) (s : Subscriber Sock)
        → (receive zmq timeout s.sock).0 ≡ some m
        → protobuf.parse m.payload ≡ none
        → poll_scan zmq protobuf timeout s ≡ (
          none,
          record { sock = (receive zmq timeout s.sock).1; malformed = u64 (s.malformed + 1) },
        )
    unfolding poll_scan poll
    poll-bad timeout m s arrived bad = rw (arrived, poll) (rw (bad, poll) refl)

    -- Of the messages that have arrived, as many polls give each scan once and in order, nothing for a
    -- message that carries none, and `malformed` grows by the number of those, modulo 2 ^ 64.
    pub poll_each-parts_of :
        (timeout : ℤ) (ms : List Message) (s : Subscriber Sock)
        → parts s.sock ≡ parts_of ms
        → let (scans, s') = poll_each timeout ms s in
          (scans ≡ map scan_of ms)
          × (u64 s'.malformed ≡ u64 (s.malformed + unparsable ms))
          × (parts s'.sock ≡ [])
    poll_each-parts_of timeout [] s e = (refl, omega arith, e)
    poll_each-parts_of timeout (m ∷ ms) s e =
        let (arrived, left) = receive-parts_of zmq parts queue timeout s.sock m ms e in
        let sock = (receive zmq timeout s.sock).1 in
        elim (Option-cases (protobuf.parse m.payload)) [
          | inl bad ↦
              let (scans, count, done) =
                poll_each-parts_of timeout ms
                  (record { sock = sock; malformed = u64 (s.malformed + 1) }) left in
              rw (poll-bad timeout m s arrived bad)
                (ap₂ ◌∷◌ (ap parsed (sym bad)) scans, count ∙ omega (arith, ap unparsed bad), done)
          | inr (wire, good) ↦
              let (scans, count, done) =
                poll_each-parts_of timeout ms (record s { sock = sock }) left in
              rw (poll-good timeout m s wire arrived good) (
                ap₂ ◌∷◌ (ap parsed (sym good)) scans,
                count ∙ omega (arith, ap unparsed good),
                done,
              )
        ]
