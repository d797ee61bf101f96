-- ===== src/Lidar/Feed/Link.antt =====
-- src/publisher.cpp, src/subscriber.cpp and src/transport.cpp: scans go from a publisher to a
-- subscriber.
use arun_work.Base.{
  ℕ, ◌≡◌, sym, refl, ap, ap₂, List, [], ◌∷◌, ◌++◌, append-nil, map, All, picked, some, Bool, true,
  Bytes, arith,
}
use arun_work.Transport.{IZmq, Message}
use arun_work.Transport.Stream.{parts_of}
use arun_work.Transport.Accepted.{IsPub, if_taken, taken_one_more, taken-publish}
use arun_work.Transport.Subscriptions.{wanted, arriving}
use arun_work.Lidar.Scan.{Scan, LidarScan}
use arun_work.Lidar.Codec.{to_proto, from_proto-to_proto, to_proto-fresh}
use arun_work.Lidar.Replies.{IProtobuf}
use arun_work.Lidar.Replies.Trip.{payload, IsWireable}
use arun_work.Lidar.Feed.{ScanPublisher, publish_scan}
use arun_work.Lidar.Feed.Delivery.{scan_of, unparsable}

module _ {Float Sock : Type 0} (zmq : IZmq Sock) (protobuf : IProtobuf (LidarScan Float)) where
  -- The answers to the publications, in order, and the publisher after them.
  abbrev pub publish_each :
      List (Scan Float) → ScanPublisher Float Sock → List Bool × ScanPublisher Float Sock
  publish_each [] p = ([], p)
  publish_each (scan ∷ scans) p =
      let (answer, p') = publish_scan zmq protobuf scan p in
      let (answers, p'') = publish_each scans p' in (answer ∷ answers, p'')

module _ {Float Sock : Type 0} (zmq : IZmq Sock) (protobuf : IProtobuf (LidarScan Float))
    (fresh : LidarScan Float) where
  -- The message of two parts that stands for a scan.
  abbrev pub message_of : Bytes → Scan Float → Message
  message_of topic scan = record { topic = topic; payload = payload protobuf fresh scan }

  scan_of-message_of :
      (topic : Bytes) (scan : Scan Float)
      → IsWireable protobuf fresh scan
      → scan_of zmq protobuf (message_of topic scan) ≡ some scan
  scan_of-message_of topic scan h =
      rw (protobuf.parse-serialize _ h.1) (ap some (from_proto-to_proto scan fresh h.0))

  pub scans_back :
      (topic : Bytes) (scans : List (Scan Float))
      → All (IsWireable protobuf fresh) scans
      → (map (scan_of zmq protobuf) (map (message_of topic) scans) ≡ map some scans)
        × ◌≡◌ {A = ℕ} (unparsable zmq protobuf (map (message_of topic) scans)) 0
  scans_back topic [] h = (refl, refl)
  scans_back topic (scan ∷ scans) h =
      let (same, none_lost) = scans_back topic scans h.1 in
      (
        ap₂ ◌∷◌ (scan_of-message_of topic scan h.0) same,
        rw (protobuf.parse-serialize (to_proto scan fresh) h.0.1) (omega (arith, none_lost)),
      )

  pub arriving-topic :
      (prefixes : List Bytes) (topic : Bytes) (scans : List (Scan Float))
      → wanted prefixes topic ≡ true
      → arriving prefixes (map (message_of topic) scans) ≡ map (message_of topic) scans
  arriving-topic prefixes topic [] h = refl
  arriving-topic prefixes topic (scan ∷ scans) h =
      rw h (ap (◌∷◌ (message_of topic scan)) (arriving-topic prefixes topic scans h))

  module _ (taken : Sock → List (Bytes × Bool)) (is_pub : IsPub zmq taken) where
    taken-publish_scan :
        (scan : Scan Float) (p : ScanPublisher Float Sock)
        → let (answer, p') = publish_scan zmq protobuf scan p in
          (p'.topic ≡ p.topic)
          × (taken p'.publisher.sock
              ≡ taken p.publisher.sock ++ if_taken answer (message_of p.topic scan))
    unfolding publish_scan
    taken-publish_scan scan p =
        rw (to_proto-fresh scan p.wire fresh)
          (refl, taken-publish zmq taken is_pub p.topic (payload protobuf fresh scan) p.publisher)

    -- The publisher's socket has accepted the messages of the scans answered `true`, and no other part.
    pub taken-publish_each :
        (scans : List (Scan Float)) (p : ScanPublisher Float Sock)
        → let (answers, p') = publish_each zmq protobuf scans p in
          taken p'.publisher.sock
          ≡ taken p.publisher.sock ++ parts_of (picked answers (map (message_of p.topic) scans))
    taken-publish_each [] p = sym (append-nil _)
    taken-publish_each (scan ∷ scans) p =
        let (topic, now) = taken-publish_scan scan p in
        taken_one_more (publish_scan zmq protobuf scan p).0 _ (message_of p.topic scan)
          (map (message_of p.topic) scans) _ _ _ now
          (rw topic at (taken-publish_each scans (publish_scan zmq protobuf scan p).1))
