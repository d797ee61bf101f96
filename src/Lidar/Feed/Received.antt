-- ===== src/Lidar/Feed/Received.antt =====
-- src/publisher.cpp and src/subscriber.cpp: a subscriber gets the scans that a publisher published.
use arun_work.Base.{
  ℕ, ◌≡◌, ◌∙◌, refl, ap, List, [], ◌∷◌, map, All, picked, All-picked, picked-map, some, Bool, true,
  Bytes, ok, ok-bind, arith,
}
use arun_work.Base.Int.{ℤ}
use arun_work.Base.Words.{u64}
use arun_work.Transport.{IZmq, Message}
use arun_work.Transport.Accepted.{IsPub}
use arun_work.Transport.Stream.{IsQueue, parts_of}
use arun_work.Transport.Sockets.{IContext}
use arun_work.Transport.Subscriptions.{starts_with, wanted, IsSub, add_prefix-listens}
use arun_work.Lidar.Scan.{Scan, LidarScan}
use arun_work.Lidar.Replies.{IProtobuf}
use arun_work.Lidar.Replies.Trip.{IsWireable}
use arun_work.Lidar.Feed.{ScanPublisher, Subscriber}
use arun_work.Lidar.Feed.Opening.{open_subscriber}
use arun_work.Lidar.Feed.Delivery.{poll_each, poll_each-parts_of}
use arun_work.Lidar.Feed.Link.{
  publish_each, message_of, scans_back, arriving-topic, taken-publish_each,
}

module _ {Float Sock : Type 0} (zmq : IZmq Sock) (ctx : IContext Sock)
    (protobuf : IProtobuf (LidarScan Float)) (fresh : LidarScan Float)
    (taken parts : Sock → List (Bytes × Bool)) (prefixes : Sock → List Bytes)
    (arrive : List Message → Sock → Sock) (is_pub : IsPub zmq taken) (queue : IsQueue zmq parts)
    (sub : IsSub ctx parts prefixes arrive) where
  open_subscriber-listens :
      (endpoint topic : Bytes) (s : Subscriber Sock)
      → open_subscriber ctx endpoint topic ≡ ok s
      → (prefixes s.sock ≡ topic ∷ []) × (parts s.sock ≡ []) × ◌≡◌ {A = ℕ} s.malformed 0
  unfolding open_subscriber
  open_subscriber-listens endpoint topic s e =
      let (s1, made, e1) = ok-bind _ _ _ e in
      let (s2, added, e2) = ok-bind _ _ _ e1 in
      let (p, q) =
        add_prefix-listens ctx parts prefixes arrive sub endpoint topic s1 s2 made added in
      let same : s2 ≡ s.sock = cc e2 in (rw same at p, rw same at q, cc e2)

  -- The messages that arrive are in the queue, and the polls give their scans.
  polled :
      (topic prefix : Bytes) (s : Subscriber Sock) (scans : List (Scan Float)) (timeout : ℤ)
      → prefixes s.sock ≡ prefix ∷ []
      → parts s.sock ≡ []
      → ◌≡◌ {A = ℕ} s.malformed 0
      → starts_with prefix topic ≡ true
      → All (IsWireable protobuf fresh) scans
      → let ms = map (message_of zmq protobuf fresh topic) scans in
        let (got, s') = poll_each zmq protobuf timeout ms (record s { sock = arrive ms s.sock }) in
        (got ≡ map some scans) × (u64 s'.malformed ≡ 0) × (parts s'.sock ≡ [])
  polled topic prefix s scans timeout listens quiet zero fits h =
      let (same, none_lost) = scans_back zmq protobuf fresh topic scans h in
      let (got, count, done) =
        poll_each-parts_of zmq protobuf parts queue timeout
          (map (message_of zmq protobuf fresh topic) scans)
          (record s { sock = arrive (map (message_of zmq protobuf fresh topic) scans) s.sock })
          waits in
      (got ∙ same, count ∙ omega (arith, zero, none_lost), done)
    where
      matches : wanted (prefixes s.sock) topic ≡ true
      matches = rw listens (rw fits refl)

      waits :
          parts (arrive (map (message_of zmq protobuf fresh topic) scans) s.sock)
          ≡ parts_of (map (message_of zmq protobuf fresh topic) scans)
      waits =
          sub.parts-arrive _ s.sock
          ∙ rw quiet (
              ap parts_of (arriving-topic zmq protobuf fresh (prefixes s.sock) topic scans matches))

  -- A new subscriber, and a publisher whose topic begins with what it subscribes to. The publisher's
  -- socket accepts the messages of the scans whose publication is answered `true`, and no other part.
  -- Whichever of them arrive, as many polls give their scans, each as it was published, once and in
  -- order, and count none as malformed. The message format can carry each scan, and the publisher's
  -- socket has accepted nothing before.
  pub poll_each-publish_each :
      (endpoint topic : Bytes) (s : Subscriber Sock) (scans : List (Scan Float))
      (p : ScanPublisher Float Sock) (arrives : List Bool) (timeout : ℤ)
      → open_subscriber ctx endpoint topic ≡ ok s
      → starts_with topic p.topic ≡ true
      → taken p.publisher.sock ≡ []
      → All (IsWireable protobuf fresh) scans
      → let (answers, p') = publish_each zmq protobuf scans p in
        let kept = picked answers scans in
        let ms = picked arrives (map (message_of zmq protobuf fresh p.topic) kept) in
        let (got, s') = poll_each zmq protobuf timeout ms (record s { sock = arrive ms s.sock }) in
        (taken p'.publisher.sock ≡ parts_of (map (message_of zmq protobuf fresh p.topic) kept))
        × (got ≡ map some (picked arrives kept))
        × (u64 s'.malformed ≡ 0)
        × (parts s'.sock ≡ [])
  poll_each-publish_each endpoint topic s scans p arrives timeout made fits empty h =
      let answers = (publish_each zmq protobuf scans p).0 in
      let kept = picked answers scans in
      let (listens, quiet, zero) = open_subscriber-listens endpoint topic s made in
      let (got, count, done) =
        polled p.topic topic s (picked arrives kept) timeout listens quiet zero fits
          (All-picked _ arrives kept (All-picked _ answers scans h)) in
      rw (picked-map (message_of zmq protobuf fresh p.topic) arrives kept) (
        taken-publish_each zmq protobuf fresh taken is_pub scans p
            ∙ rw (empty, picked-map (message_of zmq protobuf fresh p.topic) answers scans) refl,
        got,
        count,
        done,
      )
