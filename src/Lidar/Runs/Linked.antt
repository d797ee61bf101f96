-- ===== src/Lidar/Runs/Linked.antt =====
-- Two scans are published, the first of them is lost on the way, and the second one arrives.
use arun_work.Base.{
  ◌≡◌, refl, List, [], ◌∷◌, map, picked, Bool, true, false, some, Bytes, codes, ok,
}
use arun_work.Base.Int.{pos}
use arun_work.Base.Words.{u64}
use arun_work.Transport.Stream.{parts_of}
use arun_work.Transport.Sockets.{make_subscriber, add_prefix}
use arun_work.Transport.Samples.{
  Wire, wire, context, new_wire, arrive, wire-IsPub, wire-IsQueue, wire-IsSub,
}
use arun_work.Lidar.Scan.{Scan}
use arun_work.Lidar.Feed.{ScanPublisher, Subscriber}
use arun_work.Lidar.Feed.Opening.{open_subscriber}
use arun_work.Lidar.Feed.Delivery.{poll_each}
use arun_work.Lidar.Feed.Link.{publish_each, message_of}
use arun_work.Lidar.Feed.Received.{poll_each-publish_each}
use arun_work.Lidar.Samples.{message, scan, protobuf, scan-IsWireable}

abbrev topic : Bytes
topic = codes "lidar.scan"

abbrev prefix : Bytes
prefix = codes "lidar"

abbrev scans : List (Scan (Unit {0}))
scans = scan 5 ∷ scan 9 ∷ []

abbrev publisher : ScanPublisher (Unit {0}) Wire
publisher = record {
  topic = topic;
  publisher = record { sock = new_wire; dropped = 0 };
  wire = message 0;
}

abbrev subscriber : Subscriber Wire
subscriber = record { sock = record new_wire { prefixes = prefix ∷ [] }; malformed = 0 }

abbrev arrives : List Bool
arrives = false ∷ true ∷ []

opened : open_subscriber context (codes "ipc:///tmp/lidar.sock") prefix ≡ ok subscriber
unfolding open_subscriber make_subscriber add_prefix
opened = refl

poll_each-publish_each_example :
    let (answers, p') = publish_each wire protobuf scans publisher in
    let kept = picked answers scans in
    let ms = picked arrives (map (message_of wire protobuf (message 0) topic) kept) in
    let (got, s') =
      poll_each wire protobuf
        (pos 1000)
        ms
        (record subscriber { sock = arrive ms subscriber.sock }) in
    (p'.publisher.sock.accepted ≡ parts_of (map (message_of wire protobuf (message 0) topic) kept))
    × (got ≡ map some (picked arrives kept))
    × (u64 s'.malformed ≡ 0)
    × (s'.sock.waiting ≡ [])
poll_each-publish_each_example =
    poll_each-publish_each wire context protobuf (message 0) (λ s. s.accepted) (λ s. s.waiting)
      (λ s. s.prefixes) arrive wire-IsPub wire-IsQueue wire-IsSub (codes "ipc:///tmp/lidar.sock")
      prefix subscriber scans publisher arrives (pos 1000) opened refl refl
      (scan-IsWireable 5, (scan-IsWireable 9, tt))
