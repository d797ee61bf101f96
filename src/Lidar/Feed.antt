-- ===== src/Lidar/Feed.antt =====
-- src/publisher.cpp, src/subscriber.cpp, src/cloud_publisher.cpp and src/cloud_subscriber.cpp: scans
-- and point clouds on the wire. A subscriber's reused message is left out, since a parse clears it.
pub mod Delivery
pub mod Opening
pub mod Link
pub mod Received
use arun_work.Base.{ℕ, ◌+◌, ◌≡◌, List, [], ◌∷◌, Option, none, some, Bool, true, false, Bytes}
use arun_work.Base.Int.{ℤ}
use arun_work.Base.Words.{u64}
use arun_work.Transport.{IZmq, Publisher, Message, publish, receive}
use arun_work.Lidar.Scan.{Scan, LidarScan, PointCloud, LidarPointCloud}
use arun_work.Lidar.Codec.{to_proto, from_proto, cloud_to_proto, cloud_from_proto}
use arun_work.Lidar.Replies.{IProtobuf}

pub record ScanPublisher (Float Sock : Type 0) : Type 0 where
  pub topic : Bytes
  pub publisher : Publisher Sock
  pub wire : LidarScan Float

pub record CloudPublisher (Float Sock : Type 0) : Type 0 where
  pub topic : Bytes
  pub publisher : Publisher Sock
  pub wire : LidarPointCloud Float

pub record Subscriber (Sock : Type 0) : Type 0 where
  pub sock : Sock
  pub malformed : ℕ

module _ {Float Sock : Type 0} (zmq : IZmq Sock) where
  unfoldable pub publish_scan :
      IProtobuf (LidarScan Float)
      → Scan Float
      → ScanPublisher Float Sock
      → Bool × ScanPublisher Float Sock
  publish_scan protobuf scan p =
      let wire = to_proto scan p.wire in
      let (answer, publisher) = publish zmq p.topic (protobuf.serialize wire) p.publisher in
      (answer, record p { publisher = publisher; wire = wire })

  unfoldable pub publish_cloud :
      IProtobuf (LidarPointCloud Float)
      → PointCloud Float
      → CloudPublisher Float Sock
      → Bool × CloudPublisher Float Sock
  publish_cloud protobuf cloud p =
      let wire = cloud_to_proto cloud p.wire in
      let (answer, publisher) = publish zmq p.topic (protobuf.serialize wire) p.publisher in
      (answer, record p { publisher = publisher; wire = wire })

module _ {Sock : Type 0} (zmq : IZmq Sock) where
  -- What both subscribers do; `none` is `false`, which leaves the caller's scan as it is.
  unfoldable pub poll :
      {A Msg : Type 0}
      → (Bytes → Option Msg)
      → (Msg → A)
      → ℤ
      → Subscriber Sock
      → Option A × Subscriber Sock
  poll parse from timeout s =
      let (arrived, sock) = receive zmq timeout s.sock in
      elim arrived [
        | none ↦ (none, record s { sock = sock })
        | some message ↦ elim (parse message.payload) [
          | none ↦ (none, record { sock = sock; malformed = u64 (s.malformed + 1) })
          | some wire ↦ (some (from wire), record s { sock = sock })
        ]
      ]

module _ {Float Sock : Type 0} (zmq : IZmq Sock) where
  unfoldable pub poll_scan :
      IProtobuf (LidarScan Float) → ℤ → Subscriber Sock → Option (Scan Float) × Subscriber Sock
  poll_scan protobuf timeout s = poll zmq protobuf.parse from_proto timeout s

  unfoldable pub poll_cloud :
      IProtobuf (LidarPointCloud Float)
      → ℤ
      → Subscriber Sock
      → Option (PointCloud Float) × Subscriber Sock
  poll_cloud protobuf timeout s = poll zmq protobuf.parse cloud_from_proto timeout s
