-- ===== src/Programs/Broadcast.antt =====
-- apps/scan_publisher_main.cpp, apps/cloud_publisher_main.cpp and apps/camera_publisher_demo.cpp: what
-- a sensor gives is published. The sensors, Ctrl+C and the clock are the environment, whose answers
-- each round reads.
pub mod Counted
use arun_work.Base.{
  ℕ, ◌+◌, ◌-◌, ◌^◌, List, [], ◌∷◌, Option, none, some, Bool, true, false, ◌&&◌, leb, if◌then◌else◌,
  Bytes, codes, Exception, what, Result, ok, err, ◌>>=◌, ◌>>◌,
}
use arun_work.Base.Int.{ℤ, pos, ◌-ℤ◌, ltb_ℤ}
use arun_work.Base.Words.{u64}
use arun_work.Transport.{IZmq, Publisher, publish}
use arun_work.Transport.Sockets.{IContext, make_publisher}
use arun_work.Lidar.Scan.{Scan, PointCloud, LidarScan, LidarPointCloud}
use arun_work.Lidar.Replies.{IProtobuf}
use arun_work.Lidar.Feed.{ScanPublisher, CloudPublisher, publish_scan, publish_cloud}

-- The variables of both publishing programs.
pub record Broadcast (P : Type 0) : Type 0 where
  pub publisher : P
  pub published : ℕ
  pub last_reported : ℕ

-- One round behind the test: what was polled, if anything, is published. A line is printed for every
-- so many.
unfoldable pub broadcast :
    {A P : Type 0} → (A → P → Bool × P) → ℕ → Option A → Broadcast P → Broadcast P
broadcast send every none s = s
broadcast send every (some a) s =
    let (sent, publisher) = send a s.publisher in
    let published = if sent then u64 (s.published + 1) else s.published in
    record {
      publisher = publisher;
      published = published;
      last_reported =
          if leb every (u64 (published + 2 ^ 64 - s.last_reported))
          then published
          else s.last_reported;
    }

module _ {Float Sock : Type 0} (zmq : IZmq Sock) where
  -- The endless loop of `scan_publisher_main`.
  unfoldable pub publish_scans :
      IProtobuf (LidarScan Float)
      → List (Option (Scan Float))
      → Broadcast (ScanPublisher Float Sock)
      → Broadcast (ScanPublisher Float Sock)
  publish_scans protobuf [] s = s
  publish_scans protobuf (polled ∷ rest) s =
      publish_scans protobuf rest (broadcast (publish_scan zmq protobuf) 25 polled s)

  -- The loop of `cloud_publisher_main`: whether Ctrl+C has come before a round, and what is polled in
  -- it; and whether the loop has ended.
  unfoldable pub publish_clouds :
      IProtobuf (LidarPointCloud Float)
      → List (Bool × Option (PointCloud Float))
      → Broadcast (CloudPublisher Float Sock)
      → Bool × Broadcast (CloudPublisher Float Sock)
  publish_clouds protobuf [] s = (false, s)
  publish_clouds protobuf ((sigint, polled) ∷ rest) s = elim sigint [
    | true ↦ (true, s)
    | false ↦ publish_clouds protobuf rest (broadcast (publish_cloud zmq protobuf) 20 polled s)
  ]

-- The status after an exception; `none` if it is no `std::exception`.
abbrev pub failed_status : Exception → Option ℕ
failed_status e = elim (what e) [ none ↦ none | some message ↦ some 1 ]

abbrev pub status_of : {A : Type 0} → (A → Option ℕ) → Result Exception A → Option ℕ
status_of run (ok a) = run a
status_of run (err e) = failed_status e

-- Both programs bind the publisher before they connect to the sensor, which may throw. `none` is the
-- status of a process that runs on.
module _ {P : Type 0} (open_publisher : Result Exception P)
    (connect : Result Exception (Unit {0})) where
  unfoldable pub start_broadcast : Result Exception (Broadcast P)
  start_broadcast = open_publisher >>= λ publisher.
      connect >> ok (record { publisher = publisher; published = 0; last_reported = 0 })

abbrev or_default : Bytes → List Bytes → Bytes
or_default default [] = default
or_default default (arg ∷ args) = arg

abbrev tail : List Bytes → List Bytes
tail [] = []
tail (arg ∷ args) = args

abbrev port_of : (Bytes → ℤ) → List Bytes → ℤ
port_of atoi [] = pos 0
port_of atoi (arg ∷ args) = atoi arg

abbrev ended_status : Bool → Option ℕ
ended_status true = some 0
ended_status false = none

module _ {Float Sock : Type 0} (zmq : IZmq Sock) where
  -- The arguments are those behind the program's name: the launch file, the sensor's address and this
  -- machine's, and then the endpoint and the topic. `connect` takes the configuration.
  unfoldable pub scan_publisher_main :
      IProtobuf (LidarScan Float)
      → (Bytes → Bytes → Result Exception (ScanPublisher Float Sock))
      → (Bytes → Bytes → Bytes → Result Exception (Unit {0}))
      → List (Option (Scan Float))
      → List Bytes
      → Option ℕ
  scan_publisher_main protobuf open_publisher connect answers (launch ∷ host ∷ here ∷ rest) =
      status_of (λ s. none)
        (start_broadcast
            (open_publisher (or_default (codes "ipc:///tmp/lidar.sock") rest)
              (or_default (codes "lidar.scan") (tail rest)))
            (connect launch host here)
          >>= λ s. ok (publish_scans zmq protobuf answers s))
  scan_publisher_main protobuf open_publisher connect answers _ = some 1

  -- Two ports follow, 0 if they are not given; `atoi` is a parameter.
  unfoldable pub cloud_publisher_main :
      (Bytes → ℤ)
      → IProtobuf (LidarPointCloud Float)
      → (Bytes → Bytes → Result Exception (CloudPublisher Float Sock))
      → (Bytes → Bytes → Bytes → ℤ → ℤ → Result Exception (Unit {0}))
      → List (Bool × Option (PointCloud Float))
      → List Bytes
      → Option ℕ
  cloud_publisher_main atoi protobuf open_publisher connect answers (launch ∷ host ∷ here ∷ rest) =
      status_of (λ p. ended_status p.0)
        (start_broadcast
            (open_publisher (or_default (codes "ipc:///tmp/lidar_cloud.sock") rest)
              (or_default (codes "lidar.cloud") (tail rest)))
            (connect launch host here (port_of atoi (tail (tail rest)))
              (port_of atoi (tail (tail (tail rest)))))
          >>= λ s. ok (publish_clouds zmq protobuf answers s))
  cloud_publisher_main atoi protobuf open_publisher connect answers _ = some 1

-- The variables of `camera_publisher_demo`.
pub record Camera (Sock : Type 0) : Type 0 where
  pub publisher : Publisher Sock
  pub published_count : ℕ
  pub empty_frame_count : ℕ

-- How long the round still waits, if there is an interval between frames at all; in milliseconds.
unfoldable pub pause_of : Bool → ℤ → ℤ → Option ℤ
pause_of has_interval interval_ms elapsed_ms =
    if has_interval && ltb_ℤ (pos 0) (interval_ms -ℤ elapsed_ms)
    then some (interval_ms -ℤ elapsed_ms)
    else none

module _ {Frame Sock : Type 0} (zmq : IZmq Sock) (encode : Frame → Bytes) where
  -- A round up to its pause: a frame that was read and is not empty, or none.
  unfoldable pub camera_round : Option Frame → Camera Sock → Camera Sock
  camera_round none c = record c { empty_frame_count = u64 (c.empty_frame_count + 1) }
  camera_round (some frame) c =
      let (sent, publisher) = publish zmq (codes "camera.frame") (encode frame) c.publisher in
      record c {
        publisher = publisher;
        published_count = if sent then u64 (c.published_count + 1) else c.published_count;
      }

  unfoldable pub camera_loop : List (Bool × Option Frame) → Camera Sock → Bool × Camera Sock
  camera_loop [] c = (false, c)
  camera_loop ((sigint, frame) ∷ rest) c = elim sigint [
    | true ↦ (true, c)
    | false ↦ camera_loop rest (camera_round frame c)
  ]

  -- The status, by whether the camera could be opened. Nothing catches an exception here.
  unfoldable pub camera_main :
      IContext Sock → Bytes → Bool → List (Bool × Option Frame) → Result Exception (Option ℕ)
  camera_main ctx endpoint false answers = ok (some 1)
  camera_main ctx endpoint true answers = make_publisher ctx endpoint >>= λ publisher. ok (
      ended_status
        (camera_loop answers
          (record { publisher = publisher; published_count = 0; empty_frame_count = 0 })).0)
