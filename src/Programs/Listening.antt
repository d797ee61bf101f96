-- ===== src/Programs/Listening.antt =====
-- apps/scan_subscriber_main.cpp and apps/cloud_subscriber_main.cpp: what arrives is printed and
-- counted. Both programs are the same but for what they subscribe to.
pub mod Shown
use arun_work.Base.{
  ℕ, zero, suc, ◌+◌, ◌%◌, List, [], ◌∷◌, Option, none, some, Bool, true, false, ◌==◌, ltb,
  if◌then◌else◌, Bytes, codes, Exception, what, Result, ok, err,
}
use arun_work.Base.Int.{ℤ, pos}
use arun_work.Base.Words.{u64}
use arun_work.Transport.{IZmq}
use arun_work.Transport.Sockets.{IContext}
use arun_work.Lidar.Scan.{Scan, PointCloud, LidarScan, LidarPointCloud}
use arun_work.Lidar.Replies.{IProtobuf}
use arun_work.Lidar.Feed.{Subscriber, poll_scan, poll_cloud}
use arun_work.Lidar.Feed.Opening.{open_subscriber}

-- What one round prints.
pub data Line (A : Type 0) : Type 0 where
  silent : Line A
  -- Nothing for so many polls.
  idle : ℕ → Line A
  -- The number of what has come, and a warning with the count of malformed messages, if there are any.
  shown : ℕ → A → Option ℕ → Line A

pub record Listener (Sock : Type 0) : Type 0 where
  pub subscriber : Subscriber Sock
  pub received : ℕ
  pub idle_polls : ℕ

module _ {A Sock : Type 0} (poll : Subscriber Sock → Option A × Subscriber Sock) where
  abbrev pub heard : Option A → Subscriber Sock → Listener Sock → Line A × Listener Sock
  heard none subscriber l =
      let n = u64 (l.idle_polls + 1) in
      (if n % 5 == 0 then idle n else silent, record l { subscriber = subscriber; idle_polls = n })
  heard (some a) subscriber l =
      let n = u64 (l.received + 1) in
      (
        shown n a (if ltb 0 subscriber.malformed then some subscriber.malformed else none),
        record { subscriber = subscriber; received = n; idle_polls = 0 },
      )

  -- One round of the endless loop, and so many of them.
  unfoldable pub hear : Listener Sock → Line A × Listener Sock
  hear l = let (a, subscriber) = poll l.subscriber in heard a subscriber l

  unfoldable pub hear_all : ℕ → Listener Sock → List (Line A) × Listener Sock
  hear_all zero l = ([], l)
  hear_all (suc n) l =
      let (line, l') = hear l in let (lines, l'') = hear_all n l' in (line ∷ lines, l'')

module _ {Float Sock : Type 0} (zmq : IZmq Sock) where
  unfoldable pub hear_scans :
      IProtobuf (LidarScan Float) → ℕ → Listener Sock → List (Line (Scan Float)) × Listener Sock
  hear_scans protobuf n l = hear_all (poll_scan zmq protobuf (pos 1000)) n l

  unfoldable pub hear_clouds :
      IProtobuf (LidarPointCloud Float)
      → ℕ
      → Listener Sock
      → List (Line (PointCloud Float)) × Listener Sock
  hear_clouds protobuf n l = hear_all (poll_cloud zmq protobuf (pos 1000)) n l

abbrev or_default : Bytes → List Bytes → Bytes
or_default default [] = default
or_default default (arg ∷ args) = arg

abbrev tail : List Bytes → List Bytes
tail [] = []
tail (arg ∷ args) = args

-- The arguments are those behind the program's name. An exception of the start ends the process with
-- 1, if it is a `std::exception`; `none` is a process that runs on.
unfoldable pub subscriber_main :
    {Sock : Type 0} → IContext Sock → Bytes → Bytes → List Bytes → Option ℕ × Option (Listener Sock)
subscriber_main ctx endpoint topic args =
    elim (open_subscriber ctx (or_default endpoint args) (or_default topic (tail args))) [
      | ok s ↦ (none, some (record { subscriber = s; received = 0; idle_polls = 0 }))
      | err e ↦ (elim (what e) [ none ↦ none | some message ↦ some 1 ], none)
    ]

unfoldable pub scan_subscriber_main :
    {Sock : Type 0} → IContext Sock → List Bytes → Option ℕ × Option (Listener Sock)
scan_subscriber_main ctx args =
    subscriber_main ctx (codes "ipc:///tmp/lidar.sock") (codes "lidar.scan") args

unfoldable pub cloud_subscriber_main :
    {Sock : Type 0} → IContext Sock → List Bytes → Option ℕ × Option (Listener Sock)
cloud_subscriber_main ctx args =
    subscriber_main ctx (codes "ipc:///tmp/lidar_cloud.sock") (codes "lidar.cloud") args
