-- ===== src/Programs/Monitor/Honest.antt =====
-- apps/lidar_monitor_main.cpp, src/query_client.cpp and src/query_server.cpp: the monitor says of a
-- recording what it holds.
use arun_work.Base.{
  ℕ, zero, suc, Bool, ◌+◌, ◌<◌, ◌^◌, ◌≡◌, ◌∙◌, refl, ap, List, length, Option, none, some, true,
  false, ◌==◌, Bytes, arith,
}
use arun_work.Base.Int.{pos, ◌-ℤ◌, leb_ℤ}
use arun_work.Transport.{IZmq}
use arun_work.Lidar.Scan.{Scan, LidarScan}
use arun_work.Lidar.Replies.{IProtobuf}
use arun_work.Lidar.Log.{IIndex}
use arun_work.Lidar.Log.Indexed.{IsRecorded}
use arun_work.Lidar.Log.Playback.{count-scans}
use arun_work.Lidar.Feed.{poll_scan}
use arun_work.Lidar.Query.{ScanQueryServer, latest}
use arun_work.Lidar.Query.Windows.{newest}
use arun_work.Lidar.Query.Answers.{asked, latest-handle}
use arun_work.Programs.Monitor.{
  Status, nothing_recorded, latest_scan, Monitor, Moment, status_line, counted, watch,
}

module _ {Float Db Sock : Type 0} (protobuf : IProtobuf (LidarScan Float)) (fresh : LidarScan Float)
    (index : IIndex Db) (zmq : IZmq Sock) where
  open index use {rows, IsReady}

  -- What is to be said of a recording.
  abbrev pub status_of : List (Scan Float) → Option (Scan Float) → Status Float
  status_of scans none = nothing_recorded (length scans)
  status_of scans (some scan) = latest_scan (length scans) scan

  -- How many scans came, and whether none has come so far, this round included.
  abbrev pub came : Option (Scan Float) → ℕ
  came none = 0
  came (some scan) = 1

  abbrev pub none_yet : Option (Scan Float) → ℕ → Bool
  none_yet none zero = true
  none_yet none (suc before) = false
  none_yet (some scan) before = false

  received-came :
      (live : Option (Scan Float)) (n : ℕ)
      → suc n < 2 ^ 64
      → (counted protobuf index zmq live n ≡ n + came live)
        × ((counted protobuf index zmq live n == 0) ≡ none_yet live n)
  received-came none zero h = (omega arith, refl)
  received-came none (suc n) h = (omega arith, ground arith)
  received-came (some scan) n h = (omega (arith, h), ground (arith, h))

  -- A round that is due for a status line, on a recording of less than 2 ^ 32 scans that a query server
  -- answers from: the line has the number of its scans, and the scan recorded last, or that there is
  -- none; it says that none has come live exactly if none came in this round and none is counted from
  -- before; the count, of less than 2 ^ 64 - 1 before, grows by one if one came; and nothing is thrown.
  pub watch-honest :
      (now : Moment Db) (m : Monitor Db Sock) (file : Bytes) (s : ScanQueryServer Db)
      (scans : List (Scan Float))
      → leb_ℤ (pos 2_000_000_000) (now.now_ns -ℤ m.last_status) ≡ true
      → IsReady now.db
      → m.reader.failed ≡ false
      → IsRecorded protobuf fresh file 1 (rows now.db) scans
      → IsReady s.reader.db
      → s.reader.failed ≡ false
      → rows s.reader.db ≡ rows now.db
      → length scans < 2 ^ 32
      → suc m.live_received < 2 ^ 64
      → now.ask ≡ asked protobuf fresh index file s
      → let (printed, thrown, m') = watch protobuf index zmq now m in
        let live = (poll_scan zmq protobuf (pos 300) m.subscriber).0 in
        (thrown ≡ none)
        × (printed ≡ record {
          live = live;
          status = some (status_of scans (newest scans), none_yet live m.live_received);
        })
        × (m'.live_received ≡ m.live_received + came live)
  unfolding watch
  watch-honest now m file s scans due ready usable held ready' usable' same few room service =
      let read =
        count-scans protobuf fresh index file (record (m.reader) { db = now.db }) scans ready usable
          held (omega (arith, few)) in
      let answered =
        ap (latest protobuf) service
        ∙ latest-handle protobuf fresh index file s scans ready' usable' (rw (← same) at held)
            few in
      let (count, first) =
        received-came (poll_scan zmq protobuf (pos 300) m.subscriber).0 m.live_received room in
      rw (due, watch)
        (rw (read, watch)
          (rw answered (rw (by_newest (newest scans)) (rw (first, count) (refl, refl, refl)))))
    where
      by_newest :
          (o : Option (Scan Float))
          → status_line protobuf index zmq (length scans) (o, true) ≡ status_of scans o
      by_newest none = unfold status_line in refl
      by_newest (some scan) = unfold status_line in refl
