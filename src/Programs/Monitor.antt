-- ===== src/Programs/Monitor.antt =====
-- apps/lidar_monitor_main.cpp: the live stream, the recording and the query service are watched from
-- one place. The clock, Ctrl+C, the log and the query service are the environment.
pub mod Honest
use arun_work.Base.{
  ℕ, ◌+◌, List, [], ◌∷◌, ◌++◌, Option, none, some, Bool, true, false, ◌==◌, if◌then◌else◌, Bytes,
  codes, Exception, what, Result, ok, err, ◌>>=◌,
}
use arun_work.Base.Int.{ℤ, pos, ◌-ℤ◌, leb_ℤ}
use arun_work.Base.Words.{u64}
use arun_work.Transport.{IZmq}
use arun_work.Transport.Sockets.{IContext, make_req_socket}
use arun_work.Lidar.Scan.{Scan, LidarScan}
use arun_work.Lidar.Replies.{IProtobuf}
use arun_work.Lidar.Log.{IIndex}
use arun_work.Lidar.Log.Reader.{ScanReader, count}
use arun_work.Lidar.Feed.{Subscriber, poll_scan}
use arun_work.Lidar.Feed.Opening.{open_subscriber}
use arun_work.Lidar.Query.{latest}

-- What a status line says of the recording's count and of the query service.
pub data Status (Float : Type 0) : Type 0 where
  unreachable : ℕ → Status Float
  nothing_recorded : ℕ → Status Float
  latest_scan : ℕ → Scan Float → Status Float

-- What a round prints: the scan that came, the status, and whether it says that none has come yet.
pub record Printed (Float : Type 0) : Type 0 where
  pub live : Option (Scan Float)
  pub status : Option (Status Float × Bool)

pub record Monitor (Db Sock : Type 0) : Type 0 where
  pub reader : ScanReader Db
  pub subscriber : Subscriber Sock
  pub live_received : ℕ
  pub last_status : ℤ

-- What a round meets: Ctrl+C before its test, the time behind its poll, what the index's connection
-- sees, and the query service, as the answer to a request.
pub record Moment (Db : Type 0) : Type 0 where
  pub sigint : Bool
  pub now_ns : ℤ
  pub db : Db
  pub ask : Bytes → Result Exception (Option Bytes)

module _ {Float Db Sock : Type 0} (protobuf : IProtobuf (LidarScan Float)) (index : IIndex Db)
    (zmq : IZmq Sock) where
  -- By the result of `latest()` with `ok()`.
  unfoldable pub status_line : ℕ → Option (Scan Float) × Bool → Status Float
  status_line db_count (scan, false) = unreachable db_count
  status_line db_count (none, true) = nothing_recorded db_count
  status_line db_count (some scan, true) = latest_scan db_count scan

  abbrev pub counted : Option (Scan Float) → ℕ → ℕ
  counted none n = n
  counted (some scan) n = u64 (n + 1)

  -- One round of the loop: what it prints, and the exception that ends it, if any. A status line comes
  -- at most every two seconds.
  unfoldable pub watch :
      Moment Db → Monitor Db Sock → Printed Float × Option Exception × Monitor Db Sock
  watch now m =
      let (live, subscriber) = poll_scan zmq protobuf (pos 300) m.subscriber in
      let reader = record (m.reader) { db = now.db } in
      let received = counted live m.live_received in
      let polled = record m {
        reader = reader;
        subscriber = subscriber;
        live_received = received;
      } in
      elim (leb_ℤ (pos 2_000_000_000) (now.now_ns -ℤ m.last_status)) [
        | false ↦ (record { live = live; status = none }, none, polled)
        | true ↦
            let m' = record polled { last_status = now.now_ns } in
            elim (count protobuf index reader) [
              | err e ↦ (record { live = live; status = none }, some e, m')
              | ok db_count ↦ (
                record {
                  live = live;
                  status = some (status_line db_count (latest protobuf now.ask), received == 0);
                },
                none,
                m',
              )
            ]
      ]

  -- The loop: what the rounds print, and the exit status, `none` while it runs, and if an exception
  -- that is no `std::exception` ends it.
  unfoldable pub monitor : List (Moment Db) → Monitor Db Sock → List (Printed Float) × Option ℕ
  monitor [] m = ([], none)
  monitor (now ∷ nows) m = elim now.sigint [
    | true ↦ ([], some 0)
    | false ↦
        let (printed, thrown, m') = watch now m in
        elim thrown [
          | some e ↦ (printed ∷ [], elim (what e) [ none ↦ none | some message ↦ some 1 ])
          | none ↦ let (rest, status) = monitor nows m' in (printed ∷ rest, status)
        ]
  ]

-- The reader is opened first, then the subscriber, and then the query client's socket; the first status
-- line is due at once.
unfoldable pub start_monitor :
    {Db Sock : Type 0}
    → IContext Sock
    → (Bytes → Bytes → Result Exception (ScanReader Db))
    → Bytes
    → Bytes
    → Bytes
    → Bytes
    → ℤ
    → Result Exception (Monitor Db Sock)
start_monitor ctx open_reader log_path db_path live_endpoint query_endpoint now_ns = do
  reader ← open_reader log_path db_path
  subscriber ← open_subscriber ctx live_endpoint (codes "lidar.scan")
  client ← make_req_socket ctx query_endpoint
  ok (record {
    reader = reader;
    subscriber = subscriber;
    live_received = 0;
    last_status = now_ns -ℤ pos 10_000_000_000;
  })
