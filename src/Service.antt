-- ===== src/Service.antt =====
-- apps/scan_publisher_recorder_main.cpp: the service that keeps one connection to the sensor, and
-- records and publishes each scan. What it prints is left out. The sensor, the clock and Ctrl+C are
-- the environment, whose answers each iteration of a loop reads.
pub mod Main
pub mod Backoff
pub mod Attached
pub mod Watchdog
pub mod Ledger
pub mod Session
mod Runs
use arun_work.Base.{
  ℕ, suc, ◌+◌, ◌-◌, ◌^◌, List, [], ◌∷◌, Option, none, some, Bool, true, false, ◌||◌, leb, Exception,
  what, Result, ok, err, if◌then◌else◌,
}
use arun_work.Base.Words.{u64}
use arun_work.Transport.{IZmq}
use arun_work.Lidar.Scan.{Scan, LidarScan}
use arun_work.Lidar.Replies.{IProtobuf}
use arun_work.Lidar.Log.{IIndex}
use arun_work.Lidar.Log.Recorder.{ScanRecorder, record_scan}
use arun_work.Lidar.Feed.{ScanPublisher, publish_scan}

-- `kStallTimeoutCount` and `kStartupTimeoutCount`
abbrev pub stall_timeout_count : ℕ
stall_timeout_count = 15

abbrev pub startup_timeout_count : ℕ
startup_timeout_count = 30

-- One check of a connection attempt: what the future holds, if it is ready, and else whether Ctrl+C
-- has come.
pub record Check : Type 0 where
  pub ready : Option (Result Exception (Unit {0}))
  pub stop : Bool

pub data Attempt : Type 0 where
  -- The future's value or its exception.
  returned : Result Exception (Unit {0}) → Attempt
  -- `std::_Exit(1)`
  exited : Attempt
  -- No check so far has ended it.
  waiting : Attempt

-- With the stop flag behind the checks.
unfoldable pub connect_with_stop_check : Bool → List Check → Attempt × Bool
connect_with_stop_check stop [] = (waiting, stop)
connect_with_stop_check stop (check ∷ checks) =
    let rest = connect_with_stop_check stop checks in
    elim check.ready [
      | some result ↦ (returned result, stop || check.stop)
      | none ↦ if stop || check.stop then (exited, true) else rest
    ]

-- In which loop `main` is, or how it ended.
pub data Phase : Type 0 where
  polling reconnecting : Phase
  -- The return of 0, `std::_Exit(1)`, and an exception that left the loop.
  finished aborted : Phase
  failed : Exception → Phase

-- The variables of `main`; `connected` says whether `source` holds a source.
pub record Service (Float Db Sock : Type 0) : Type 0 where
  pub phase : Phase
  pub stop_requested : Bool
  pub connected : Bool
  pub recorder : ScanRecorder Float Db
  pub publisher : ScanPublisher Float Sock
  pub recorded : ℕ
  pub published : ℕ
  pub last_reported : ℕ
  pub reconnects : ℕ
  pub ever_received : Bool
  pub consecutive_timeouts : ℕ

-- What an iteration meets: Ctrl+C before its test, what the poll returns, what the disk does with the
-- record, and the checks of a connection attempt.
pub record Answer (Float : Type 0) : Type 0 where
  pub sigint : Bool
  pub scan : Option (Scan Float)
  pub room : Option ℕ
  pub checks : List Check

module _ {Float Db Sock : Type 0} where
  abbrev pub threshold : Service Float Db Sock → ℕ
  threshold s = if s.ever_received then stall_timeout_count else startup_timeout_count

  -- A poll without a scan. The watchdog ends the connection when it has seen enough of them.
  unfoldable pub time_out : Service Float Db Sock → Service Float Db Sock
  time_out s =
      let timeouts = suc s.consecutive_timeouts in
      if leb (threshold s) timeouts
      then record s { consecutive_timeouts = timeouts; connected = false; phase = reconnecting }
      else record s { consecutive_timeouts = timeouts }

  -- An attempt of the watchdog. A failed one is tried again in the next iteration.
  unfoldable pub reconnect : List Check → Service Float Db Sock → Service Float Db Sock
  reconnect checks s =
      let (attempt, stop) = connect_with_stop_check s.stop_requested checks in
      let seen = record s { stop_requested = stop } in
      elim attempt [
        | waiting ↦ seen
        | exited ↦ record seen { phase = aborted }
        | returned result ↦ elim result [
          | ok _ ↦ record seen {
            phase = polling;
            connected = true;
            reconnects = u64 (s.reconnects + 1);
            consecutive_timeouts = 0;
          }
          | err e ↦ elim (what e) [ none ↦ record seen { phase = failed e } | some message ↦ seen ]
        ]
      ]

  -- The scan is recorded, and only then published.
  unfoldable pub handle_scan :
      IProtobuf (LidarScan Float)
      → IIndex Db
      → IZmq Sock
      → Option ℕ
      → Scan Float
      → Service Float Db Sock
      → Service Float Db Sock
  handle_scan protobuf index zmq room scan s =
      let (thrown, recorder) = record_scan protobuf index room s.recorder scan in
      let (sent, publisher) = publish_scan zmq protobuf scan s.publisher in
      let received = record s {
        ever_received = true;
        consecutive_timeouts = 0;
        recorder = recorder;
      } in
      let recorded = u64 (s.recorded + 1) in
      elim thrown [
        | some e ↦ record received { phase = failed e }
        | none ↦ record received {
          publisher = publisher;
          recorded = recorded;
          published = if sent then u64 (s.published + 1) else s.published;
          last_reported =
              if leb 25 (u64 (recorded + 2 ^ 64 - s.last_reported))
              then recorded
              else s.last_reported;
        }
      ]

  -- One iteration of the loop that `main` is in, with its test.
  unfoldable pub iterate :
      IProtobuf (LidarScan Float)
      → IIndex Db
      → IZmq Sock
      → Answer Float
      → Service Float Db Sock
      → Service Float Db Sock
  iterate protobuf index zmq answer s =
      let stop = s.stop_requested || answer.sigint in
      let now = record s { stop_requested = stop } in
      elim s.phase [
        | finished ↦ s
        | aborted ↦ s
        | failed e ↦ s
        | polling ↦ elim stop [
          | true ↦ record now { phase = finished }
          | false ↦ elim answer.scan [
            | none ↦ time_out now
            | some scan ↦ handle_scan protobuf index zmq answer.room scan now
          ]
        ]
        | reconnecting ↦ elim stop [
          | true ↦ record now { phase = finished }
          | false ↦ reconnect answer.checks now
        ]
      ]

  unfoldable pub run :
      IProtobuf (LidarScan Float)
      → IIndex Db
      → IZmq Sock
      → List (Answer Float)
      → Service Float Db Sock
      → Service Float Db Sock
  run protobuf index zmq [] s = s
  run protobuf index zmq (answer ∷ answers) s =
      run protobuf index zmq answers (iterate protobuf index zmq answer s)
