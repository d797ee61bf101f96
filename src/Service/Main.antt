-- ===== src/Service/Main.antt =====
-- apps/scan_publisher_recorder_main.cpp: the command line, the start in its order, and the exit
-- status. A file that is opened and a socket that is bound are parameters, which may throw.
use arun_work.Base.{
  ℕ, List, [], ◌∷◌, Option, none, some, true, false, Bytes, codes, Exception, what, Result, ok, err,
  ◌>>=◌,
}
use arun_work.Transport.{IZmq}
use arun_work.Lidar.Scan.{LidarScan}
use arun_work.Lidar.Replies.{IProtobuf}
use arun_work.Lidar.Log.{IIndex}
use arun_work.Lidar.Log.Recorder.{ScanRecorder}
use arun_work.Lidar.Feed.{ScanPublisher}
use arun_work.Service.{
  Check, returned, exited, waiting, connect_with_stop_check, Phase, polling, reconnecting, finished,
  aborted, failed, Service, Answer, run,
}

pub record Arguments : Type 0 where
  pub launch_file : Bytes
  pub hostname : Bytes
  pub udp_receiver_ip : Bytes
  pub log_path : Bytes
  pub db_path : Bytes
  pub endpoint : Bytes
  pub topic : Bytes

abbrev or_default : Bytes → List Bytes → Bytes
or_default default [] = default
or_default default (arg ∷ args) = arg

abbrev tail : List Bytes → List Bytes
tail [] = []
tail (arg ∷ args) = args

-- The arguments behind the program's name; `none` if there are too few.
unfoldable pub parse_arguments : List Bytes → Option Arguments
parse_arguments (launch_file ∷ hostname ∷ udp_receiver_ip ∷ log_path ∷ db_path ∷ rest) =
    some (record {
      launch_file = launch_file;
      hostname = hostname;
      udp_receiver_ip = udp_receiver_ip;
      log_path = log_path;
      db_path = db_path;
      endpoint = or_default (codes "tcp://*:5556") rest;
      topic = or_default (codes "lidar.scan") (tail rest);
    })
parse_arguments _ = none

-- The status that the process ends with; `none` while it runs, and if an exception that is not a
-- `std::exception` ends it.
unfoldable pub exit_status : Phase → Option ℕ
exit_status polling = none
exit_status reconnecting = none
exit_status finished = some 0
exit_status aborted = some 1
exit_status (failed e) = elim (what e) [ none ↦ none | some message ↦ some 1 ]

abbrev caught : {A : Type 0} → Result Exception A → Result Phase A
caught (ok a) = ok a
caught (err e) = err (failed e)

module _ {Float Db Sock : Type 0} where
  -- The service behind its first connection, or the phase that this ended in.
  unfoldable pub first_connection :
      List Check
      → ScanRecorder Float Db
      → ScanPublisher Float Sock
      → Result Phase (Service Float Db Sock)
  first_connection checks recorder publisher =
      let (attempt, stop) = connect_with_stop_check false checks in
      elim attempt [
        | waiting ↦ err reconnecting
        | exited ↦ err aborted
        | returned result ↦ elim result [
          | err e ↦ err (failed e)
          | ok _ ↦ ok (record {
            phase = polling;
            stop_requested = stop;
            connected = true;
            recorder = recorder;
            publisher = publisher;
            recorded = 0;
            published = 0;
            last_reported = 0;
            reconnects = 0;
            ever_received = false;
            consecutive_timeouts = 0;
          })
        ]
      ]

  -- The recorder is opened first, the publisher is bound, and only then is the sensor asked.
  unfoldable pub start :
      (Bytes → Bytes → Result Exception (ScanRecorder Float Db))
      → (Bytes → Bytes → Result Exception (ScanPublisher Float Sock))
      → List Check
      → Arguments
      → Result Phase (Service Float Db Sock)
  start open_recorder open_publisher checks args = do
    recorder ← caught (open_recorder args.log_path args.db_path)
    publisher ← caught (open_publisher args.endpoint args.topic)
    first_connection checks recorder publisher

  unfoldable pub main :
      IProtobuf (LidarScan Float)
      → IIndex Db
      → IZmq Sock
      → (Bytes → Bytes → Result Exception (ScanRecorder Float Db))
      → (Bytes → Bytes → Result Exception (ScanPublisher Float Sock))
      → List Check
      → List (Answer Float)
      → List Bytes
      → Option ℕ
  main protobuf index zmq open_recorder open_publisher checks answers argv =
      elim (parse_arguments argv) [
        | none ↦ some 1
        | some args ↦ elim (start open_recorder open_publisher checks args) [
          | err phase ↦ exit_status phase
          | ok service ↦ exit_status (run protobuf index zmq answers service).phase
        ]
      ]
