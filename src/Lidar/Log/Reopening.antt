-- ===== src/Lidar/Log/Reopening.antt =====
-- src/recorder.cpp and src/reader.cpp: a recording goes on in a later run, and a constructor that
-- fails leaves nothing open.
use arun_work.Base.{ℕ, ◌≡◌, refl, List, true, Bytes, Exception, Result, ok, err, arith}
use arun_work.Lidar.Scan.{Scan, LidarScan}
use arun_work.Lidar.Replies.{IProtobuf}
use arun_work.Lidar.Log.{IIndex}
use arun_work.Lidar.Log.Recorder.{ScanRecorder}
use arun_work.Lidar.Log.Indexed.{IsRecorded}
use arun_work.Lidar.Log.Recording.{IsRecording}
use arun_work.Lidar.Log.Opening.{
  Handles, no_handles, RecorderAnswers, ReaderAnswers, recorder_body, reader_body, close_recorder,
  close_reader, open_recorder, open_reader, finish_recorder, Body,
}

-- Every handle is closed if the constructor throws, and these are open if it returns.
abbrev pub IsTidy : {A : Type 0} → Handles → Result Exception A × Handles → Type 0
IsTidy kept (ok a, held) = held ≡ kept
IsTidy kept (err e, held) = held ≡ no_handles

abbrev pub recorder_handles : RecorderAnswers → Handles
recorder_handles a = record no_handles { db = a.db_handle; insert_stmt = true }

open_recorder-IsTidy :
    {Float Db : Type 0} (log_path : Bytes) (a : RecorderAnswers) (file : Bytes) (db : Db)
    (wire : LidarScan Float)
    → IsTidy (recorder_handles a) (open_recorder log_path a file db wire)
unfolding open_recorder finish_recorder recorder_body close_recorder
open_recorder-IsTidy log_path a file db wire = ground arith

-- The reader's constructor throws with every handle closed, or returns with the database and its three
-- statements.
pub open_reader-IsTidy :
    {Db : Type 0} (log_path : Bytes) (a : ReaderAnswers) (db : Db)
    → IsTidy
        (record no_handles {
          db = a.db_handle;
          count_stmt = true;
          get_stmt = true;
          range_stmt = true;
        })
        (open_reader log_path a db)
unfolding open_reader reader_body close_reader
open_reader-IsTidy log_path a db = ground arith

module _ {Float Db : Type 0} (protobuf : IProtobuf (LidarScan Float)) (fresh : LidarScan Float)
    (index : IIndex Db) where
  open index use {rows}

  abbrev pub Continues : List (Scan Float) → Result Exception (ScanRecorder Float Db) → Type 0
  Continues scans (ok r) = IsRecording protobuf fresh index r scans
  Continues scans (err e) = Unit

  continued :
      (body : Body (ℕ × Handles)) (file : Bytes) (db : Db) (wire : LidarScan Float)
      (scans : List (Scan Float))
      → IsRecorded protobuf fresh file 1 (rows db) scans
      → Continues scans (finish_recorder file db wire body).0
  unfolding finish_recorder
  continued (ok (scan_count, held)) file db wire scans h = record { clean = refl; held = h }
  continued (err (e, held)) file db wire scans h = tt

  -- Whatever of its calls fails, the recorder's constructor throws with every handle of SQLite closed,
  -- or returns, with the database and the statement that inserts, a recorder of the recording that is
  -- there: the same scans, under the same keys.
  pub open_recorder-Continues :
      (log_path : Bytes) (a : RecorderAnswers) (file : Bytes) (db : Db) (wire : LidarScan Float)
      (scans : List (Scan Float))
      → IsRecorded protobuf fresh file 1 (rows db) scans
      → IsTidy (recorder_handles a) (open_recorder log_path a file db wire)
        × Continues scans (open_recorder log_path a file db wire).0
  unfolding open_recorder
  open_recorder-Continues log_path a file db wire scans h = (
    open_recorder-IsTidy log_path a file db wire,
    continued (recorder_body log_path a) file db wire scans h,
  )
