-- ===== src/Lidar/Runs/Faults.antt =====
-- Disks that are full, logs that are torn and databases that are locked.
use arun_work.Base.{◌≡◌, refl, List, [], ◌∷◌, none, some, codes, err, true, false}
use arun_work.Base.Int.{pos}
use arun_work.Lidar.Log.Recorder.{sqlite_error}
use arun_work.Lidar.Log.Opening.{
  RecorderAnswers, no_handles, open_recorder, finish_recorder, recorder_body, close_recorder,
}
use arun_work.Lidar.Log.Reopening.{IsTidy, Continues, recorder_handles, open_recorder-Continues}
use arun_work.Lidar.Log.{Row}
use arun_work.Lidar.Log.Recorder.{ScanRecorder}
use arun_work.Lidar.Samples.{message, scan, protobuf, index, fresh_recorder}
use arun_work.Lidar.Samples.Kept.{log_file, rows, held}

abbrev full_recorder : ScanRecorder (Unit {0}) (List Row)
full_recorder = record fresh_recorder { log = record { file = 1 ∷ []; pending = []; good = false } }

-- A log of three bytes, and a row that says there is a record at its start.
abbrev torn_row : Row
torn_row = record {
  seq = 1;
  stamp_ns = pos 5;
  offset = pos 0;
  length = pos 1;
  sample_count = pos 1;
}

-- The database is locked when the statement that counts is prepared.
abbrev locked : RecorderAnswers
locked = record {
  log_opens = true;
  db_handle = true;
  open_db = none;
  wal = none;
  busy_timeout = none;
  create = none;
  prepare_insert = none;
  prepare_count = some (codes "database is locked");
  counted = none;
}

locked_test : open_recorder (codes "dive.log") locked log_file rows (message 0) ≡ (
  err (sqlite_error (codes "sqlite3_prepare_v2(COUNT)") (codes "database is locked")),
  no_handles,
)
unfolding open_recorder finish_recorder recorder_body close_recorder
locked_test = refl

open_recorder-Continues_example :
    let reopened = open_recorder (codes "dive.log") locked log_file rows (message 0) in
    IsTidy (recorder_handles locked) reopened
    × Continues protobuf (message 0) index (scan 5 ∷ scan 9 ∷ []) reopened.0
open_recorder-Continues_example =
    open_recorder-Continues protobuf (message 0) index (codes "dive.log") locked log_file rows
      (message 0) (scan 5 ∷ scan 9 ∷ []) held
