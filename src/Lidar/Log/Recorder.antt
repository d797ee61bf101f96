-- ===== src/Lidar/Log/Recorder.antt =====
-- src/recorder.cpp: a scan is appended to the log, and only then to the index.
use arun_work.Base.{
  ℕ, ◌+◌, List, [], ◌∷◌, ◌++◌, take, Option, none, some, Bool, false, not, length, Bytes, codes,
  Exception, runtime_error, if◌then◌else◌,
}
use arun_work.Base.Int.{ℤ, pos, negsuc}
use arun_work.Base.Words.{u32, u64}
use arun_work.Lidar.Scan.{Scan, LidarScan}
use arun_work.Lidar.Codec.{to_proto}
use arun_work.Lidar.Framing.{u32_le}
use arun_work.Lidar.Replies.{IProtobuf}
use arun_work.Lidar.Log.{IIndex}

-- `std::ofstream`: the file, what waits in the buffer, and `good()`.
pub record OutStream : Type 0 where
  pub file : Bytes
  pub pending : Bytes
  pub good : Bool

unfoldable pub write : Bytes → OutStream → OutStream
write bytes s = if s.good then record s { pending = s.pending ++ bytes } else s

-- The disk takes all that waits, or it takes only so many bytes of it and fails.
unfoldable pub flush : Option ℕ → OutStream → OutStream
flush room s =
    if s.good
    then elim room [
      | none ↦ record s { file = s.file ++ s.pending; pending = [] }
      | some n ↦ record { file = s.file ++ take n s.pending; pending = []; good = false }
    ]
    else s

-- The end of the file after `seekp(0, std::ios::end)`, and -1 on a failed stream.
unfoldable pub end_offset : OutStream → ℤ
end_offset s = if s.good then pos (length s.file + length s.pending) else negsuc 0

unfoldable pub write_length_prefix : ℕ → OutStream → OutStream
write_length_prefix size s = write (u32_le size) s

pub record ScanRecorder (Float Db : Type 0) : Type 0 where
  pub log : OutStream
  pub db : Db
  pub scan_count : ℕ
  pub wire : LidarScan Float

-- `check_sqlite`, for a call that failed with this message.
unfoldable pub sqlite_error : Bytes → Bytes → Exception
sqlite_error called message =
    runtime_error (codes "ScanRecorder: " ++ called ++ codes " failed: " ++ message)

module _ {Float Db : Type 0} (protobuf : IProtobuf (LidarScan Float)) (index : IIndex Db) where
  -- The member function `record`; `room` is what the disk does with this record.
  unfoldable pub record_scan :
      Option ℕ → ScanRecorder Float Db → Scan Float → Option Exception × ScanRecorder Float Db
  record_scan room r scan =
      let wire = to_proto scan r.wire in
      let bytes = protobuf.serialize wire in
      let offset = end_offset r.log in
      let log = flush room (write bytes (write_length_prefix (u32 (length bytes)) r.log)) in
      let (failed, db) =
        index.insert scan.stamp_ns offset (pos (length bytes)) (pos (length scan.ranges)) r.db in
      if not log.good
      then (
        some (runtime_error (codes "ScanRecorder: write to log failed")),
        record r { wire = wire; log = log },
      )
      else elim failed [
        | some message ↦ (
          some (sqlite_error (codes "sqlite3_step(INSERT)") message),
          record r { wire = wire; log = log; db = db },
        )
        | none ↦ (
          none,
          record r { wire = wire; log = log; db = db; scan_count = u64 (r.scan_count + 1) },
        )
      ]

  -- Scans recorded one after the other, each with what the disk does; an exception is caught, and the
  -- next scan is tried.
  unfoldable pub record_all :
      ScanRecorder Float Db → List (Option ℕ × Scan Float) → ScanRecorder Float Db
  record_all r [] = r
  record_all r ((room, scan) ∷ rest) = record_all (record_scan room r scan).1 rest
