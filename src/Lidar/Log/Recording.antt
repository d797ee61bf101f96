-- ===== src/Lidar/Log/Recording.antt =====
-- src/recorder.cpp: which scans a recording holds, whatever the disk and the index did.
use arun_work.Base.{
  ℕ, ◌+◌, ◌≡◌, sym, refl, ap, List, [], ◌∷◌, ◌++◌, append-nil, Option, none, some, Bool, true,
  false, length, Bytes, Exception, All, arith, Option-cases, inl, inr,
}
use arun_work.Base.Int.{pos}
use arun_work.Base.Words.{u32}
use arun_work.Lidar.Scan.{Scan, LidarScan}
use arun_work.Lidar.Codec.{to_proto, copy_floats}
use arun_work.Lidar.Framing.{u32_le}
use arun_work.Lidar.Replies.{IProtobuf}
use arun_work.Lidar.Replies.Trip.{payload, frame, IsWireable, size_word}
use arun_work.Lidar.Log.{IIndex}
use arun_work.Lidar.Log.Recorder.{
  write, flush, end_offset, write_length_prefix, ScanRecorder, record_scan, record_all,
}
use arun_work.Lidar.Log.Indexed.{
  IsRecorded, IsRecorded-grow, IsRecorded-append, largest_seq-IsRecorded,
}

-- The scans that count as recorded after one more was tried.
abbrev pub kept : {A : Type 0} → Option Exception → A → List A → List A
kept none scan scans = scans ++ scan ∷ []
kept (some e) scan scans = scans

-- The same for what may be a scan.
module _ {Float Db : Type 0} (protobuf : IProtobuf (LidarScan Float)) (index : IIndex Db) where
  abbrev pub entered :
      Option (Scan Float) → Option ℕ → ScanRecorder Float Db → List (Scan Float) → List (Scan Float)
  entered none room r scans = scans
  entered (some scan) room r scans = kept (record_scan protobuf index room r scan).0 scan scans

module _ {Float : Type 0} (protobuf : IProtobuf (LidarScan Float)) (fresh : LidarScan Float) where
  abbrev pub IfWireable : Option (Scan Float) → Type 0
  IfWireable none = Unit
  IfWireable (some scan) = IsWireable protobuf fresh scan

module _ {Float Db : Type 0} (protobuf : IProtobuf (LidarScan Float)) (fresh : LidarScan Float)
    (index : IIndex Db) where
  open index use {rows, insert, rows-insert, rows-insert_failed}

  -- Nothing waits in the log's buffer, and the recording holds these scans.
  pub record IsRecording (r : ScanRecorder Float Db) (scans : List (Scan Float)) : Type 0 where
    pub clean : r.log.pending ≡ []
    pub held : IsRecorded protobuf fresh r.log.file 1 (rows r.db) scans

  -- One call on a good stream whose buffer is empty, by what the disk and the index do.
  module _ (file : Bytes) (db : Db) (n : ℕ) (scan : Scan Float) (scans : List (Scan Float))
      (held : IsRecorded protobuf fresh file 1 (rows db) scans)
      (h : IsWireable protobuf fresh scan) where
    abbrev recorder : ScanRecorder Float Db
    recorder = record {
      log = record { file = file; pending = []; good = true };
      db = db;
      scan_count = n;
      wire = fresh;
    }

    one_more :
        (insert scan.stamp_ns
            (pos (length file + 0))
            (pos (length (payload protobuf fresh scan)))
            (pos (length scan.ranges))
            db).0
          ≡ none
        → IsRecorded protobuf fresh
            (file
              ++ (u32_le (u32 (length (payload protobuf fresh scan)))
                  ++ payload protobuf fresh scan))
            1
            (rows
              (insert scan.stamp_ns
                (pos (length file + 0))
                (pos (length (payload protobuf fresh scan)))
                (pos (length scan.ranges))
                db).1)
            (scans ++ scan ∷ [])
    one_more done =
        rw (rows-insert _ _ _ _ db done, size_word protobuf fresh scan h)
          (IsRecorded-append protobuf fresh _ 1 (rows db) scans _ scan
            (IsRecorded-grow protobuf fresh file _ 1 (rows db) scans held)
            (omega (arith, (largest_seq-IsRecorded protobuf fresh file 0 (rows db) scans held).1))
            (record {
              before = file;
              after = [];
              there = ap (◌++◌ file) (sym (append-nil (frame protobuf fresh scan)));
              offset = ap pos (omega arith);
              size = refl;
              stamp = refl;
              wireable = h;
            }))

    recorded_whole :
        IsRecording
          (record_scan protobuf index none recorder scan).1
          (kept (record_scan protobuf index none recorder scan).0 scan scans)
    unfolding record_scan write flush end_offset write_length_prefix
    recorded_whole =
        elim (Option-cases
          (insert scan.stamp_ns (pos (length file + 0)) (pos (length (payload protobuf fresh scan)))
            (pos (length scan.ranges)) db).0) [
              | inl done ↦ rw done (record { clean = refl; held = one_more done })
              | inr (message, failed) ↦ rw failed (record {
                clean = refl;
                held =
                    rw (rows-insert_failed _ _ _ _ db message failed)
                      (IsRecorded-grow protobuf fresh file _ 1 (rows db) scans held);
              })
            ]

    recorded_short :
        (k : ℕ)
        → IsRecording
            (record_scan protobuf index (some k) recorder scan).1
            (kept (record_scan protobuf index (some k) recorder scan).0 scan scans)
    unfolding record_scan write flush end_offset write_length_prefix
    recorded_short k = record {
      clean = refl;
      held = IsRecorded-grow protobuf fresh file _ 1 (rows db) scans held;
    }

    not_recorded :
        (room : Option ℕ)
        → let r : ScanRecorder Float Db = record {
          log = record { file = file; pending = []; good = false };
          db = db;
          scan_count = n;
          wire = fresh;
        } in
          IsRecording
            (record_scan protobuf index room r scan).1
            (kept (record_scan protobuf index room r scan).0 scan scans)
    unfolding record_scan write flush end_offset write_length_prefix
    not_recorded room = record { clean = refl; held = held }

  -- A call does not depend on what the reused message holds.
  record_scan-fresh :
      (room : Option ℕ) (r : ScanRecorder Float Db) (scan : Scan Float)
      → record_scan protobuf index room r scan
        ≡ record_scan protobuf index room (record r { wire = fresh }) scan
  unfolding record_scan to_proto copy_floats
  record_scan-fresh room r scan = refl

  -- Whatever the disk and the index do in one call: the scan joins the recording if the call returns,
  -- and the recording is as it was if the call throws.
  pub record_scan-IsRecording :
      (room : Option ℕ) (r : ScanRecorder Float Db) (scan : Scan Float) (scans : List (Scan Float))
      → IsWireable protobuf fresh scan
      → IsRecording r scans
      → let (thrown, r') = record_scan protobuf index room r scan in
        IsRecording r' (kept thrown scan scans)
  record_scan-IsRecording room r scan scans h g =
      rw (record_scan-fresh room r scan)
        (by_stream room r.log.file r.log.pending r.log.good g.clean g.held)
    where
      by_stream :
          (room : Option ℕ) (file pending : Bytes) (good : Bool)
          → pending ≡ []
          → IsRecorded protobuf fresh file 1 (rows r.db) scans
          → let (thrown, r') =
              record_scan protobuf index room
                (record r {
                  log = record { file = file; pending = pending; good = good };
                  wire = fresh;
                })
                scan in
            IsRecording r' (kept thrown scan scans)
      by_stream none file pending true e held =
          rw e (recorded_whole file r.db r.scan_count scan scans held h)
      by_stream (some k) file pending true e held =
          rw e (recorded_short file r.db r.scan_count scan scans held h k)
      by_stream room file pending false e held =
          rw e (not_recorded file r.db r.scan_count scan scans held h room)

  -- The scans of those calls that return.
  abbrev pub recorded :
      ScanRecorder Float Db → List (Option ℕ × Scan Float) → List (Scan Float) → List (Scan Float)
  recorded r [] scans = scans
  recorded r ((room, scan) ∷ rest) scans =
      let (thrown, r') = record_scan protobuf index room r scan in
      recorded r' rest (kept thrown scan scans)

  -- Over any calls, with any faults of the disk and the index between them: the recording holds what
  -- it held before and then exactly the scans of the calls that returned, in their order, under the
  -- keys 1, 2, 3 and so on without a gap. The message format can carry the scan of each call.
  pub record_all-IsRecording :
      (r : ScanRecorder Float Db) (calls : List (Option ℕ × Scan Float)) (scans : List (Scan Float))
      → All (λ c. IsWireable protobuf fresh c.1) calls
      → IsRecording r scans
      → IsRecording (record_all protobuf index r calls) (recorded r calls scans)
  unfolding record_all
  record_all-IsRecording r [] scans h g = g
  record_all-IsRecording r ((room, scan) ∷ rest) scans h g =
      record_all-IsRecording (record_scan protobuf index room r scan).1 rest _ h.1
        (record_scan-IsRecording room r scan scans h.0 g)
