-- ===== src/Programs/SampleData/Dumped.antt =====
-- apps/record_sample_data.cpp and apps/dump_scans.cpp: one program prints what the other recorded.
use arun_work.Base.{
  ℕ, ◌*◌, ◌<◌, ◌^◌, ◌/◌, ◌≡◌, refl, [], All, ◌∙◌, take-all, none, some, true, false, Bytes,
  Exception, Result, ok, arith,
}
use arun_work.Base.Int.{pos, ◌*ℤ◌, ◌/ℤ◌, leb_ℤ, ltb_ℤ}
use arun_work.Lidar.Scan.{LidarScan}
use arun_work.Lidar.Replies.{IProtobuf}
use arun_work.Lidar.Replies.Trip.{IsWireable}
use arun_work.Lidar.Log.{IIndex}
use arun_work.Lidar.Log.Recorder.{ScanRecorder}
use arun_work.Lidar.Log.Recording.{IsRecording}
use arun_work.Lidar.Log.Reader.{ScanReader}
use arun_work.Programs.DumpScans.{dump, first_scans, left_over, numbered, dump-numbered}
use arun_work.Programs.SampleData.{IFloat, record_samples, exited, sample_data}
use arun_work.Programs.SampleData.Kept.{
  samples, TakesAll, length-samples, record_samples-IsRecording, record_samples-returns,
}

pub pos-mul : (a b : ℕ) → pos a *ℤ pos b ≡ pos (a * b)
unfolding ◌*ℤ◌
pos-mul a b = ground arith

asked : (n : ℕ) → 0 < n → leb_ℤ (pos n) (pos 0) ≡ false
asked n h = ground arith

fits : (n : ℕ) → n < 2 ^ 31 → ltb_ℤ (pos 2_147_483_647) (pos n) ≡ false
fits n h = ground arith

module _ {Float Db : Type 0} (float : IFloat Float) (protobuf : IProtobuf (LidarScan Float))
    (fresh : LidarScan Float) (index : IIndex Db) where
  open index use {rows, insert, IsReady}

  module _ (r : ScanRecorder Float Db) (empty : IsRecording protobuf fresh index r [])
      (good : r.log.good ≡ true) where
    -- The recorder behind the loop, where the disk has room throughout.
    abbrev pub recorder_after : ℕ → ℕ → ScanRecorder Float Db
    recorder_after seconds rate_hz =
        (record_samples float protobuf index (λ i. none) (pos (1_000_000_000 / rate_hz)) 0
          (seconds * rate_hz) r).1

    -- All samples are recorded.
    all_samples :
        (t n : ℕ)
        → All (IsWireable protobuf fresh) (samples float protobuf fresh index (pos t) 0 n)
        → TakesAll float protobuf fresh index (pos t) 0 n r
        → IsRecording protobuf fresh index
            (record_samples float protobuf index (λ i. none) (pos t) 0 n r).1
            (samples float protobuf fresh index (pos t) 0 n)
    all_samples t n wireable takes =
        let (k, all, g) =
          record_samples-IsRecording float protobuf fresh index (pos t) (λ i. none) 0 n r []
            wireable empty in
        let whole =
          rw (record_samples-returns float protobuf fresh index (pos t) 0 n r takes good) at all in
        rw
          (take-all (samples float protobuf fresh index (pos t) 0 n) k
            (omega (arith, whole, length-samples float protobuf fresh index (pos t) 0 n)))
          at g

    runs :
        (open_recorder : Bytes → Bytes → Result Exception (ScanRecorder Float Db))
        (seconds rate_hz : ℕ) (log_path db_path : Bytes)
        → 0 < seconds
        → 0 < rate_hz
        → seconds * rate_hz < 2 ^ 31
        → open_recorder log_path db_path ≡ ok r
        → TakesAll float protobuf fresh index
            (pos (1_000_000_000 / rate_hz))
            0
            (seconds * rate_hz)
            r
        → sample_data float protobuf index open_recorder
            (λ i. none)
            (pos seconds)
            (pos rate_hz)
            log_path
            db_path
          ≡ (exited 0, some (recorder_after seconds rate_hz))
    unfolding sample_data ◌/ℤ◌
    runs open_recorder seconds rate_hz log_path db_path a b c opened takes =
        rw
          (
            asked seconds a,
            asked rate_hz b,
            pos-mul seconds rate_hz,
            fits (seconds * rate_hz) c,
            sample_data,
          )
          (rw (opened, pos-mul seconds rate_hz, sample_data)
            (rw
              (record_samples-returns float protobuf fresh index (pos (1_000_000_000 / rate_hz)) 0
                (seconds * rate_hz) r takes good)
              refl))

    -- The program that makes up scans, for so many seconds at such a rate, their product an `int`, on
    -- an empty recording, a disk with room and an index that takes the rows of these scans, each of
    -- which can be encoded; and then the program that prints a recording, on a ready index of these
    -- rows: the first exits with 0, and the second prints the scans made up, each as it was, in order
    -- and with its index, or the first so many if a maximum other than 0 is given, counts those left
    -- over, and exits with 0.
    pub dump-sample_data :
        (open_recorder : Bytes → Bytes → Result Exception (ScanRecorder Float Db))
        (seconds rate_hz max_scans : ℕ) (log_path db_path : Bytes) (reader : ScanReader Db)
        → 0 < seconds
        → 0 < rate_hz
        → seconds * rate_hz < 2 ^ 31
        → All (IsWireable protobuf fresh) (
            samples float protobuf fresh index
              (pos (1_000_000_000 / rate_hz))
              0
              (seconds * rate_hz))
        → TakesAll float protobuf fresh index
            (pos (1_000_000_000 / rate_hz))
            0
            (seconds * rate_hz)
            r
        → open_recorder log_path db_path ≡ ok r
        → IsReady reader.db
        → rows reader.db ≡ rows (recorder_after seconds rate_hz).db
        → reader.failed ≡ false
        → let n = seconds * rate_hz in
          let made = samples float protobuf fresh index (pos (1_000_000_000 / rate_hz)) 0 n in
          let r' = recorder_after seconds rate_hz in
          (sample_data float protobuf index open_recorder
              (λ i. none)
              (pos seconds)
              (pos rate_hz)
              log_path
              db_path
            ≡ (exited 0, some r'))
          × (dump protobuf index r'.log.file max_scans reader ≡ record {
            total = some n;
            lines = numbered 0 (first_scans max_scans made);
            not_shown = left_over max_scans made;
            status = some 0;
          })
    dump-sample_data open_recorder seconds rate_hz max_scans log_path db_path reader a b c wireable
          takes opened ready same usable =
        let n = seconds * rate_hz in
        let t = pos (1_000_000_000 / rate_hz) in
        let held = all_samples (1_000_000_000 / rate_hz) n wireable takes in
        let count = length-samples float protobuf fresh index t 0 n in
        (
          runs open_recorder seconds rate_hz log_path db_path a b c opened takes,
          dump-numbered protobuf fresh index (recorder_after seconds rate_hz).log.file reader
                (samples float protobuf fresh index t 0 n) ready usable (rw same held.held)
                (omega (arith, c, count)) max_scans
              ∙ rw count refl,
        )
