-- ===== src/Programs/SampleData/Kept.antt =====
-- apps/record_sample_data.cpp and apps/dump_scans.cpp: what is recorded, and what is read of it.
use arun_work.Base.{
  ℕ, zero, suc, All, ◌<◌, ◌≡◌, inl, inr, refl, ap, List, [], ◌∷◌, ◌++◌, append_assoc, append-nil,
  take, length, Option, none, some, Bool, true, false, Option-cases, Bytes, Exception, arith,
}
use arun_work.Base.Int.{ℤ, pos}
use arun_work.Lidar.Codec.{to_proto}
use arun_work.Lidar.Scan.{Scan, LidarScan}
use arun_work.Lidar.Replies.{IProtobuf}
use arun_work.Lidar.Replies.Trip.{IsWireable}
use arun_work.Lidar.Log.{IIndex}
use arun_work.Lidar.Log.Recorder.{
  ScanRecorder, record_scan, write, flush, write_length_prefix, end_offset,
}
use arun_work.Lidar.Log.Recording.{IsRecording, record_scan-IsRecording}
use arun_work.Programs.SampleData.{IFloat, sample_at, record_samples}

module _ {Float Db : Type 0} (float : IFloat Float) (protobuf : IProtobuf (LidarScan Float))
    (fresh : LidarScan Float) (index : IIndex Db) where
  open index use {insert}

  -- The scans of so many rounds, from scan `i` on.
  abbrev pub samples : ℤ → ℕ → ℕ → List (Scan Float)
  samples scan_time_ns i zero = []
  samples scan_time_ns i (suc n) =
      sample_at float protobuf index scan_time_ns i ∷ samples scan_time_ns (suc i) n

  pub length-samples : (scan_time_ns : ℤ) (i n : ℕ) → length (samples scan_time_ns i n) ≡ n
  length-samples scan_time_ns i zero = refl
  length-samples scan_time_ns i (suc n) = ap suc (length-samples scan_time_ns (suc i) n)

  -- All of so many rounds were recorded, or an exception came behind fewer.
  abbrev pub IsPrefix : Option Exception → (k n : ℕ) → Type 0
  IsPrefix none k n = k ≡ n
  IsPrefix (some e) k n = k < n

  IsPrefix-suc :
      (thrown : Option Exception) (k n : ℕ) → IsPrefix thrown k n → IsPrefix thrown (suc k) (suc n)
  IsPrefix-suc none k n h = ap suc h
  IsPrefix-suc (some e) k n h = omega (arith, h)

  module _ (room : ℕ → Option ℕ) (t : ℤ) (i n : ℕ) (r : ScanRecorder Float Db) where
    record_samples-throws :
        (e : Exception)
        → (record_scan protobuf index (room i) r (sample_at float protobuf index t i)).0 ≡ some e
        → record_samples float protobuf index room t i (suc n) r
          ≡ (some e, (record_scan protobuf index (room i) r (sample_at float protobuf index t i)).1)
    unfolding record_samples
    record_samples-throws e thrown = rw (thrown, record_samples) refl

    record_samples-goes_on :
        (record_scan protobuf index (room i) r (sample_at float protobuf index t i)).0 ≡ none
        → record_samples float protobuf index room t i (suc n) r
          ≡ record_samples float protobuf index room t
              (suc i)
              n
              (record_scan protobuf index (room i) r (sample_at float protobuf index t i)).1
    unfolding record_samples
    record_samples-goes_on went = rw (went, record_samples) refl

  module _ (t : ℤ) where
    -- Whatever the disk and the index do, if the scans can be encoded: the recording holds what it held before and then the first
    -- of the scans made up, in their order; all of them if the loop ends, and fewer if it throws.
    pub record_samples-IsRecording :
        (room : ℕ → Option ℕ) (i n : ℕ) (r : ScanRecorder Float Db) (scans : List (Scan Float))
        → All (IsWireable protobuf fresh) (samples t i n)
        → IsRecording protobuf fresh index r scans
        → let (thrown, r') = record_samples float protobuf index room t i n r in
          (k : ℕ) × IsPrefix thrown k n
          × IsRecording protobuf fresh index r' (scans ++ take k (samples t i n))
    record_samples-IsRecording room i zero r scans h g =
        unfold record_samples in (0, refl, rw (append-nil scans) g)
    record_samples-IsRecording room i (suc n) r scans h g =
        let scan = sample_at float protobuf index t i in
        let r' = (record_scan protobuf index (room i) r scan).1 in
        let one = record_scan-IsRecording protobuf fresh index (room i) r scan scans h.0 g in
        elim (Option-cases (record_scan protobuf index (room i) r scan).0) [
          | inr (e, thrown) ↦
              rw (record_samples-throws room t i n r e thrown)
                (0, omega arith, rw (append-nil scans) (rw thrown at one))
          | inl went ↦
              let (k, all, g') =
                record_samples-IsRecording room (suc i) n r' (scans ++ scan ∷ []) h.1
                  (rw went at one) in
              rw (record_samples-goes_on room t i n r went) (
                suc k,
                IsPrefix-suc _ k n all,
                rw (append_assoc scans (scan ∷ []) (take k (samples t (suc i) n))) at g',
              )
        ]

  -- The index takes the row of a scan that is recorded next, and of so many rounds on a disk with room.
  abbrev pub Takes : ScanRecorder Float Db → Scan Float → Type 0
  Takes r scan =
      (insert scan.stamp_ns (end_offset r.log)
        (pos (length (protobuf.serialize (to_proto scan r.wire)))) (pos (length scan.ranges))
        r.db).0
      ≡ none

  abbrev pub TakesAll : ℤ → ℕ → ℕ → ScanRecorder Float Db → Type 0
  TakesAll t i zero r = Unit {0}
  TakesAll t i (suc n) r =
      let scan = sample_at float protobuf index t i in
      Takes r scan × TakesAll t (suc i) n (record_scan protobuf index none r scan).1

  -- Where the disk has room and the index takes the row, a scan is recorded, and the log stays good.
  record_scan-returns :
      (r : ScanRecorder Float Db) (scan : Scan Float)
      → Takes r scan
      → r.log.good ≡ true
      → ((record_scan protobuf index none r scan).0 ≡ none)
        × ((record_scan protobuf index none r scan).1.log.good ≡ true)
  unfolding record_scan write flush write_length_prefix end_offset
  record_scan-returns r scan takes good = by_good r.log.file r.log.pending r.log.good good takes
    where
      by_good :
          (file pending : Bytes) (still : Bool)
          → still ≡ true
          → let s : ScanRecorder Float Db = record r {
            log = record { file = file; pending = pending; good = still };
          } in
            Takes s scan
            → ((record_scan protobuf index none s scan).0 ≡ none)
              × ((record_scan protobuf index none s scan).1.log.good ≡ true)
      by_good file pending true e taken = rw taken (refl, refl)
      by_good file pending false e taken = absurd (cc e)

  pub record_samples-returns :
      (scan_time_ns : ℤ) (i n : ℕ) (r : ScanRecorder Float Db)
      → TakesAll scan_time_ns i n r
      → r.log.good ≡ true
      → (record_samples float protobuf index (λ i. none) scan_time_ns i n r).0 ≡ none
  record_samples-returns t i zero r takes good = unfold record_samples in refl
  record_samples-returns t i (suc n) r takes good =
      let (went, still) = record_scan-returns r (sample_at float protobuf index t i) takes.0 good in
      rw (record_samples-goes_on (λ i. none) t i n r went)
        (record_samples-returns t (suc i) n _ takes.1 still)
