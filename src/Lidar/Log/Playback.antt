-- ===== src/Lidar/Log/Playback.antt =====
-- src/reader.cpp: what was recorded is read back.
use arun_work.Base.{
  ℕ, ◌+◌, ◌<◌, ◌≤◌, ◌^◌, ◌≡◌, ◌∙◌, refl, ap, List, ◌++◌, get_elem?, get_elem?-lt, some, true, false,
  leb, length, Bytes, ok, err, arith, out_of_range, codes,
}
use arun_work.Base.Int.{ℤ}
use arun_work.Base.Words.{u64}
use arun_work.Base.Decimal.{decimal}
use arun_work.Lidar.Scan.{Scan, LidarScan}
use arun_work.Lidar.Replies.{IProtobuf}
use arun_work.Lidar.Log.{IIndex, find_seq}
use arun_work.Lidar.Log.Reader.{ScanReader, count, get, find_by_time_range, columns}
use arun_work.Lidar.Log.Indexed.{IsRecorded, largest_seq-IsRecorded}
use arun_work.Lidar.Log.Records.{
  scans_in_range, read_record-IsAt, read_rows-IsRecorded, find_seq-IsRecorded,
}

module _ {Float Db : Type 0} (protobuf : IProtobuf (LidarScan Float)) (fresh : LidarScan Float)
    (index : IIndex Db) where
  open index use {rows, IsReady, count_lem, by_seq_lem, by_stamp_lem}

  module _ (file : Bytes) (r : ScanReader Db) (scans : List (Scan Float)) (ready : IsReady r.db)
      (usable : r.failed ≡ false) (held : IsRecorded protobuf fresh file 1 (rows r.db) scans) where
    -- The time range query on a recording, asked of a ready index over a stream that has not failed:
    -- exactly the scans whose stamps lie in the range, both ends included, in recording order.
    pub find_by_time_range_lem :
        (from to : ℤ)
        → find_by_time_range protobuf index file r from to ≡ (ok (scans_in_range from to scans), r)
    unfolding find_by_time_range
    find_by_time_range_lem from to =
        rw (by_stamp_lem from to r.db ready, usable)
          (rw (read_rows-IsRecorded protobuf fresh file 1 (rows r.db) scans from to held) refl)

    rows_counted : length (rows r.db) ≡ length scans
    rows_counted = (largest_seq-IsRecorded protobuf fresh file 0 (rows r.db) scans held).0

    -- `count` is the number of the recorded scans, of which there are less than 2 ^ 64.
    pub count-scans : length scans < 2 ^ 64 → count protobuf index r ≡ ok (length scans)
    unfolding count
    count-scans few = rw (count_lem r.db ready, count) (rw (rows_counted, fits) refl)
      where
        fits : u64 (length scans) ≡ length scans
        fits = omega arith

    -- The scan at an index below the count comes back as it was recorded, and the reader is as before.
    -- The index is ready, the stream has not failed, and there are less than 2 ^ 64 scans.
    pub get-inside :
        (i : ℕ) (scan : Scan Float)
        → length scans < 2 ^ 64
        → get_elem? scans i ≡ some scan
        → get protobuf index file r i ≡ (ok scan, r)
    unfolding get columns
    get-inside i scan few g =
        let (row, found, at) =
          find_seq-IsRecorded protobuf fresh file 1 i (rows r.db) scans scan held g in
        rw (count-scans few, get)
          (rw (below, by_seq_lem (i + 1) r.db ready, get)
            (rw (ap (λ k. find_seq k (rows r.db)) one_more ∙ found, get)
              (rw (usable, read_record-IsAt protobuf fresh file row scan at) refl)))
      where
        one_more : i + 1 ≡ 1 + i
        one_more = omega arith

        below : leb (length scans) i ≡ false
        below = ground (arith, get_elem?-lt scans i scan g)

    -- At every other index `get` throws `std::out_of_range`, under the same conditions.
    pub get-outside :
        (i : ℕ)
        → length scans < 2 ^ 64
        → length scans ≤ i
        → get protobuf index file r i ≡ (
          err (out_of_range (codes "ScanReader::get: index " ++ decimal i ++ codes " >= count()")),
          r,
        )
    unfolding get
    get-outside i few h = rw (count-scans few, get) (rw (above, get) refl)
      where
        above : leb (length scans) i ≡ true
        above = ground arith
