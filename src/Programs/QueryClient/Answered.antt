-- ===== src/Programs/QueryClient/Answered.antt =====
-- apps/scan_query_client_demo.cpp: what it prints when a server over a recording answers.
use arun_work.Base.{
  ℕ, ◌<◌, ◌^◌, ◌≡◌, refl, List, ◌∷◌, length, Option, none, some, true, false, Bytes, codes,
}
use arun_work.Base.Int.{ℤ}
use arun_work.Base.Words.{IsI64}
use arun_work.Lidar.Scan.{Scan, LidarScan}
use arun_work.Lidar.Replies.{IProtobuf}
use arun_work.Lidar.Log.{IIndex}
use arun_work.Lidar.Log.Indexed.{IsRecorded}
use arun_work.Lidar.Log.Records.{scans_in_range}
use arun_work.Lidar.Query.{ScanQueryServer, same_text}
use arun_work.Lidar.Query.Windows.{newest}
use arun_work.Lidar.Query.Answers.{asked, range-handle, latest-handle}
use arun_work.Programs.QueryClient.{
  Reply, nothing_recorded, the_latest, in_range, reply_status, latest_reply, other_command, query,
}

module _ {Float Db : Type 0} (protobuf : IProtobuf (LidarScan Float)) (fresh : LidarScan Float)
    (index : IIndex Db) where
  open index use {rows, IsReady}

  abbrev pub reply_of : Option (Scan Float) → Reply Float
  reply_of none = nothing_recorded
  reply_of (some scan) = the_latest scan

  -- A server over a recording of less than 2 ^ 32 scans: `range` with two 64-bit numbers prints the
  -- recorded scans between them, `latest` the scan recorded last or that there is none, and both end
  -- with 0.
  pub query-answered :
      (atoll : Bytes → ℤ) (file endpoint start end : Bytes) (rest : List Bytes)
      (s : ScanQueryServer Db) (scans : List (Scan Float))
      → IsReady s.reader.db
      → s.reader.failed ≡ false
      → IsRecorded protobuf fresh file 1 (rows s.reader.db) scans
      → length scans < 2 ^ 32
      → IsI64 (atoll start)
      → IsI64 (atoll end)
      → let ranged =
          query protobuf
            (asked protobuf fresh index file s)
            atoll
            (endpoint ∷ codes "range" ∷ start ∷ end ∷ rest) in
        let last =
          query protobuf
            (asked protobuf fresh index file s)
            atoll
            (endpoint ∷ codes "latest" ∷ rest) in
        (ranged ≡ in_range (scans_in_range (atoll start) (atoll end) scans))
        × (last ≡ reply_of (newest scans))
        × ◌≡◌ {A = ℕ} (reply_status ranged) 0
        × ◌≡◌ {A = ℕ} (reply_status last) 0
  unfolding query other_command same_text
  query-answered atoll file endpoint start end rest s scans ready usable held few a b =
      let found =
        range-handle protobuf fresh index file s scans ready usable held few (atoll start)
          (atoll end) a b in
      let last = latest-handle protobuf fresh index file s scans ready usable held few in
      rw (found, last)
        (refl, by_newest (newest scans), unfold reply_status in refl, ends (newest scans))
    where
      by_newest :
          (o : Option (Scan Float))
          → latest_reply protobuf (asked protobuf fresh index file s) atoll (o, true) ≡ reply_of o
      by_newest none = refl
      by_newest (some scan) = refl

      ends :
          (o : Option (Scan Float))
          → ◌≡◌ {A = ℕ}
              (reply_status
                (latest_reply protobuf (asked protobuf fresh index file s) atoll (o, true)))
              0
      ends none = unfold reply_status in refl
      ends (some scan) = unfold reply_status in refl
