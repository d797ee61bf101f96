-- ===== src/Lidar/Log/Indexed.antt =====
-- src/recorder.cpp: what it is that the index describes the log.
use arun_work.Base.{
  ℕ, suc, ◌+◌, ◌≡◌, ◌∙◌, refl, ap, max, List, [], ◌∷◌, ◌++◌, append_assoc, length, Bytes, arith,
}
use arun_work.Base.Int.{pos}
use arun_work.Lidar.Scan.{Scan, LidarScan}
use arun_work.Lidar.Replies.{IProtobuf}
use arun_work.Lidar.Replies.Trip.{payload, frame, IsWireable}
use arun_work.Lidar.Log.{Row, largest_seq}

module _ {Float : Type 0} (protobuf : IProtobuf (LidarScan Float)) (fresh : LidarScan Float) where
  -- The row tells where in the file the scan's frame stands.
  pub record IsAt (file : Bytes) (row : Row) (scan : Scan Float) : Type 0 where
    pub before : Bytes
    pub after : Bytes
    pub there : file ≡ before ++ (frame protobuf fresh scan ++ after)
    pub offset : row.offset ≡ pos (length before)
    pub size : row.length ≡ pos (length (payload protobuf fresh scan))
    pub stamp : row.stamp_ns ≡ scan.stamp_ns
    pub wireable : IsWireable protobuf fresh scan

  -- The rows, numbered from `seq`, are those of the scans, in the same order.
  abbrev pub IsRecorded : Bytes → ℕ → List Row → List (Scan Float) → Type 0
  IsRecorded file seq [] [] = Unit {0}
  IsRecorded file seq (row ∷ rows) (scan ∷ scans) =
      (row.seq ≡ seq) × IsAt file row scan × IsRecorded file (suc seq) rows scans
  IsRecorded _ _ _ _ = ⊥

  IsAt-grow :
      (file more : Bytes) (row : Row) (scan : Scan Float)
      → IsAt file row scan
      → IsAt (file ++ more) row scan
  IsAt-grow file more row scan h = record {
    before = h.before;
    after = h.after ++ more;
    there =
        ap (λ f. f ++ more) h.there
        ∙ append_assoc h.before (frame protobuf fresh scan ++ h.after) more
        ∙ ap (◌++◌ h.before) (append_assoc (frame protobuf fresh scan) h.after more);
    offset = h.offset;
    size = h.size;
    stamp = h.stamp;
    wireable = h.wireable;
  }

  pub IsRecorded-grow :
      (file more : Bytes) (seq : ℕ) (rows : List Row) (scans : List (Scan Float))
      → IsRecorded file seq rows scans
      → IsRecorded (file ++ more) seq rows scans
  IsRecorded-grow file more seq [] [] h = tt
  IsRecorded-grow file more seq (row ∷ rows) (scan ∷ scans) (e, at, h) =
      (e, IsAt-grow file more row scan at, IsRecorded-grow file more (suc seq) rows scans h)
  IsRecorded-grow file more seq [] (_ ∷ _) h = absurd h
  IsRecorded-grow file more seq (_ ∷ _) [] h = absurd h

  pub IsRecorded-append :
      (file : Bytes) (seq : ℕ) (rows : List Row) (scans : List (Scan Float)) (row : Row)
      (scan : Scan Float)
      → IsRecorded file seq rows scans
      → row.seq ≡ seq + length rows
      → IsAt file row scan
      → IsRecorded file seq (rows ++ row ∷ []) (scans ++ scan ∷ [])
  IsRecorded-append file seq [] [] row scan h e at = (omega (arith, e), at, tt)
  IsRecorded-append file seq (r ∷ rows) (s ∷ scans) row scan (q, here, h) e at =
      (q, here, IsRecorded-append file (suc seq) rows scans row scan h (omega (arith, e)) at)
  IsRecorded-append file seq [] (_ ∷ _) row scan h e at = absurd h
  IsRecorded-append file seq (_ ∷ _) [] row scan h e at = absurd h

  -- With the keys contiguous, the largest is the number of the rows.
  pub largest_seq-IsRecorded :
      (file : Bytes) (seq : ℕ) (rows : List Row) (scans : List (Scan Float))
      → IsRecorded file (suc seq) rows scans
      → (length rows ≡ length scans) × (max seq (largest_seq rows) ≡ seq + length rows)
  largest_seq-IsRecorded file seq [] [] h = (refl, omega arith)
  largest_seq-IsRecorded file seq (row ∷ rows) (scan ∷ scans) (e, at, h) =
      let (p, q) = largest_seq-IsRecorded file (suc seq) rows scans h in
      (omega (arith, p), omega (arith, q, e))
  largest_seq-IsRecorded file seq [] (_ ∷ _) h = absurd h
  largest_seq-IsRecorded file seq (_ ∷ _) [] h = absurd h
