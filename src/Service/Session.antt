-- ===== src/Service/Session.antt =====
-- apps/record_live_scans.cpp: recording for so many seconds. The clock, the source and the disk are
-- the environment, and what the program prints is left out.
use arun_work.Base.{
  ℕ, ◌+◌, ◌≡◌, ap, List, [], ◌∷◌, Option, none, some, true, false, ◌==◌, Exception, what, All,
  arith, Option-cases, inl, inr, if◌then◌else◌,
}
use arun_work.Base.Int.{ℤ, pos, ltb_ℤ, leb_ℤ, ◌+ℤ◌, ◌*ℤ◌}
use arun_work.Base.Words.{u64}
use arun_work.Lidar.Scan.{Scan, LidarScan}
use arun_work.Lidar.Replies.{IProtobuf}
use arun_work.Lidar.Log.{IIndex}
use arun_work.Lidar.Log.Recorder.{ScanRecorder, record_scan}
use arun_work.Lidar.Log.Recording.{IsRecording, IfWireable, entered, record_scan-IsRecording}

pub data Stage : Type 0 where
  recording done : Stage
  failed : Exception → Stage

pub record Session (Float Db : Type 0) : Type 0 where
  pub stage : Stage
  pub recorder : ScanRecorder Float Db
  pub recorded : ℕ
  pub timeouts : ℕ

-- The time at the loop's test, in nanoseconds, what the poll returns, and what the disk does.
pub record Round (Float : Type 0) : Type 0 where
  pub now_ns : ℤ
  pub scan : Option (Scan Float)
  pub room : Option ℕ

unfoldable pub deadline_of : ℤ → ℤ → ℤ
deadline_of started_ns seconds = started_ns +ℤ seconds *ℤ pos 1_000_000_000

module _ {Float Db : Type 0} (protobuf : IProtobuf (LidarScan Float)) (index : IIndex Db) where
  unfoldable pub take_scan : Option ℕ → Scan Float → Session Float Db → Session Float Db
  take_scan room scan s =
      let (thrown, recorder) = record_scan protobuf index room s.recorder scan in
      elim thrown [
        | some e ↦ record s { recorder = recorder; stage = failed e }
        | none ↦ record s { recorder = recorder; recorded = u64 (s.recorded + 1) }
      ]

  -- One iteration of the loop, with its test.
  unfoldable pub round : ℤ → Round Float → Session Float Db → Session Float Db
  round deadline_ns r s = elim s.stage [
    | done ↦ s
    | failed e ↦ s
    | recording ↦ elim (ltb_ℤ r.now_ns deadline_ns) [
      | false ↦ record s { stage = done }
      | true ↦ elim r.scan [
        | none ↦ record s { timeouts = u64 (s.timeouts + 1) }
        | some scan ↦ take_scan r.room scan s
      ]
    ]
  ]

  unfoldable pub rounds : ℤ → List (Round Float) → Session Float Db → Session Float Db
  rounds deadline_ns [] s = s
  rounds deadline_ns (r ∷ rest) s = rounds deadline_ns rest (round deadline_ns r s)

  -- The exit status, for a session on an open recorder and a connected source.
  unfoldable pub session_status : Session Float Db → Option ℕ
  session_status s = elim s.stage [
    | recording ↦ none
    | done ↦ if s.recorded == 0 then some 1 else some 0
    | failed e ↦ elim (what e) [ none ↦ none | some message ↦ some 1 ]
  ]

  unfoldable pub record_live : ℤ → ℤ → ScanRecorder Float Db → List (Round Float) → Option ℕ
  record_live started_ns seconds recorder answers =
      if leb_ℤ seconds (pos 0)
      then some 1
      else session_status (
          rounds (deadline_of started_ns seconds) answers
            (record { stage = recording; recorder = recorder; recorded = 0; timeouts = 0 }))

  -- The scan that a round takes from the source.
  abbrev pub polled : ℤ → Round Float → Session Float Db → Option (Scan Float)
  polled deadline_ns r s = elim s.stage [
    | done ↦ none
    | failed e ↦ none
    | recording ↦ if ltb_ℤ r.now_ns deadline_ns then r.scan else none
  ]

  -- The scans that count as recorded behind a run.
  abbrev pub session_ledger :
      ℤ → List (Round Float) → Session Float Db → List (Scan Float) → List (Scan Float)
  session_ledger deadline_ns [] s scans = scans
  session_ledger deadline_ns (r ∷ rest) s scans =
      session_ledger deadline_ns rest (round deadline_ns r s)
        (entered protobuf index (polled deadline_ns r s) r.room s.recorder scans)

  untouched :
      (deadline_ns : ℤ) (r : Round Float) (s : Session Float Db)
      → polled deadline_ns r s ≡ none
      → (round deadline_ns r s).recorder ≡ s.recorder
  unfolding round
  untouched deadline_ns r s e = ground (arith, e)

  touched :
      (deadline_ns : ℤ) (r : Round Float) (s : Session Float Db) (scan : Scan Float)
      → polled deadline_ns r s ≡ some scan
      → ((round deadline_ns r s).recorder ≡ (record_scan protobuf index r.room s.recorder scan).1)
        × (r.scan ≡ some scan)
  unfolding round take_scan
  touched deadline_ns r s scan e = ground (arith, e)

  -- Whatever the clock, the source, the disk and the index do: the recording holds the scans that it
  -- held before and then exactly those that a poll before the deadline returned and whose record did
  -- not throw, in their order. The scans that the source gives can be encoded.
  pub rounds-IsRecording :
      (fresh : LidarScan Float) (deadline_ns : ℤ) (answers : List (Round Float))
      (s : Session Float Db) (scans : List (Scan Float))
      → All (λ r. IfWireable protobuf fresh r.scan) answers
      → IsRecording protobuf fresh index s.recorder scans
      → IsRecording protobuf fresh index
          (rounds deadline_ns answers s).recorder
          (session_ledger deadline_ns answers s scans)
  unfolding rounds
  rounds-IsRecording fresh deadline_ns [] s scans h g = g
  rounds-IsRecording fresh deadline_ns (r ∷ rest) s scans (h, others) g =
      rounds-IsRecording fresh deadline_ns rest (round deadline_ns r s) _ others one
    where
      one :
          IsRecording protobuf fresh index
            (round deadline_ns r s).recorder
            (entered protobuf index (polled deadline_ns r s) r.room s.recorder scans)
      one = elim (Option-cases (polled deadline_ns r s)) [
        | inl e ↦
            rw (ap (λ o. entered protobuf index o r.room s.recorder scans) e)
              (rw (untouched deadline_ns r s e) g)
        | inr (scan, e) ↦
            let (recorder, same) = touched deadline_ns r s scan e in
            rw (ap (λ o. entered protobuf index o r.room s.recorder scans) e) (
              rw recorder (
                record_scan-IsRecording protobuf fresh index r.room s.recorder scan scans
                  (rw same at h) g))
      ]
