-- ===== src/Service/Ledger.antt =====
-- apps/scan_publisher_recorder_main.cpp: what the log and the index hold of the scans that the sensor
-- gave, and what was published of them.
use arun_work.Base.{
  ℕ, suc, ◌+◌, ◌≤◌, ◌≡◌, refl, ap, List, [], ◌∷◌, ◌++◌, Option, none, some, Bool, true, false, ◌||◌,
  length, length-append, All, Exception, arith, Option-cases, inl, inr, if◌then◌else◌,
}
use arun_work.Base.Words.{u64}
use arun_work.Transport.{IZmq}
use arun_work.Lidar.Scan.{Scan, LidarScan}
use arun_work.Lidar.Replies.{IProtobuf}
use arun_work.Lidar.Replies.Trip.{IsWireable}
use arun_work.Lidar.Log.{IIndex}
use arun_work.Lidar.Log.Recorder.{record_scan}
use arun_work.Lidar.Log.Recording.{IsRecording, IfWireable, kept, entered, record_scan-IsRecording}
use arun_work.Lidar.Feed.{publish_scan}
use arun_work.Service.{
  Service, Answer, polling, reconnecting, finished, aborted, failed, time_out, reconnect,
  handle_scan, iterate, run,
}

module _ {Float Db Sock : Type 0} (protobuf : IProtobuf (LidarScan Float)) (fresh : LidarScan Float)
    (index : IIndex Db) (zmq : IZmq Sock) where
  -- The scan that an iteration takes from the sensor.
  abbrev pub polled_scan : Answer Float → Service Float Db Sock → Option (Scan Float)
  polled_scan a s = elim s.phase [
    | polling ↦ if s.stop_requested || a.sigint then none else a.scan
    | reconnecting ↦ none
    | finished ↦ none
    | aborted ↦ none
    | failed e ↦ none
  ]

  -- The scans that count as recorded behind an iteration, and behind a run: those whose record did not
  -- throw.
  abbrev pub ledger : Answer Float → Service Float Db Sock → List (Scan Float) → List (Scan Float)
  ledger a s scans = entered protobuf index (polled_scan a s) a.room s.recorder scans

  abbrev pub run_ledger :
      List (Answer Float) → Service Float Db Sock → List (Scan Float) → List (Scan Float)
  run_ledger [] s scans = scans
  run_ledger (a ∷ rest) s scans =
      run_ledger rest (iterate protobuf index zmq a s) (ledger a s scans)

  -- The recording holds these scans; `recorded` has counted those behind the first `old`, from
  -- `recorded0` on, and `published` some of them, from `published0` on.
  abbrev IsLedger : ℕ → ℕ → ℕ → Service Float Db Sock → List (Scan Float) → Type 0
  IsLedger old recorded0 published0 s scans =
      IsRecording protobuf fresh index s.recorder scans
      × (u64 (s.recorded + old) ≡ u64 (recorded0 + length scans))
      × ((k : ℕ) × (k + old ≤ length scans) × (u64 s.published ≡ u64 (published0 + k)))

  untouched :
      (a : Answer Float) (s : Service Float Db Sock)
      → polled_scan a s ≡ none
      → let t = iterate protobuf index zmq a s in
        (t.recorder ≡ s.recorder) × (t.recorded ≡ s.recorded) × (t.published ≡ s.published)
  unfolding iterate time_out reconnect
  untouched a s e = ground (arith, e)

  abbrev recorded_after : Option Exception → Service Float Db Sock → ℕ
  recorded_after none s = u64 (s.recorded + 1)
  recorded_after (some e) s = s.recorded

  abbrev published_after : Option Exception → Bool → Service Float Db Sock → ℕ
  published_after none sent s = if sent then u64 (s.published + 1) else s.published
  published_after (some e) sent s = s.published

  touched :
      (a : Answer Float) (s : Service Float Db Sock) (scan : Scan Float)
      → polled_scan a s ≡ some scan
      → let t = iterate protobuf index zmq a s in
        let (thrown, recorder) = record_scan protobuf index a.room s.recorder scan in
        (t.recorder ≡ recorder)
        × (t.recorded ≡ recorded_after thrown s)
        × (t.published ≡ published_after thrown (publish_scan zmq protobuf scan s.publisher).0 s)
  unfolding iterate handle_scan
  touched a s scan e = ground (arith, e)

  module _ (old recorded0 published0 : ℕ) where
    same-IsLedger :
        (s t : Service Float Db Sock) (scans : List (Scan Float))
        → (t.recorder ≡ s.recorder) × (t.recorded ≡ s.recorded) × (t.published ≡ s.published)
        → IsLedger old recorded0 published0 s scans
        → IsLedger old recorded0 published0 t scans
    same-IsLedger s t scans (recorder, recorded, published) h = rw (recorder, recorded, published) h

    more-IsLedger :
        (s t : Service Float Db Sock) (scans : List (Scan Float)) (scan : Scan Float)
        (thrown : Option Exception) (sent : Bool)
        → (t.recorded ≡ recorded_after thrown s) × (t.published ≡ published_after thrown sent s)
        → IsRecording protobuf fresh index t.recorder (kept thrown scan scans)
        → IsLedger old recorded0 published0 s scans
        → IsLedger old recorded0 published0 t (kept thrown scan scans)
    more-IsLedger s t scans scan none sent (recorded, published) now (_, count, (k, le, sends)) =
        (now, omega (arith, recorded, count, grown), by_sent sent published)
      where
        grown : length (scans ++ scan ∷ []) ≡ length scans + 1
        grown = length-append scans (scan ∷ [])

        by_sent :
            (sent : Bool)
            → t.published ≡ published_after none sent s
            → (i : ℕ) × (i + old ≤ length (scans ++ scan ∷ []))
              × (u64 t.published ≡ u64 (published0 + i))
        by_sent true e = (suc k, omega (arith, le, grown), omega (arith, e, sends))
        by_sent false e = (k, omega (arith, le, grown), omega (arith, e, sends))
    more-IsLedger s t scans scan (some e) sent (recorded, published) now (_, count, sends) =
        (now, rw recorded count, rw published sends)

    polled_scan-scan :
        (a : Answer Float) (s : Service Float Db Sock) (scan : Scan Float)
        → polled_scan a s ≡ some scan
        → a.scan ≡ some scan
    polled_scan-scan a s scan e = ground (arith, e)

    iterate-IsLedger :
        (a : Answer Float) (s : Service Float Db Sock) (scans : List (Scan Float))
        → IfWireable protobuf fresh a.scan
        → IsLedger old recorded0 published0 s scans
        → IsLedger old recorded0 published0 (iterate protobuf index zmq a s) (ledger a s scans)
    iterate-IsLedger a s scans h g = elim (Option-cases (polled_scan a s)) [
      | inl e ↦
          rw (ap (λ o. entered protobuf index o a.room s.recorder scans) e)
            (same-IsLedger s (iterate protobuf index zmq a s) scans (untouched a s e) g)
      | inr (scan, e) ↦
          let (recorder, recorded, published) = touched a s scan e in
          let wireable : IsWireable protobuf fresh scan = rw (polled_scan-scan a s scan e) at h in
          rw (ap (λ o. entered protobuf index o a.room s.recorder scans) e) (
            more-IsLedger s (iterate protobuf index zmq a s) scans scan _ _ (recorded, published)
              (rw recorder (
                record_scan-IsRecording protobuf fresh index a.room s.recorder scan scans wireable
                  g.0))
              g)
    ]

    run-IsLedger :
        (answers : List (Answer Float)) (s : Service Float Db Sock) (scans : List (Scan Float))
        → All (λ a. IfWireable protobuf fresh a.scan) answers
        → IsLedger old recorded0 published0 s scans
        → IsLedger old recorded0 published0
            (run protobuf index zmq answers s)
            (run_ledger answers s scans)
    unfolding run
    run-IsLedger [] s scans h g = g
    run-IsLedger (a ∷ rest) s scans (h, others) g =
        run-IsLedger rest (iterate protobuf index zmq a s) (ledger a s scans) others
          (iterate-IsLedger a s scans h g)

  -- Over any run, whatever the sensor, the disk, the index, the subscribers and Ctrl+C do: the
  -- recording holds the scans that it held before and then exactly those that a poll returned and
  -- whose record did not throw, in their order; `recorded` has grown by the number of these, modulo
  -- 2 ^ 64, and `published` by at most as many. The scans that the sensor gives can be encoded.
  pub run-IsRecording :
      (answers : List (Answer Float)) (s : Service Float Db Sock) (scans : List (Scan Float))
      → All (λ a. IfWireable protobuf fresh a.scan) answers
      → IsRecording protobuf fresh index s.recorder scans
      → let t = run protobuf index zmq answers s in
        let after = run_ledger answers s scans in
        IsRecording protobuf fresh index t.recorder after
        × (u64 (t.recorded + length scans) ≡ u64 (s.recorded + length after))
        × ((k : ℕ) × (k + length scans ≤ length after) × (u64 t.published ≡ u64 (s.published + k)))
  run-IsRecording answers s scans h g =
      run-IsLedger (length scans) s.recorded s.published answers s scans h
        (g, refl, (0, omega arith, ap u64 (omega arith)))
