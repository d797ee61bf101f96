-- ===== src/Lidar/Query/Answers.antt =====
-- src/query_server.cpp and src/query_client.cpp: the client gets what the server's recording holds.
use arun_work.Base.{
  ℕ, suc, ◌<◌, ◌≤◌, ◌^◌, ◌≡◌, ◌∙◌, sym, refl, ap, List, [], ◌∷◌, append-nil, length, All, Option,
  none, some, true, false, Bytes, codes, Exception, Result, ok, ◌>>=◌, arith,
}
use arun_work.Base.Int.{ℤ, ◌-ℤ◌}
use arun_work.Base.Words.{IsI64, is_i64}
use arun_work.Lidar.Scan.{Scan, LidarScan}
use arun_work.Lidar.Replies.{IProtobuf, encode_scans, decode_scans}
use arun_work.Lidar.Replies.Trip.{IsWireable, decode_scans-encode_scans}
use arun_work.Lidar.Log.{IIndex, Row}
use arun_work.Lidar.Log.Reader.{ScanReader}
use arun_work.Lidar.Log.Indexed.{IsRecorded}
use arun_work.Lidar.Log.Records.{scans_in_range}
use arun_work.Lidar.Log.Playback.{find_by_time_range_lem, count-scans, get-inside}
use arun_work.Lidar.Query.{
  ScanQueryServer, latest_scans, recent_scans, find_scans, handle, scans_of, first_of, range,
  recent, latest, same_text,
}
use arun_work.Lidar.Query.Requests.{
  range_request, recent_request, parse_range-request, parse_recent-request, range_request-other,
}
use arun_work.Lidar.Query.Windows.{
  IsWindow, newest, newest-get_elem?, single, newest_only, before_last, scans_in_window,
  length-scans_in_range, All-newest_only, length-newest_only, All-scans_in_range,
}

i64-fits : (a : ℤ) → IsI64 a → is_i64 a ≡ true
i64-fits a h = ground (arith, h)

module _ {Float Db : Type 0} (protobuf : IProtobuf (LidarScan Float)) (fresh : LidarScan Float)
    (index : IIndex Db) where
  open index use {rows, IsReady}

  IsRecorded-IsWireable :
      (file : Bytes) (seq : ℕ) (rs : List Row) (scans : List (Scan Float))
      → IsRecorded protobuf fresh file seq rs scans
      → All (IsWireable protobuf fresh) scans
  IsRecorded-IsWireable file seq [] [] h = tt
  IsRecorded-IsWireable file seq (r ∷ rs) (s ∷ scans) (e, at, h) =
      (at.wireable, IsRecorded-IsWireable file (suc seq) rs scans h)
  IsRecorded-IsWireable file seq [] (_ ∷ _) h = absurd h
  IsRecorded-IsWireable file seq (_ ∷ _) [] h = absurd h

  -- What the client makes of the bytes that the server's `handle` returns, if they arrive.
  abbrev pub asked : Bytes → ScanQueryServer Db → Bytes → Result Exception (Option Bytes)
  asked file s command = (handle protobuf fresh index file s command).0 >>= λ reply. ok (some reply)

  answered :
      (file : Bytes) (s : ScanQueryServer Db) (command : Bytes) (scans : List (Scan Float))
      → (find_scans protobuf index file s.reader command).0 ≡ ok scans
      → All (IsWireable protobuf fresh) scans
      → length scans < 2 ^ 32
      → scans_of protobuf (asked file s command) ≡ (scans, true)
  unfolding handle scans_of
  answered file s command scans found h few =
      rw (found, handle)
        (rw
          (
            ap (decode_scans protobuf) (sym (append-nil (encode_scans protobuf fresh scans)))
                ∙ decode_scans-encode_scans protobuf fresh scans [] h few,
            scans_of,
          )
          refl)

  module _ (file : Bytes) (r : ScanReader Db) (ready : IsReady r.db)
      (usable : r.failed ≡ false) where
    pub latest_scans_lem :
        (scans : List (Scan Float))
        → IsRecorded protobuf fresh file 1 (rows r.db) scans
        → length scans < 2 ^ 32
        → latest_scans protobuf index file r ≡ (ok (newest_only scans), r)
    unfolding latest_scans
    latest_scans_lem [] held few =
        rw
          (count-scans protobuf fresh index file r [] ready usable held (omega arith), latest_scans)
          refl
    latest_scans_lem (scan ∷ scans) held few =
        let (last, e, at_end) = newest-get_elem? scan scans in
        rw
          (
            count-scans protobuf fresh index file r (scan ∷ scans) ready usable held (omega arith),
            latest_scans,
          )
          (rw
            (get-inside protobuf fresh index file r (scan ∷ scans) ready usable held (length scans)
              last (omega arith) at_end)
            (ap (λ o. (ok (single o), r)) (sym e)))

    pub recent_scans_lem :
        (scans : List (Scan Float)) (window : ℤ)
        → IsWindow window (newest scans)
        → IsRecorded protobuf fresh file 1 (rows r.db) scans
        → length scans < 2 ^ 32
        → recent_scans protobuf index file r window ≡ (ok (scans_in_window window scans), r)
    unfolding recent_scans
    recent_scans_lem [] window fits held few =
        rw
          (count-scans protobuf fresh index file r [] ready usable held (omega arith), recent_scans)
          refl
    recent_scans_lem (scan ∷ scans) window fits held few =
        let (last, e, at_end) = newest-get_elem? scan scans in
        let read =
          get-inside protobuf fresh index file r (scan ∷ scans) ready usable held (length scans)
            last (omega arith) at_end in
        let inside = i64-fits (last.stamp_ns -ℤ window) (rw e at fits) in
        rw
          (
            count-scans protobuf fresh index file r (scan ∷ scans) ready usable held (omega arith),
            recent_scans,
          )
          (rw (read, inside, recent_scans)
            (rw
              (
                ap (λ p. p.1) read,
                find_by_time_range_lem protobuf fresh index file r (scan ∷ scans) ready usable held
                    (last.stamp_ns -ℤ window) last.stamp_ns,
              )
              (ap (λ o. (ok (before_last window (scan ∷ scans) o), r)) (sym e))))

  module _ (file : Bytes) (s : ScanQueryServer Db) (scans : List (Scan Float))
      (ready : IsReady s.reader.db) (usable : s.reader.failed ≡ false)
      (held : IsRecorded protobuf fresh file 1 (rows s.reader.db) scans)
      (few : length scans < 2 ^ 32) where
    -- The client's `range`, answered by a server over this recording: exactly the recorded scans with
    -- a stamp in the range, in recording order, and `ok()`.
    pub range-handle :
        (start end : ℤ)
        → IsI64 start
        → IsI64 end
        → range protobuf (asked file s) start end ≡ (scans_in_range start end scans, true)
    unfolding range find_scans
    range-handle start end a b =
        answered file s (range_request start end) (scans_in_range start end scans)
          (rw (range_request-other start end, find_scans)
            (rw (parse_range-request start end a b, find_scans)
              (rw
                (find_by_time_range_lem protobuf fresh index file s.reader scans ready usable held
                  start end)
                refl)))
          (All-scans_in_range (IsWireable protobuf fresh) start end scans
            (IsRecorded-IsWireable file 1 (rows s.reader.db) scans held))
          (omega (arith, length-scans_in_range start end scans))

    abbrev wireable : All (IsWireable protobuf fresh) scans
    wireable = IsRecorded-IsWireable file 1 (rows s.reader.db) scans held

    -- The client's `latest`: the scan recorded last, or nothing of an empty recording, and `ok()`
    -- either way.
    pub latest-handle : latest protobuf (asked file s) ≡ (newest scans, true)
    unfolding latest find_scans same_text
    latest-handle =
        rw (answered file s (codes "LATEST") (newest_only scans) found one_wireable one, latest)
          (by_newest (newest scans))
      where
        found :
            (find_scans protobuf index file s.reader (codes "LATEST")).0 ≡ ok (newest_only scans)
        found = ap (λ p. p.0) (latest_scans_lem file s.reader ready usable scans held few)

        one_wireable : All (IsWireable protobuf fresh) (newest_only scans)
        one_wireable = All-newest_only (IsWireable protobuf fresh) scans wireable

        one : length (newest_only scans) < 2 ^ 32
        one = length-newest_only scans

        by_newest : (o : Option (Scan Float)) → first_of (single o, true) ≡ (o, true)
        by_newest none = unfold first_of in refl
        by_newest (some scan) = unfold first_of in refl

    -- The client's `recent`: every recorded scan from `window` before the newest recorded one's stamp
    -- up to that stamp, whatever the time is now; and nothing of an empty recording. The window's
    -- beginning is a 64-bit integer too.
    pub recent-handle :
        (window : ℤ)
        → IsI64 window
        → IsWindow window (newest scans)
        → recent protobuf (asked file s) window ≡ (scans_in_window window scans, true)
    unfolding recent find_scans
    recent-handle window h fits =
        answered file s (recent_request window) (scans_in_window window scans) found
          (All-before_last (newest scans)) (omega (arith, length-before_last (newest scans)))
      where
        found :
            (find_scans protobuf index file s.reader (recent_request window)).0
            ≡ ok (scans_in_window window scans)
        found =
            let (asks_window, no_range, no_latest) = parse_recent-request window h in
            rw (no_latest, find_scans)
              (rw (no_range, find_scans)
                (rw (asks_window, find_scans)
                  (ap (λ p. p.0)
                    (recent_scans_lem file s.reader ready usable scans window fits held few))))

        All-before_last :
            (o : Option (Scan Float)) → All (IsWireable protobuf fresh) (before_last window scans o)
        All-before_last none = tt
        All-before_last (some last) =
            All-scans_in_range (IsWireable protobuf fresh) (last.stamp_ns -ℤ window) last.stamp_ns
              scans wireable

        length-before_last :
            (o : Option (Scan Float)) → length (before_last window scans o) ≤ length scans
        length-before_last none = omega arith
        length-before_last (some last) =
            length-scans_in_range (last.stamp_ns -ℤ window) last.stamp_ns scans
