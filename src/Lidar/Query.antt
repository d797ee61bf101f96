-- ===== src/Lidar/Query.antt =====
-- src/query_server.cpp and src/query_client.cpp: questions about a recording, asked as text and
-- answered as a framed reply.
pub mod Requests
pub mod Windows
pub mod Serving
pub mod Answers
use arun_work.Base.{
  ℕ, zero, suc, ◌+◌, ◌-◌, ◌≡◌, List, [], ◌∷◌, ◌++◌, Option, none, some, Bool, true, false, ◌==◌,
  ◌&&◌, ltb, Bytes, codes, Exception, undefined, Result, ok, err, ◌>>=◌, if◌then◌else◌,
}
use arun_work.Base.Int.{ℤ, pos, ◌-ℤ◌}
use arun_work.Base.Words.{u64, is_i64}
use arun_work.Base.Decimal.{to_string}
use arun_work.Base.Digits.{from_chars}
use arun_work.Transport.{IZmq, serve_one}
use arun_work.Lidar.Scan.{Scan, LidarScan}
use arun_work.Lidar.Replies.{IProtobuf, encode_scans, decode_scans}
use arun_work.Lidar.Log.{IIndex}
use arun_work.Lidar.Log.Reader.{ScanReader, count, get, find_by_time_range}

-- `command.rfind(prefix, 0) == 0`, with what follows the prefix.
unfoldable pub after_prefix : Bytes → Bytes → Option Bytes
after_prefix [] s = some s
after_prefix (p ∷ ps) [] = none
after_prefix (p ∷ ps) (c ∷ s) = if p == c then after_prefix ps s else none

unfoldable pub skip_spaces : Bytes → Bytes
skip_spaces [] = []
skip_spaces (c ∷ s) = if c == 32 then skip_spaces s else c ∷ s

-- The two numbers of a `RANGE` command; `none` is `false`.
unfoldable pub parse_range : Bytes → Option (ℤ × ℤ)
parse_range command = elim (after_prefix (codes "RANGE ") command) [
  | none ↦ none
  | some begin ↦ elim (from_chars begin) [
    | none ↦ none
    | some (start, mid) ↦ elim (from_chars (skip_spaces mid)) [
      | none ↦ none
      | some (end, _) ↦ some (start, end)
    ]
  ]
]

unfoldable pub parse_recent : Bytes → Option ℤ
parse_recent command = elim (after_prefix (codes "RECENT ") command) [
  | none ↦ none
  | some begin ↦ elim (from_chars begin) [ none ↦ none | some (window, _) ↦ some window ]
]

unfoldable pub same_text : Bytes → Bytes → Bool
same_text [] [] = true
same_text (a ∷ s) (b ∷ t) = (a == b) && same_text s t
same_text _ _ = false

pub record ScanQueryServer (Db : Type 0) : Type 0 where
  pub reader : ScanReader Db
  pub served_count : ℕ

module _ {Float Db : Type 0} (protobuf : IProtobuf (LidarScan Float)) (index : IIndex Db) where
  -- What `LATEST` answers.
  unfoldable pub latest_scans :
      Bytes → ScanReader Db → Result Exception (List (Scan Float)) × ScanReader Db
  latest_scans file r = elim (count protobuf index r) [
    | err e ↦ (err e, r)
    | ok zero ↦ (ok [], r)
    | ok (suc n) ↦
        let (read, r') = get protobuf index file r n in (read >>= λ scan. ok (scan ∷ []), r')
  ]

  -- What `RECENT` answers. The window's beginning may not be a `std::int64_t`.
  unfoldable pub recent_scans :
      Bytes → ScanReader Db → ℤ → Result Exception (List (Scan Float)) × ScanReader Db
  recent_scans file r window = elim (count protobuf index r) [
    | err e ↦ (err e, r)
    | ok zero ↦ (ok [], r)
    | ok (suc n) ↦
        let (read, r') = get protobuf index file r n in
        elim read [
          | err e ↦ (err e, r')
          | ok newest ↦ elim (is_i64 (newest.stamp_ns -ℤ window)) [
            | false ↦ (err undefined, r')
            | true ↦
                find_by_time_range protobuf index file r' (newest.stamp_ns -ℤ window)
                  newest.stamp_ns
          ]
        ]
  ]

  -- The three questions, and the empty answer to anything else.
  unfoldable pub find_scans :
      Bytes → ScanReader Db → Bytes → Result Exception (List (Scan Float)) × ScanReader Db
  find_scans file r command = elim (same_text command (codes "LATEST")) [
    | true ↦ latest_scans file r
    | false ↦ elim (parse_range command) [
      | some (start, end) ↦ find_by_time_range protobuf index file r start end
      | none ↦ elim (parse_recent command) [
        | some window ↦ recent_scans file r window
        | none ↦ (ok [], r)
      ]
    ]
  ]

module _ {Float Db : Type 0} (protobuf : IProtobuf (LidarScan Float)) (fresh : LidarScan Float)
    (index : IIndex Db) where
  -- The reader's exceptions go through.
  unfoldable pub handle :
      Bytes → ScanQueryServer Db → Bytes → Result Exception Bytes × ScanQueryServer Db
  handle file s command =
      let (found, r) = find_scans protobuf index file s.reader command in
      (
        found >>= λ scans. ok (encode_scans protobuf fresh scans),
        record { reader = r; served_count = u64 (s.served_count + 1) },
      )

  -- `file` is the log as it stands during the request.
  unfoldable pub serve :
      {Sock : Type 0}
      → IZmq Sock
      → ℤ
      → Bytes
      → Sock
      → ScanQueryServer Db
      → Result Exception Bool × Sock × ScanQueryServer Db
  serve zmq timeout file sock s =
      serve_one zmq (λ command s'. handle file s' command) timeout sock s

module _ {Float : Type 0} where
  -- `scans.front()`, if there is one.
  unfoldable pub first_of : List (Scan Float) × Bool → Option (Scan Float) × Bool
  first_of ([], reached) = (none, reached)
  first_of (scan ∷ _, reached) = (some scan, reached)

module _ {Float : Type 0} (protobuf : IProtobuf (LidarScan Float)) where
  -- What `range` and `recent` make of the transport's answer: the scans, and `ok()`. An exception is
  -- caught.
  unfoldable pub scans_of : Result Exception (Option Bytes) → List (Scan Float) × Bool
  scans_of (err e) = ([], false)
  scans_of (ok none) = ([], false)
  scans_of (ok (some reply)) = elim (decode_scans protobuf reply) [
    | err e ↦ ([], false)
    | ok scans ↦ (scans, true)
  ]

  -- `ask` is `Requester::request`, with the timeout given.
  module _ (ask : Bytes → Result Exception (Option Bytes)) where
    unfoldable pub range : ℤ → ℤ → List (Scan Float) × Bool
    range start end =
        scans_of (ask (codes "RANGE " ++ to_string start ++ codes " " ++ to_string end))

    unfoldable pub recent : ℤ → List (Scan Float) × Bool
    recent window = scans_of (ask (codes "RECENT " ++ to_string window))

    unfoldable pub latest : Option (Scan Float) × Bool
    latest = first_of (scans_of (ask (codes "LATEST")))
