-- ===== src/Lidar/Log/Reader.antt =====
-- src/reader.cpp: scans are read back through the index.
use arun_work.Base.{
  ℕ, ◌+◌, List, [], ◌∷◌, ◌++◌, take, drop, Option, none, some, Bool, true, false, ◌==◌, leb, length,
  Bytes, codes, Exception, runtime_error, out_of_range, Result, ok, err, ◌>>=◌,
}
use arun_work.Base.Int.{ℤ, pos, negsuc}
use arun_work.Base.Words.{u64, u32_of}
use arun_work.Base.Decimal.{decimal, to_string}
use arun_work.Lidar.Scan.{Scan, LidarScan}
use arun_work.Lidar.Codec.{from_proto}
use arun_work.Lidar.Framing.{get_u32_le}
use arun_work.Lidar.Replies.{IProtobuf}
use arun_work.Lidar.Log.{IIndex, Row}

-- `failed` is the stream's `fail()`, which nothing in the code clears. The reused message is left
-- out, since a parse clears it first.
pub record ScanReader (Db : Type 0) : Type 0 where
  pub failed : Bool
  pub db : Db

unfoldable pub reader_error : Bytes → Bytes → Exception
reader_error called message =
    runtime_error (codes "ScanReader: " ++ called ++ codes " failed: " ++ message)

unfoldable pub seek_error : ℤ → Exception
seek_error offset =
    runtime_error (codes "ScanReader: seek to offset " ++ to_string offset ++ codes " failed")

unfoldable pub length_mismatch : ℕ → ℤ → ℤ → Exception
length_mismatch declared size offset = runtime_error (
    codes "ScanReader: log's length prefix ("
    ++ decimal declared
    ++ codes ") does not match the index's length column ("
    ++ to_string size
    ++ codes ") at offset "
    ++ to_string offset)

module _ {Float : Type 0} (protobuf : IProtobuf (LidarScan Float)) where
  -- The part of `read_record` behind the seek to `at`: what it returns, and the stream's `fail()`. A
  -- read that comes up short sets it.
  unfoldable pub read_at : Bytes → ℕ → ℤ → Result Exception (Scan Float) × Bool
  read_at file at size =
      let prefix = take 4 (drop at file) in
      let declared = get_u32_le prefix 0 in
      let payload = take declared (drop (at + 4) file) in
      elim (length prefix == 4) [
        | false ↦ (
          err (
              runtime_error
                (codes "ScanReader: log is shorter than the index says -- truncated record")),
          true,
        )
        | true ↦ elim (declared == u32_of size) [
          | false ↦ (err (length_mismatch declared size (pos at)), false)
          | true ↦ elim (length payload == declared) [
            | false ↦ (
              err (
                  runtime_error
                    (codes "ScanReader: log is shorter than the index says -- truncated payload")),
              true,
            )
            | true ↦ elim (protobuf.parse payload) [
              | none ↦ (
                err (
                    runtime_error (
                      codes "ScanReader: payload at offset "
                      ++ to_string (pos at)
                      ++ codes " does not parse as a LidarScan")),
                false,
              )
              | some wire ↦ (ok (from_proto wire), false)
            ]
          ]
        ]
      ]

  -- On the log as it stands at this moment, and on the stream's `fail()` before. A seek on a failed
  -- stream or to a negative offset fails.
  unfoldable pub read_record : Bytes → Bool → ℤ → ℤ → Result Exception (Scan Float) × Bool
  read_record file true offset size = (err (seek_error offset), true)
  read_record file false (negsuc n) size = (err (seek_error (negsuc n)), true)
  read_record file false (pos at) size = read_at file at size

  -- The loop of `find_by_time_range` over the rows that the statement steps through.
  unfoldable pub read_rows : Bytes → Bool → List Row → Result Exception (List (Scan Float)) × Bool
  read_rows file failed [] = (ok [], failed)
  read_rows file failed (row ∷ rows) =
      let (read, failed') = read_record file failed row.offset row.length in
      elim read [
        | err e ↦ (err e, failed')
        | ok scan ↦
            let (rest, failed'') = read_rows file failed' rows in
            (rest >>= λ scans. ok (scan ∷ scans), failed'')
      ]

-- The two columns of the row; a statement that has none gives 0.
unfoldable pub columns : Option Row → ℤ × ℤ
columns none = (pos 0, pos 0)
columns (some row) = (row.offset, row.length)

module _ {Float Db : Type 0} (protobuf : IProtobuf (LidarScan Float)) (index : IIndex Db) where
  unfoldable pub count : ScanReader Db → Result Exception ℕ
  count r = elim (index.count r.db) [
    | err message ↦ err (reader_error (codes "sqlite3_step(COUNT)") message)
    | ok n ↦ ok (u64 n)
  ]

  unfoldable pub get : Bytes → ScanReader Db → ℕ → Result Exception (Scan Float) × ScanReader Db
  get file r i = elim (count r) [
    | err e ↦ (err e, r)
    | ok n ↦ elim (leb n i) [
      | true ↦ (
        err (out_of_range (codes "ScanReader::get: index " ++ decimal i ++ codes " >= count()")),
        r,
      )
      | false ↦ elim (index.by_seq (i + 1) r.db) [
        | err message ↦ (err (reader_error (codes "sqlite3_step(GET)") message), r)
        | ok found ↦
            let (offset, size) = columns found in
            let (read, failed) = read_record protobuf file r.failed offset size in
            (read, record r { failed = failed })
      ]
    ]
  ]

  -- The rows come before the error, if stepping ends with one.
  unfoldable pub find_by_time_range :
      Bytes → ScanReader Db → ℤ → ℤ → Result Exception (List (Scan Float)) × ScanReader Db
  find_by_time_range file r from to =
      let (rows, ended) = index.by_stamp from to r.db in
      let (read, failed) = read_rows protobuf file r.failed rows in
      (
        read >>= λ scans. elim ended [
          | none ↦ ok scans
          | some message ↦ err (reader_error (codes "sqlite3_step(RANGE)") message)
        ],
        record r { failed = failed },
      )
