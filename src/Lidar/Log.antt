-- ===== src/Lidar/Log.antt =====
-- src/recorder.cpp and src/reader.cpp: a recording is a log file of length-prefixed scans and an
-- index of it in SQLite. SQLite is a parameter; the two file streams are modelled as the code uses
-- them, a failed one staying failed.
pub mod Recorder
pub mod Reader
pub mod Indexed
pub mod Recording
pub mod Records
pub mod Playback
pub mod Failures
pub mod Opening
pub mod Reopening
use arun_work.Base.{
  ℕ, suc, ◌+◌, ◌≡◌, max, List, [], ◌∷◌, ◌++◌, Option, none, some, Bool, ◌&&◌, length, ◌==◌, Bytes,
  Result, ok, if◌then◌else◌,
}
use arun_work.Base.Int.{ℤ, leb_ℤ}

-- A row of the table `scans`.
pub record Row : Type 0 where
  pub seq : ℕ
  pub stamp_ns : ℤ
  pub offset : ℤ
  pub length : ℤ
  pub sample_count : ℤ

-- The largest key, and the one that SQLite gives to the next row without one.
abbrev pub largest_seq : List Row → ℕ
largest_seq [] = 0
largest_seq (row ∷ rows) = max row.seq (largest_seq rows)

-- `WHERE seq = ?`
abbrev pub find_seq : ℕ → List Row → Option Row
find_seq seq [] = none
find_seq seq (row ∷ rows) = if row.seq == seq then some row else find_seq seq rows

-- `WHERE stamp_ns >= ? AND stamp_ns <= ?`
abbrev pub in_range : ℤ → ℤ → ℤ → Bool
in_range from to stamp = leb_ℤ from stamp && leb_ℤ stamp to

abbrev pub select_range : ℤ → ℤ → List Row → List Row
select_range from to [] = []
select_range from to (row ∷ rows) =
    if in_range from to row.stamp_ns
    then row ∷ select_range from to rows
    else select_range from to rows

-- What the code asks of SQLite on the open index, and what SQLite documents of it. A statement that
-- fails gives the text of `sqlite3_errmsg`; `rows` is the table in the order of the keys. The
-- queries are answered when no lock or disk error is in their way.
pub record IIndex (Db : Type 0) : Type 1 where
  pub rows : Db → List Row
  pub IsReady : Db → Type 0
  pub insert : ℤ → ℤ → ℤ → ℤ → Db → Option Bytes × Db
  pub count : Db → Result Bytes ℕ
  pub by_seq : ℕ → Db → Result Bytes (Option Row)
  pub by_stamp : ℤ → ℤ → Db → List Row × Option Bytes
  pub rows-insert :
      (stamp offset size samples : ℤ) (db : Db)
      → (insert stamp offset size samples db).0 ≡ none
      → rows (insert stamp offset size samples db).1
        ≡ rows db
          ++ record {
            seq = suc (largest_seq (rows db));
            stamp_ns = stamp;
            offset = offset;
            length = size;
            sample_count = samples;
          }
            ∷ []
  pub rows-insert_failed :
      (stamp offset size samples : ℤ) (db : Db) (message : Bytes)
      → (insert stamp offset size samples db).0 ≡ some message
      → rows (insert stamp offset size samples db).1 ≡ rows db
  pub count_lem : (db : Db) → IsReady db → count db ≡ ok (length (rows db))
  pub by_seq_lem : (seq : ℕ) (db : Db) → IsReady db → by_seq seq db ≡ ok (find_seq seq (rows db))
  pub by_stamp_lem :
      (from to : ℤ) (db : Db)
      → IsReady db
      → by_stamp from to db ≡ (select_range from to (rows db), none)
