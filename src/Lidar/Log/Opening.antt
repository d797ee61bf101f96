-- ===== src/Lidar/Log/Opening.antt =====
-- src/recorder.cpp and src/reader.cpp: the constructors. Each call of SQLite is made at most once, and
-- its answer is a field of a record: `none`, or the text of `sqlite3_errmsg`.
use arun_work.Base.{
  ℕ, [], ◌++◌, Option, none, some, Bool, true, false, Bytes, codes, Exception, runtime_error,
  Result, ok, err, ◌>>◌,
}
use arun_work.Lidar.Scan.{LidarScan}
use arun_work.Lidar.Log.Recorder.{ScanRecorder, sqlite_error}
use arun_work.Lidar.Log.Reader.{ScanReader, reader_error}

-- Which handles of SQLite are open: the database, the statements that the object keeps, and the
-- recorder's statement that counts.
pub record Handles : Type 0 where
  pub db : Bool
  pub insert_stmt : Bool
  pub count_stmt : Bool
  pub get_stmt : Bool
  pub range_stmt : Bool

abbrev pub no_handles : Handles
no_handles = record {
  db = false;
  insert_stmt = false;
  count_stmt = false;
  get_stmt = false;
  range_stmt = false;
}

-- `db_handle`: a database that cannot be opened may have a handle all the same. `counted` is the
-- number in the row, if the step gave one, and `create` may fail without a text.
pub record RecorderAnswers : Type 0 where
  pub log_opens : Bool
  pub db_handle : Bool
  pub open_db : Option Bytes
  pub wal : Option Bytes
  pub busy_timeout : Option Bytes
  pub create : Option (Option Bytes)
  pub prepare_insert : Option Bytes
  pub prepare_count : Option Bytes
  pub counted : Option ℕ

pub record ReaderAnswers : Type 0 where
  pub log_opens : Bool
  pub db_handle : Bool
  pub open_db : Option Bytes
  pub busy_timeout : Option Bytes
  pub prepare_count : Option Bytes
  pub prepare_get : Option Bytes
  pub prepare_range : Option Bytes

-- The exception, and the handles that are open when it is thrown.
abbrev pub Body : Type 0 → Type 0
Body A = Result (Exception × Handles) A

-- `check_sqlite`, with the exception of the class.
abbrev pub check_sqlite :
    (Bytes → Bytes → Exception) → Option Bytes → Bytes → Handles → Body (Unit {0})
check_sqlite error none called held = ok tt
check_sqlite error (some message) called held = err (error called message, held)

abbrev pub check_open : Bool → Exception → Body (Unit {0})
check_open true e = ok tt
check_open false e = err (e, no_handles)

abbrev pub message_of : Option Bytes → Bytes
message_of none = codes "?"
message_of (some message) = message

abbrev pub check_create : Option (Option Bytes) → Handles → Body (Unit {0})
check_create none held = ok tt
check_create (some errmsg) held =
    err (runtime_error (codes "ScanRecorder: CREATE TABLE failed: " ++ message_of errmsg), held)

abbrev pub count_of : Option ℕ → ℕ
count_of none = 0
count_of (some n) = n

-- The recorder's `close_resources`, which does not know of the statement that counts.
unfoldable pub close_recorder : Handles → Handles
close_recorder held = record held { insert_stmt = false; db = false }

unfoldable pub close_reader : Handles → Handles
close_reader held = record held {
  range_stmt = false;
  get_stmt = false;
  count_stmt = false;
  db = false;
}

-- The constructor's `try` block, with the number of scans.
unfoldable pub recorder_body : Bytes → RecorderAnswers → Body (ℕ × Handles)
recorder_body log_path a = do
  let with_db = record no_handles { db = a.db_handle }
  let with_insert = record no_handles { db = a.db_handle; insert_stmt = true }
  check_open a.log_opens
      (runtime_error (codes "ScanRecorder: could not open log file " ++ log_path))
  check_sqlite sqlite_error a.open_db (codes "sqlite3_open") with_db
  check_sqlite sqlite_error a.wal (codes "PRAGMA journal_mode=WAL") with_db
  check_sqlite sqlite_error a.busy_timeout (codes "sqlite3_busy_timeout") with_db
  check_create a.create with_db
  check_sqlite sqlite_error a.prepare_insert (codes "sqlite3_prepare_v2(INSERT)") with_db
  check_sqlite sqlite_error a.prepare_count (codes "sqlite3_prepare_v2(COUNT)") with_insert
  ok (count_of a.counted, finalize_count (record with_insert { count_stmt = true }))
  where
    finalize_count : Handles → Handles
    finalize_count held = record held { count_stmt = false }

unfoldable pub reader_body : Bytes → ReaderAnswers → Body Handles
reader_body log_path a = do
  let with_db = record no_handles { db = a.db_handle }
  let with_count = record with_db { count_stmt = true }
  let with_get = record with_count { get_stmt = true }
  check_open a.log_opens (runtime_error (codes "ScanReader: could not open log file " ++ log_path))
  check_sqlite reader_error a.open_db (codes "sqlite3_open_v2") with_db
  check_sqlite reader_error a.busy_timeout (codes "sqlite3_busy_timeout") with_db
  check_sqlite reader_error a.prepare_count (codes "sqlite3_prepare_v2(COUNT)") with_db
  check_sqlite reader_error a.prepare_get (codes "sqlite3_prepare_v2(GET)") with_count
  check_sqlite reader_error a.prepare_range (codes "sqlite3_prepare_v2(RANGE)") with_get
  ok (record with_get { range_stmt = true })

-- The end of the recorder's constructor, its handler included, for the log `file`, to which it
-- appends, and the database `db`. With the handles that are open then.
unfoldable pub finish_recorder :
    {Float Db : Type 0}
    → Bytes
    → Db
    → LidarScan Float
    → Body (ℕ × Handles)
    → Result Exception (ScanRecorder Float Db) × Handles
finish_recorder file db wire (err (e, held)) = (err e, close_recorder held)
finish_recorder file db wire (ok (scan_count, held)) = (
  ok (record {
    log = record { file = file; pending = []; good = true };
    db = db;
    scan_count = scan_count;
    wire = wire;
  }),
  held,
)

unfoldable pub open_recorder :
    {Float Db : Type 0}
    → Bytes
    → RecorderAnswers
    → Bytes
    → Db
    → LidarScan Float
    → Result Exception (ScanRecorder Float Db) × Handles
open_recorder log_path a file db wire = finish_recorder file db wire (recorder_body log_path a)

unfoldable pub open_reader :
    {Db : Type 0} → Bytes → ReaderAnswers → Db → Result Exception (ScanReader Db) × Handles
open_reader log_path a db = elim (reader_body log_path a) [
  | err (e, held) ↦ (err e, close_reader held)
  | ok held ↦ (ok (record { failed = false; db = db }), held)
]
