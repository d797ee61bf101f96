-- ===== src/Programs/SampleData.antt =====
-- apps/record_sample_data.cpp: made-up scans are recorded. `atoi` and the opening of the recorder are
-- parameters; what the disk does in each round is an argument. The lines on the way are left out.
pub mod Kept
pub mod Dumped
use arun_work.Base.{
  ℕ, zero, suc, ◌+◌, ◌*◌, ◌^◌, List, [], ◌∷◌, Option, none, some, Bool, true, false, ◌||◌,
  if◌then◌else◌, Bytes, codes, Exception, Result, ok, err,
}
use arun_work.Base.Int.{ℤ, pos, pos_part, ◌+ℤ◌, ◌*ℤ◌, ◌/ℤ◌, leb_ℤ, ltb_ℤ}
use arun_work.Lidar.Scan.{Scan, LidarScan}
use arun_work.Lidar.Geometry.{ITrigonometry, angle_of}
use arun_work.Lidar.Replies.{IProtobuf}
use arun_work.Lidar.Log.{IIndex}
use arun_work.Lidar.Log.Recorder.{ScanRecorder, record_scan}

-- The operations on floats beside those of `ITrigonometry`; `literal` is a decimal with its digits
-- and how many of them stand behind the point.
pub record IFloat (Float : Type 0) : Type 0 where
  pub trigonometry : ITrigonometry Float
  pub literal : ℕ → ℕ → Float
  pub minus : Float → Float → Float
  pub divided : Float → Float → Float
  pub negated : Float → Float

-- `kSamplesPerScan`
abbrev pub samples_per_scan : ℕ
samples_per_scan = 360

module _ {Float : Type 0} (float : IFloat Float) where
  open float use {trigonometry, literal, minus, divided, negated}
  open trigonometry use {of_ℕ, plus, times, sin}

  -- `kRangeMin`, `kRangeMax` and `kPi`
  abbrev pub range_min : Float
  range_min = literal 5 2

  abbrev pub range_max : Float
  range_max = literal 200 1

  abbrev pub pi : Float
  pi = literal 314_159_265_358_979_323_846 20

  abbrev pub angle_step : Float
  angle_step = divided (times (literal 20 1) pi) (of_ℕ samples_per_scan)

  -- The scan without its ranges.
  abbrev pub sample_frame : ℤ → ℤ → Scan Float
  sample_frame stamp_ns scan_time_ns = record {
    frame_id = codes "sample_data";
    stamp_ns = stamp_ns;
    scan_time_ns = scan_time_ns;
    time_increment_ns = scan_time_ns /ℤ pos samples_per_scan;
    angle_min = negated pi;
    angle_max = minus pi angle_step;
    angle_increment = angle_step;
    range_min = range_min;
    range_max = range_max;
    echo_index = 0;
    echo_count = 1;
    ranges = [];
    intensities = [];
  }

  -- The ranges of the samples from `i` on. `angle_of` reads none of the ranges.
  unfoldable pub sample_ranges : Scan Float → Float → ℕ → ℕ → List Float
  sample_ranges frame drift i zero = []
  sample_ranges frame drift i (suc n) =
      let angle = angle_of trigonometry frame i in
      plus (literal 20 1) (times (literal 3 1) (sin (plus (times (literal 40 1) angle) drift)))
      ∷ sample_ranges frame drift (suc i) n

  unfoldable pub make_sample_scan : ℕ → ℤ → ℤ → Scan Float
  make_sample_scan scan_index stamp_ns scan_time_ns =
      let frame = sample_frame stamp_ns scan_time_ns in
      let drift = times (of_ℕ scan_index) (literal 1 2) in
      record frame { ranges = sample_ranges frame drift 0 samples_per_scan }

-- How the program ends: with a status, by an exception that nothing catches, or with an overflow of
-- `int`, behind which nothing is defined.
pub data Ending : Type 0 where
  exited : ℕ → Ending
  terminated : Exception → Ending
  overflowed : Ending

module _ {Float Db : Type 0} (float : IFloat Float) (protobuf : IProtobuf (LidarScan Float))
    (index : IIndex Db) where
  abbrev pub sample_at : ℤ → ℕ → Scan Float
  sample_at scan_time_ns i = make_sample_scan float i (pos i *ℤ scan_time_ns) scan_time_ns

  -- The loop from scan `i` on, for so many rounds.
  unfoldable pub record_samples :
      (ℕ → Option ℕ) → ℤ → ℕ → ℕ → ScanRecorder Float Db → Option Exception × ScanRecorder Float Db
  record_samples room scan_time_ns i zero r = (none, r)
  record_samples room scan_time_ns i (suc n) r =
      let (thrown, r') = record_scan protobuf index (room i) r (sample_at scan_time_ns i) in
      let rest = record_samples room scan_time_ns (suc i) n r' in
      elim thrown [ some e ↦ (some e, r') | none ↦ rest ]

  abbrev pub ending_of : Option Exception → Ending
  ending_of none = exited 0
  ending_of (some e) = terminated e

  -- Behind the arguments: the ending, and the recorder, if it was opened.
  unfoldable pub sample_data :
      (Bytes → Bytes → Result Exception (ScanRecorder Float Db))
      → (ℕ → Option ℕ)
      → ℤ
      → ℤ
      → Bytes
      → Bytes
      → Ending × Option (ScanRecorder Float Db)
  sample_data open_recorder room seconds rate_hz log_path db_path =
      if leb_ℤ seconds (pos 0) || leb_ℤ rate_hz (pos 0)
      then (exited 1, none)
      else if ltb_ℤ (pos 2_147_483_647) (seconds *ℤ rate_hz)
      then (overflowed, none)
      else elim (open_recorder log_path db_path) [
        | err e ↦ (terminated e, none)
        | ok r ↦
            let (thrown, r') =
              record_samples room (pos 1_000_000_000 /ℤ rate_hz) 0 (pos_part (seconds *ℤ rate_hz))
                r in
            (ending_of thrown, some r')
      ]

  abbrev or_default : {A : Type 0} → A → (Bytes → A) → List Bytes → A
  or_default default read [] = default
  or_default default read (arg ∷ args) = read arg

  abbrev tail : List Bytes → List Bytes
  tail [] = []
  tail (arg ∷ args) = args

  -- The arguments are those behind the program's name.
  unfoldable pub sample_data_main :
      (Bytes → ℤ)
      → (Bytes → Bytes → Result Exception (ScanRecorder Float Db))
      → (ℕ → Option ℕ)
      → List Bytes
      → Ending × Option (ScanRecorder Float Db)
  sample_data_main atoi open_recorder room args =
      let keep = λ (arg : Bytes). arg in
      sample_data open_recorder room (or_default (pos 60) atoi args)
        (or_default (pos 10) atoi (tail args))
        (or_default (codes "./sample_scans.log") keep (tail (tail args)))
        (or_default (codes "./sample_scans.db") keep (tail (tail (tail args))))
