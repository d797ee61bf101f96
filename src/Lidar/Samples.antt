-- ===== src/Lidar/Samples.antt =====
-- A message format and an index to run the recording and its queries with: a message is one byte,
-- the scan's stamp, and the table is a list.
pub mod Kept
use arun_work.Base.{
  ℕ, suc, ◌≡◌, sym, refl, ap, List, [], ◌∷◌, ◌++◌, take, length, Option, none, some, Bytes, ok,
  arith, true,
}
use arun_work.Base.Int.{ℤ, pos, negsuc, pos_part}
use arun_work.Lidar.Scan.{Scan, LidarScan}
use arun_work.Lidar.Codec.{to_proto, copy_floats, add_each}
use arun_work.Lidar.Replies.{IProtobuf}
use arun_work.Lidar.Replies.Trip.{IsWireable}
use arun_work.Lidar.Log.{IIndex, Row, largest_seq, find_seq, select_range}
use arun_work.Lidar.Log.Recorder.{ScanRecorder}

abbrev pub message : ℕ → LidarScan (Unit {0})
message n = record {
  frame_id = [];
  stamp_ns = pos n;
  scan_time_ns = pos 0;
  time_increment_ns = pos 0;
  angle_min = tt;
  angle_max = tt;
  angle_increment = tt;
  range_min = tt;
  range_max = tt;
  echo_index = 0;
  echo_count = 1;
  ranges = tt ∷ [];
  intensities = [];
}

abbrev pub scan : ℕ → Scan (Unit {0})
scan n = record {
  frame_id = [];
  stamp_ns = pos n;
  scan_time_ns = pos 0;
  time_increment_ns = pos 0;
  angle_min = tt;
  angle_max = tt;
  angle_increment = tt;
  range_min = tt;
  range_max = tt;
  echo_index = 0;
  echo_count = 1;
  ranges = tt ∷ [];
  intensities = [];
}

abbrev pub parse : Bytes → Option (LidarScan (Unit {0}))
parse (n ∷ []) = some (message n)
parse _ = none

abbrev pub parse_array : Bytes → ℤ → Option (LidarScan (Unit {0}))
parse_array bytes (pos n) = parse (take n bytes)
parse_array bytes (negsuc n) = none

abbrev pub protobuf : IProtobuf (LidarScan (Unit {0}))
protobuf = record {
  serialize = λ m. pos_part m.stamp_ns ∷ [];
  parse = parse;
  parse_array = parse_array;
  IsEncodable = λ m. m ≡ message (pos_part m.stamp_ns);
  size_bound = λ m h. omega arith;
  parse-serialize = λ m h. ap some (sym h);
  parse_array-serialize = λ m rest h. ap some (sym h);
}

pub scan-IsWireable : (n : ℕ) → IsWireable protobuf (message 0) (scan n)
unfolding to_proto copy_floats add_each
scan-IsWireable n = ((omega arith, omega arith), refl)

pub no_text : {b : Bytes} → ¬ (none ≡ some b)
no_text e = cc e

abbrev pub index : IIndex (List Row)
index = record {
  rows = λ db. db;
  IsReady = λ db. Unit {0};
  insert = λ stamp offset size samples db. (
    none,
    db
        ++ record {
          seq = suc (largest_seq db);
          stamp_ns = stamp;
          offset = offset;
          length = size;
          sample_count = samples;
        }
          ∷ [],
  );
  count = λ db. ok (length db);
  by_seq = λ seq db. ok (find_seq seq db);
  by_stamp = λ from to db. (select_range from to db, none);
  rows-insert = λ stamp offset size samples db h. refl;
  rows-insert_failed = λ stamp offset size samples db message h. absurd (no_text h);
  count_lem = λ db ready. refl;
  by_seq_lem = λ seq db ready. refl;
  by_stamp_lem = λ from to db ready. refl;
}

-- A recorder on an empty log and an empty table.
abbrev pub fresh_recorder : ScanRecorder (Unit {0}) (List Row)
fresh_recorder = record {
  log = record { file = []; pending = []; good = true };
  db = [];
  scan_count = 0;
  wire = message 0;
}
