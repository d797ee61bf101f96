-- ===== src/Programs/Runs/Archive.antt =====
-- apps/dump_scans.cpp, apps/record_sample_data.cpp and apps/scan_query_server_main.cpp on small
-- recordings.
use arun_work.Base.{
  ℕ, ◌+◌, ◌≡◌, refl, sym, ap, List, [], ◌∷◌, take, Option, none, some, true, false, Bytes, codes,
  ok, arith, runtime_error, All, zero, suc,
}
use arun_work.Base.Int.{ℤ, pos, negsuc, pos_part}
use arun_work.Base.Words.{u64}
use arun_work.Lidar.Scan.{LidarScan}
use arun_work.Lidar.Codec.{to_proto}
use arun_work.Lidar.Replies.{IProtobuf}
use arun_work.Lidar.Replies.Trip.{IsWireable}
use arun_work.Lidar.Log.{Row}
use arun_work.Lidar.Log.Recorder.{ScanRecorder}
use arun_work.Lidar.Samples.{message, scan, protobuf, index, fresh_recorder}
use arun_work.Lidar.Samples.Kept.{log_file, rows, held, reader}
use arun_work.Lidar.Log.Reader.{count, get, columns, read_record, read_at}
use arun_work.Lidar.Query.{find_scans, same_text, latest_scans}
use arun_work.Transport.{receive_request}
use arun_work.Transport.Samples.{Line, line}
use arun_work.Programs.SampleData.{IFloat, make_sample_scan, sample_at, exited, sample_data}
use arun_work.Programs.DumpScans.{dump, numbered, dump-numbered}
use arun_work.Lidar.Log.Recording.{IsRecording}
use arun_work.Programs.SampleData.Kept.{samples, TakesAll}
use arun_work.Programs.SampleData.Dumped.{pos-mul, recorder_after, dump-sample_data}
use arun_work.Programs.QueryServer.{serving, Serving, Turn, turns, server_status}
use arun_work.Lidar.Query.{parse_recent, after_prefix}
use arun_work.Programs.QueryServer.Ending.{turns-throws}
use arun_work.Programs.QueryServer.Endless.{IsIntact, AllReplied, all_taken, turns-serving}

dump-numbered_example :
    dump protobuf index log_file 1 reader
    ≡ record { total = some 2; lines = (0, scan 5) ∷ []; not_shown = some 1; status = some 0 }
dump-numbered_example =
    dump-numbered protobuf (message 0) index log_file reader (scan 5 ∷ scan 9 ∷ []) tt refl held
      (omega arith) 1

-- Between the rounds come two requests, the second of which is no command.
abbrev asking : Bytes → Turn (List Row) Line
asking command = record {
  file = log_file;
  db = rows;
  arrivals = λ s. record s { incoming = (command, false) ∷ [] };
}

abbrev up : Serving (List Row) Line
up = record {
  stage = serving;
  sock = record { outcomes = []; incoming = [] };
  server = record { reader = reader; served_count = 0 };
  last_reported = 0;
}

intact : (command : Bytes) → IsIntact protobuf (message 0) index line (asking command)
intact command = record { scans = scan 5 ∷ scan 9 ∷ []; ready = tt; held = held; few = omega arith }

turns-serving_example :
    let ts = asking (codes "LATEST") ∷ asking (codes "HELLO") ∷ [] in
    let s' = turns protobuf (message 0) index line ts up in
    (s'.stage ≡ serving)
    × (u64 s'.server.served_count ≡ u64 (0 + all_taken protobuf (message 0) index line ts up))
    × AllReplied protobuf (message 0) index line ts up
unfolding receive_request parse_recent after_prefix
turns-serving_example =
    turns-serving protobuf (message 0) index line
      (asking (codes "LATEST") ∷ asking (codes "HELLO") ∷ []) up
      (intact (codes "LATEST"), tt, (intact (codes "HELLO"), tt, tt)) refl refl

-- The log has lost its end: the request is taken, and the process is gone.
abbrev torn : Turn (List Row) Line
torn = record (asking (codes "LATEST")) { file = 1 ∷ 0 ∷ [] }

turns-throws_example :
    let s' = turns protobuf (message 0) index line (torn ∷ asking (codes "LATEST") ∷ []) up in
    (server_status protobuf (message 0) index line s'.stage ≡ some 1)
    × (s'.sock ≡ record { outcomes = []; incoming = [] })
unfolding receive_request
turns-throws_example =
    turns-throws protobuf (message 0) index line torn (asking (codes "LATEST") ∷ []) up
      (codes "LATEST")
      (runtime_error (codes "ScanReader: log is shorter than the index says -- truncated record"))
      (codes "ScanReader: log is shorter than the index says -- truncated record") refl refl
      (unfold find_scans same_text latest_scans count get columns read_record read_at in refl) refl

-- Floats that are all the same, and a message of two bytes: a sample's stamp and its scan time.
abbrev no_float : IFloat (Unit {0})
no_float = record {
  trigonometry = record {
    of_ℕ = λ n. tt;
    plus = λ a b. tt;
    times = λ a b. tt;
    is_less = λ a b. true;
    cos = λ a. tt;
    sin = λ a. tt;
  };
  literal = λ n k. tt;
  minus = λ a b. tt;
  divided = λ a b. tt;
  negated = λ a. tt;
}

abbrev sample_message : ℕ → ℕ → LidarScan (Unit {0})
sample_message stamp t = to_proto (make_sample_scan no_float 0 (pos stamp) (pos t)) (message 0)

abbrev parse_sample : Bytes → Option (LidarScan (Unit {0}))
parse_sample (stamp ∷ t ∷ []) = some (sample_message stamp t)
parse_sample _ = none

abbrev parse_sample_array : Bytes → ℤ → Option (LidarScan (Unit {0}))
parse_sample_array bytes (pos n) = parse_sample (take n bytes)
parse_sample_array bytes (negsuc n) = none

abbrev samples_protobuf : IProtobuf (LidarScan (Unit {0}))
samples_protobuf = record {
  serialize = λ m. pos_part m.stamp_ns ∷ pos_part m.scan_time_ns ∷ [];
  parse = parse_sample;
  parse_array = parse_sample_array;
  IsEncodable = λ m. m ≡ sample_message (pos_part m.stamp_ns) (pos_part m.scan_time_ns);
  size_bound = λ m h. omega arith;
  parse-serialize = λ m h. ap some (sym h);
  parse_array-serialize = λ m rest h. ap some (sym h);
}

sample-IsWireable :
    (t i : ℕ)
    → IsWireable samples_protobuf (message 0) (sample_at no_float samples_protobuf index (pos t) i)
unfolding to_proto make_sample_scan
sample-IsWireable t i = ((omega arith, omega arith), rw (pos-mul i t) refl)

samples-IsWireable :
    (t i n : ℕ)
    → All
        (IsWireable samples_protobuf (message 0))
        (samples no_float samples_protobuf (message 0) index (pos t) i n)
samples-IsWireable t i zero = tt
samples-IsWireable t i (suc n) = (sample-IsWireable t i, samples-IsWireable t (suc i) n)

takes_all :
    (t i n : ℕ) (r : ScanRecorder (Unit {0}) (List Row))
    → TakesAll no_float samples_protobuf (message 0) index (pos t) i n r
takes_all t i zero r = tt
takes_all t i (suc n) r = (refl, takes_all t (suc i) n _)

empty : IsRecording samples_protobuf (message 0) index fresh_recorder []
empty = record { clean = refl; held = tt }

abbrev sampled : ScanRecorder (Unit {0}) (List Row)
sampled = recorder_after no_float samples_protobuf (message 0) index fresh_recorder empty refl 2 3

dump-sample_data_example :
    (sample_data no_float samples_protobuf index
        (λ log db. ok fresh_recorder)
        (λ i. none)
        (pos 2)
        (pos 3)
        (codes "a.log")
        (codes "a.db")
      ≡ (exited 0, some sampled))
    × (dump samples_protobuf index sampled.log.file 4 (record { failed = false; db = sampled.db })
        ≡ record {
          total = some 6;
          lines =
              numbered 0 (
                take 4 (samples no_float samples_protobuf (message 0) index (pos 333_333_333) 0 6));
          not_shown = some 2;
          status = some 0;
        })
dump-sample_data_example =
    dump-sample_data no_float samples_protobuf (message 0) index fresh_recorder empty refl
      (λ log db. ok fresh_recorder) 2 3 4 (codes "a.log") (codes "a.db")
      (record { failed = false; db = sampled.db }) (omega arith) (omega arith) (omega arith)
      (samples-IsWireable 333_333_333 0 6) (takes_all 333_333_333 0 6 fresh_recorder) refl tt refl
      refl
