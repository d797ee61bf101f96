-- ===== src/Service/Runs.antt =====
-- A run of the service on a small recording, with a sensor that falls silent.
use arun_work.Base.{
  ℕ, ◌+◌, ◌≤◌, ◌≡◌, refl, List, [], ◌∷◌, none, some, true, false, length, codes, runtime_error, ok,
  err,
}
use arun_work.Base.Words.{u64}
use arun_work.Transport.Samples.{Line, line}
use arun_work.Lidar.Log.{Row}
use arun_work.Lidar.Log.Recording.{IsRecording}
use arun_work.Lidar.Samples.{message, scan, protobuf, index, fresh_recorder, scan-IsWireable}
use arun_work.Service.{
  Check, polling, Service, Answer, connect_with_stop_check, iterate, handle_scan, run,
}
use arun_work.Service.Main.{main, parse_arguments, start, first_connection, exit_status}
use arun_work.Service.Session.{record_live, rounds, round, session_status, deadline_of}
use arun_work.Base.Int.{pos, ◌+ℤ◌, ◌*ℤ◌}
use arun_work.Lidar.Codec.{to_proto, copy_floats, add_each}
use arun_work.Lidar.Framing.{u32_le}
use arun_work.Lidar.Feed.{publish_scan}
use arun_work.Transport.{publish}
use arun_work.Lidar.Log.Recorder.{record_scan, write, flush, end_offset, write_length_prefix}
use arun_work.Service.Attached.{IsAttached, run-IsAttached}
use arun_work.Service.Ledger.{run_ledger, run-IsRecording}

-- Behind one scan and thirteen timeouts.
abbrev service : Service (Unit {0}) (List Row) Line
service = record {
  phase = polling;
  stop_requested = false;
  connected = true;
  recorder = fresh_recorder;
  publisher = record {
    topic = codes "lidar.scan";
    publisher = record { sock = record { outcomes = []; incoming = [] }; dropped = 0 };
    wire = message 0;
  };
  recorded = 1;
  published = 1;
  last_reported = 0;
  reconnects = 0;
  ever_received = true;
  consecutive_timeouts = 13;
}

abbrev silence : Answer (Unit {0})
silence = record { sigint = false; scan = none; room = none; checks = [] }

abbrev not_yet : Check
not_yet = record { ready = none; stop = false }

-- Twice the future is not ready; then the constructor has thrown, or made a source.
abbrev refusal : Answer (Unit {0})
refusal = record silence {
  checks =
      not_yet
      ∷ not_yet
      ∷ record { ready = some (err (runtime_error (codes "no route"))); stop = false }
      ∷ [];
}

abbrev success : Answer (Unit {0})
success = record silence { checks = not_yet ∷ record { ready = some (ok tt); stop = false } ∷ [] }

-- A scan, a scan that the disk has no room for, and another scan.
abbrev answers : List (Answer (Unit {0}))
answers =
    record silence { scan = some (scan 5) }
    ∷ silence
    ∷ record silence { scan = some (scan 6); room = some 3 }
    ∷ record silence { scan = some (scan 7) }
    ∷ []

run-IsRecording_example :
    let t = run protobuf index line answers service in
    let after = run_ledger protobuf (message 0) index line answers service [] in
    IsRecording protobuf (message 0) index t.recorder after
    × (u64 (t.recorded + 0) ≡ u64 (1 + length after))
    × ((k : ℕ) × (k + 0 ≤ length after) × (u64 t.published ≡ u64 (1 + k)))
run-IsRecording_example =
    run-IsRecording protobuf (message 0) index line answers service []
      (scan-IsWireable 5, (tt, (scan-IsWireable 6, (scan-IsWireable 7, tt))))
      (record { clean = refl; held = tt })

run-IsAttached_example : IsAttached (run protobuf index line answers service)
run-IsAttached_example = run-IsAttached protobuf index line answers service refl

-- Too few arguments; and Ctrl+C after one scan, with the two defaults.
main_test :
    (main protobuf index line
        (λ log db. ok fresh_recorder)
        (λ endpoint topic. ok service.publisher)
        (record { ready = some (ok tt); stop = false } ∷ [])
        answers
        (codes "launch" ∷ codes "ip" ∷ [])
      ≡ some 1)
    × (main protobuf index line
          (λ log db. ok fresh_recorder)
          (λ endpoint topic. ok service.publisher)
          (not_yet ∷ record { ready = some (ok tt); stop = false } ∷ [])
          (record silence { scan = some (scan 5) } ∷ record silence { sigint = true } ∷ [])
          (codes "launch" ∷ codes "ip" ∷ codes "me" ∷ codes "log" ∷ codes "db" ∷ [])
        ≡ some 0)
unfolding main parse_arguments start first_connection exit_status connect_with_stop_check run
    iterate handle_scan record_scan write flush end_offset write_length_prefix u32_le to_proto
    copy_floats add_each publish_scan publish
main_test = (refl, refl)

-- A session of one second, in which nothing arrives.
session_test :
    record_live protobuf index (pos 0) (pos 1) fresh_recorder (
      record { now_ns = pos 5; scan = none; room = none }
      ∷ record { now_ns = pos 1_000_000_000; scan = some (scan 5); room = none }
      ∷ [])
    ≡ some 1
unfolding record_live rounds round session_status deadline_of ◌+ℤ◌ ◌*ℤ◌
session_test = refl
