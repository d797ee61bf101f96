-- ===== src/Programs/Runs/Watching.antt =====
-- apps/scan_publisher_main.cpp, apps/scan_subscriber_main.cpp and apps/lidar_monitor_main.cpp: small
-- runs.
use arun_work.Base.{◌+◌, ◌≡◌, refl, List, [], ◌∷◌, none, some, false, arith}
use arun_work.Base.Int.{pos, ◌-ℤ◌}
use arun_work.Base.Words.{u64}
use arun_work.Transport.{Message, failed}
use arun_work.Transport.Stream.{parts_of}
use arun_work.Transport.Samples.{Line, line, line-IsQueue}
use arun_work.Lidar.Codec.{from_proto}
use arun_work.Lidar.Log.{Row}
use arun_work.Lidar.Feed.{ScanPublisher, poll_scan}
use arun_work.Lidar.Query.{ScanQueryServer}
use arun_work.Lidar.Query.Answers.{asked}
use arun_work.Lidar.Samples.{message, scan, protobuf, index}
use arun_work.Lidar.Samples.Kept.{log_file, rows, held, reader}
use arun_work.Programs.Broadcast.{Broadcast, publish_scans}
use arun_work.Programs.Broadcast.Counted.{publish_scans-counts}
use arun_work.Programs.Listening.{Listener, hear_scans}
use arun_work.Programs.Listening.Shown.{shown_of, hear_scans-shown}
use arun_work.Programs.Monitor.{Moment, Monitor, latest_scan, watch}
use arun_work.Programs.Monitor.Honest.{none_yet, came, watch-honest}

-- The first publication fails.
abbrev broadcasting : Broadcast (ScanPublisher (Unit {0}) Line)
broadcasting = record {
  publisher = record {
    topic = 1 ∷ [];
    publisher = record { sock = record { outcomes = failed ∷ []; incoming = [] }; dropped = 0 };
    wire = message 0;
  };
  published = 0;
  last_reported = 0;
}

publish_scans-counts_example :
    let s' = publish_scans line protobuf (some (scan 5) ∷ none ∷ some (scan 9) ∷ []) broadcasting in
    u64 (s'.published + s'.publisher.publisher.dropped) ≡ u64 2
publish_scans-counts_example =
    publish_scans-counts line protobuf (some (scan 5) ∷ none ∷ some (scan 9) ∷ []) broadcasting

-- A scan, a message that carries none, and another scan.
abbrev arrived : List Message
arrived =
    record { topic = []; payload = 5 ∷ [] }
    ∷ record { topic = []; payload = [] }
    ∷ record { topic = []; payload = 9 ∷ [] }
    ∷ []

abbrev listener : Listener Line
listener = record {
  subscriber = record {
    sock = record { outcomes = []; incoming = parts_of arrived };
    malformed = 0;
  };
  received = 0;
  idle_polls = 0;
}

hear_scans-shown_example :
    shown_of (hear_scans line protobuf 3 listener).0 ≡ (1, scan 5) ∷ (2, scan 9) ∷ []
unfolding from_proto
hear_scans-shown_example =
    hear_scans-shown line protobuf (λ s. s.incoming) line-IsQueue arrived listener refl
      (omega arith)

abbrev server : ScanQueryServer (List Row)
server = record { reader = reader; served_count = 0 }

abbrev moment : Moment (List Row)
moment = record {
  sigint = false;
  now_ns = pos 20_000_000_000;
  db = rows;
  ask = asked protobuf (message 0) index log_file server;
}

abbrev monitoring : Monitor (List Row) Line
monitoring = record {
  reader = reader;
  subscriber = listener.subscriber;
  live_received = 0;
  last_status = pos 10_000_000_000;
}

watch-honest_example :
    let (printed, thrown, m') = watch protobuf index line moment monitoring in
    let live = (poll_scan line protobuf (pos 300) monitoring.subscriber).0 in
    (thrown ≡ none)
    × (printed ≡ record {
      live = live;
      status = some (latest_scan 2 (scan 9), none_yet protobuf (message 0) index line live 0);
    })
    × (m'.live_received ≡ 0 + came protobuf (message 0) index line live)
unfolding ◌-ℤ◌
watch-honest_example =
    watch-honest protobuf (message 0) index line moment monitoring log_file server
      (scan 5 ∷ scan 9 ∷ []) refl tt refl held tt refl refl (omega arith) (omega arith) refl
