-- ===== src/Lidar/Runs.antt =====
-- The recording and its queries, run on three scans of which the disk takes two.
mod Wire
mod Faults
mod Linked
use arun_work.Base.{
  ℕ, ◌≡◌, refl, List, [], ◌∷◌, ◌++◌, take, Option, none, some, Bytes, codes, ok, err, Exception,
  out_of_range, arith, true, false, All,
}
use arun_work.Base.Int.{pos, ◌-ℤ◌}
use arun_work.Base.Decimal.{decimal}
use arun_work.Lidar.Log.Recorder.{sqlite_error}
use arun_work.Lidar.Log.Opening.{
  RecorderAnswers, no_handles, open_recorder, finish_recorder, recorder_body, close_recorder,
}
use arun_work.Lidar.Log.Reopening.{IsTidy, Continues, recorder_handles, open_recorder-Continues}
use arun_work.Lidar.Scan.{Scan, PointCloud, LidarPointCloud}
use arun_work.Lidar.Codec.{
  to_proto, from_proto, copy_floats, add_each, from_proto-to_proto, cloud_to_proto,
  cloud_from_proto, cloud_from_proto-to_proto,
}
use arun_work.Lidar.Framing.{u32_le, put_u32_le}
use arun_work.Lidar.Replies.{encode_scans, encode_from, decode_scans}
use arun_work.Lidar.Replies.Trip.{IsWireable, decode_scans-encode_scans}
use arun_work.Lidar.Replies.Cuts.{IsRefused, decode_scans-cut}
use arun_work.Lidar.Log.{Row}
use arun_work.Lidar.Log.Recorder.{
  ScanRecorder, record_all, record_scan, write, flush, end_offset, write_length_prefix,
}
use arun_work.Lidar.Log.Reader.{ScanReader, count, get, find_by_time_range}
use arun_work.Lidar.Log.Indexed.{IsAt, IsRecorded}
use arun_work.Lidar.Log.Recording.{IsRecording, recorded, record_all-IsRecording}
use arun_work.Lidar.Log.Playback.{find_by_time_range_lem, get-inside, get-outside}
use arun_work.Lidar.Query.{ScanQueryServer, range, recent, latest}
use arun_work.Lidar.Query.Answers.{asked, range-handle, recent-handle, latest-handle}
use arun_work.Lidar.Samples.{message, scan, protobuf, index, fresh_recorder, scan-IsWireable}
use arun_work.Lidar.Samples.Kept.{log_file, rows, held, reader}
use arun_work.Base.Words.{u64}
use arun_work.Base.{runtime_error}
use arun_work.Transport.{Message, receive_request}
use arun_work.Transport.Stream.{parts_of}
use arun_work.Transport.Samples.{Line, line, line-IsQueue}
use arun_work.Lidar.Feed.{Subscriber}
use arun_work.Lidar.Feed.Delivery.{poll_each, poll_each-parts_of}
use arun_work.Lidar.Query.{serve, find_scans, same_text, latest_scans}
use arun_work.Lidar.Log.Reader.{columns, read_record, read_at}
use arun_work.Lidar.Query.Serving.{serve-throws}
use arun_work.Lidar.Sick.{BoundedQueue}

-- After the third scan the disk is full.
abbrev pub calls : List (Option ℕ × Scan (Unit {0}))
calls = (none, scan 5) ∷ (none, scan 9) ∷ (some 2, scan 12) ∷ []

pub calls-IsWireable : All (λ c. IsWireable protobuf (message 0) c.1) calls
calls-IsWireable = (scan-IsWireable 5, (scan-IsWireable 9, (scan-IsWireable 12, tt)))

abbrev pub recorder : ScanRecorder (Unit {0}) (List Row)
recorder = record_all protobuf index fresh_recorder calls

record_all-IsRecording_example :
    IsRecording protobuf
      (message 0)
      index
      recorder
      (recorded protobuf (message 0) index fresh_recorder calls [])
record_all-IsRecording_example =
    record_all-IsRecording protobuf (message 0) index fresh_recorder calls [] calls-IsWireable
      (record { clean = refl; held = tt })

recorder_test : (recorder.log.file ≡ log_file) × (recorder.db ≡ rows)
unfolding record_all record_scan write flush end_offset write_length_prefix u32_le to_proto
    copy_floats add_each
recorder_test = (refl, refl)

abbrev pub server : ScanQueryServer (List Row)
server = record { reader = reader; served_count = 0 }

range-handle_example :
    range protobuf (asked protobuf (message 0) index log_file server) (pos 6) (pos 20)
    ≡ (scan 9 ∷ [], true)
range-handle_example =
    range-handle protobuf (message 0) index log_file server (scan 5 ∷ scan 9 ∷ []) tt refl held
      (omega arith) (pos 6) (pos 20) (omega arith, omega arith) (omega arith, omega arith)

recent-handle_example :
    recent protobuf (asked protobuf (message 0) index log_file server) (pos 4)
    ≡ (scan 5 ∷ scan 9 ∷ [], true)
unfolding ◌-ℤ◌
recent-handle_example =
    recent-handle protobuf (message 0) index log_file server (scan 5 ∷ scan 9 ∷ []) tt refl held
      (omega arith) (pos 4) (omega arith, omega arith) (omega arith, omega arith)

latest-handle_example :
    latest protobuf (asked protobuf (message 0) index log_file server) ≡ (some (scan 9), true)
latest-handle_example =
    latest-handle protobuf (message 0) index log_file server (scan 5 ∷ scan 9 ∷ []) tt refl held
      (omega arith)
