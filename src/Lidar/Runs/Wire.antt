-- ===== src/Lidar/Runs/Wire.antt =====
-- Scans and clouds on the wire, run on small examples.
use arun_work.Base.{◌≡◌, List, [], ◌∷◌, ◌++◌, take, ok, arith}
use arun_work.Lidar.Scan.{Scan}
use arun_work.Lidar.Framing.{u32_le, put_u32_le}
use arun_work.Lidar.Replies.{encode_scans, encode_from, decode_scans}
use arun_work.Lidar.Replies.Trip.{decode_scans-encode_scans}
use arun_work.Lidar.Replies.Cuts.{IsRefused, decode_scans-cut}
use arun_work.Lidar.Samples.{message, scan, protobuf, scan-IsWireable}

abbrev scans : List (Scan (Unit {0}))
scans = scan 5 ∷ scan 9 ∷ []

decode_scans-encode_scans_example :
    decode_scans protobuf (encode_scans protobuf (message 0) scans ++ 1 ∷ 2 ∷ []) ≡ ok scans
decode_scans-encode_scans_example =
    decode_scans-encode_scans protobuf (message 0) scans (1 ∷ 2 ∷ [])
      (scan-IsWireable 5, (scan-IsWireable 9, tt)) (omega arith)

decode_scans-cut_example :
    IsRefused (decode_scans protobuf (take 12 (encode_scans protobuf (message 0) scans)))
unfolding encode_scans encode_from put_u32_le u32_le
decode_scans-cut_example =
    decode_scans-cut protobuf (message 0) scans 12 (scan-IsWireable 5, (scan-IsWireable 9, tt))
      (omega arith) (omega arith)
