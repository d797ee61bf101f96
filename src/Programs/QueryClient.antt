-- ===== src/Programs/QueryClient.antt =====
-- apps/scan_query_client_demo.cpp: one question to the query service. `atoll` and the request are
-- parameters.
pub mod Answered
use arun_work.Base.{
  ℕ, List, [], ◌∷◌, Option, none, some, Bool, true, false, Bytes, codes, Exception, Result,
}
use arun_work.Base.Int.{ℤ}
use arun_work.Lidar.Scan.{Scan, LidarScan}
use arun_work.Lidar.Replies.{IProtobuf}
use arun_work.Lidar.Query.{same_text, latest, range}

-- What is printed, and with that the status that the process ends with.
pub data Reply (Float : Type 0) : Type 0 where
  usage no_reply nothing_recorded : Reply Float
  unrecognised : Bytes → Reply Float
  the_latest : Scan Float → Reply Float
  in_range : List (Scan Float) → Reply Float

unfoldable pub reply_status : {Float : Type 0} → Reply Float → ℕ
reply_status usage = 1
reply_status no_reply = 1
reply_status nothing_recorded = 0
reply_status (unrecognised command) = 1
reply_status (the_latest scan) = 0
reply_status (in_range scans) = 0

module _ {Float : Type 0} (protobuf : IProtobuf (LidarScan Float))
    (ask : Bytes → Result Exception (Option Bytes)) (atoll : Bytes → ℤ) where
  abbrev pub latest_reply : Option (Scan Float) × Bool → Reply Float
  latest_reply (scan, false) = no_reply
  latest_reply (none, true) = nothing_recorded
  latest_reply (some scan, true) = the_latest scan

  abbrev pub range_reply : List (Scan Float) × Bool → Reply Float
  range_reply (scans, false) = no_reply
  range_reply (scans, true) = in_range scans

  -- A command that is not `latest`, with what follows it.
  unfoldable pub other_command : Bytes → List Bytes → Reply Float
  other_command command (start ∷ end ∷ rest) = elim (same_text command (codes "range")) [
    | true ↦ range_reply (range protobuf ask (atoll start) (atoll end))
    | false ↦ unrecognised command
  ]
  other_command command _ = unrecognised command

  -- The arguments are those behind the program's name.
  unfoldable pub query : List Bytes → Reply Float
  query (endpoint ∷ command ∷ rest) = elim (same_text command (codes "latest")) [
    | true ↦ latest_reply (latest protobuf ask)
    | false ↦ other_command command rest
  ]
  query _ = usage
