-- ===== src/Lidar/Replies.antt =====
-- src/query_wire.cpp: the framed reply of a query, a count and then each scan behind its length.
-- The protobuf library is a parameter. Positions do not wrap: no buffer reaches 2 ^ 63 bytes.
pub mod Trip
pub mod Cuts
use arun_work.Base.{
  ℕ, zero, suc, ◌+◌, ◌<◌, ◌^◌, ◌≡◌, List, [], ◌∷◌, ◌++◌, Option, none, some, Bool, true, false, ltb,
  length, drop, Bytes, codes, Exception, runtime_error, Result, ok, err, ◌>>=◌, if◌then◌else◌, ◌-◌,
  ◌%◌,
}
use arun_work.Base.Int.{ℤ, pos}
use arun_work.Base.Words.{u32, i32_of}
use arun_work.Lidar.Scan.{Scan, LidarScan}
use arun_work.Lidar.Codec.{to_proto, from_proto, IsScan}
use arun_work.Lidar.Framing.{put_u32_le, get_u32_le}

-- What the code asks of protobuf for one type of message: `SerializeAsString`,
-- `ParseFromString` and `ParseFromArray`, and that a message which the format can carry comes back
-- from its own encoding, in an array too that goes on behind it.
pub record IProtobuf (Msg : Type 0) : Type 1 where
  pub serialize : Msg → Bytes
  pub parse : Bytes → Option Msg
  pub parse_array : Bytes → ℤ → Option Msg
  pub IsEncodable : Msg → Type 0
  pub size_bound : (m : Msg) → IsEncodable m → length (serialize m) < 2 ^ 31
  pub parse-serialize : (m : Msg) → IsEncodable m → parse (serialize m) ≡ some m
  pub parse_array-serialize :
      (m : Msg) (rest : Bytes)
      → IsEncodable m
      → parse_array (serialize m ++ rest) (pos (length (serialize m))) ≡ some m

module _ {Float : Type 0} (protobuf : IProtobuf (LidarScan Float)) where
  open protobuf use {serialize, parse_array}

  -- The loop of `encode_scans`, with the reused message.
  unfoldable pub encode_from : Bytes → LidarScan Float → List (Scan Float) → Bytes
  encode_from out wire [] = out
  encode_from out wire (scan ∷ scans) =
      let wire' = to_proto scan wire in
      let bytes = serialize wire' in
      encode_from (put_u32_le out (u32 (length bytes)) ++ bytes) wire' scans

  -- `fresh` is a message as its constructor leaves it.
  unfoldable pub encode_scans : LidarScan Float → List (Scan Float) → Bytes
  encode_scans fresh scans = encode_from (put_u32_le [] (u32 (length scans))) fresh scans

  -- The loop of `decode_scans`, for the scans still to read.
  unfoldable pub decode_from : Bytes → ℕ → ℕ → Result Exception (List (Scan Float))
  decode_from bytes at zero = ok []
  decode_from bytes at (suc n) =
      let declared = get_u32_le bytes at in
      elim (ltb (length bytes) (at + 4)) [
        | true ↦ err (runtime_error (codes "lidar::decode_scans: truncated before a length prefix"))
        | false ↦ elim (ltb (length bytes) (at + 4 + declared)) [
          | true ↦
              err (
                runtime_error (codes "lidar::decode_scans: truncated before a scan's declared end"))
          | false ↦ elim (parse_array (drop (at + 4) bytes) (i32_of declared)) [
            | none ↦ err (
                runtime_error
                  (codes "lidar::decode_scans: a scan's bytes did not parse as protobuf"))
            | some wire ↦
                decode_from bytes (at + 4 + declared) n >>= λ scans. ok (from_proto wire ∷ scans)
          ]
        ]
      ]

  unfoldable pub decode_scans : Bytes → Result Exception (List (Scan Float))
  decode_scans bytes = elim (ltb (length bytes) 4) [
    | true ↦ err (runtime_error (codes "lidar::decode_scans: response shorter than a count prefix"))
    | false ↦ decode_from bytes 4 (get_u32_le bytes 0)
  ]
