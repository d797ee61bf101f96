-- ===== src/Header.antt =====
-- include/mw/message.hpp, src/message.cpp and proto/mw/envelope.proto: the header of every message.
-- Protobuf and the wall clock are parameters.
pub mod Stamps
mod Runs
use arun_work.Base.{
  ℕ, ◌+◌, ◌≡◌, Option, none, some, Bool, true, false, ltb, length, Bytes, codes, if◌then◌else◌,
}
use arun_work.Base.Int.{ℤ, pos}
use arun_work.Base.Words.{u64, i32_of}

pub record Header : Type 0 where
  pub schema_version : ℕ
  pub publisher : Bytes
  pub sequence : ℕ
  pub publish_time_ns : ℤ

abbrev pub schema_version : ℕ
schema_version = 1

-- The sequence number used, the header, and the counter after it; `now` is `wall_time_ns()`.
unfoldable pub stamp : ℤ → Header → Bytes → ℕ → ℕ × Header × ℕ
stamp now header publisher sequence = (
  sequence,
  record header {
    schema_version = schema_version;
    publisher = publisher;
    sequence = sequence;
    publish_time_ns = now;
  },
  u64 (sequence + 1),
)

pub data HeaderStatus : Type 0 where
  accepted not_parsable missing_header schema_too_new schema_too_old : HeaderStatus

pub to_string : HeaderStatus → Bytes
to_string accepted = codes "ok"
to_string not_parsable = codes "not parsable"
to_string missing_header = codes "missing header"
to_string schema_too_new = codes "schema too new"
to_string schema_too_old = codes "schema too old"

-- `parse_any` is `AnyHeader::ParseFromArray` with `has_header()`; the last result is `out`.
unfoldable pub peek_header :
    (Bytes → ℤ → Option (Option Header)) → Bytes → Header → HeaderStatus × Header
peek_header parse_any bytes out = elim (parse_any bytes (i32_of (length bytes))) [
  | none ↦ (not_parsable, out)
  | some any ↦ elim any [
    | none ↦ (missing_header, out)
    | some header ↦
        if ltb schema_version header.schema_version
        then (schema_too_new, out)
        else if ltb header.schema_version schema_version
        then (schema_too_old, out)
        else (accepted, header)
  ]
]
