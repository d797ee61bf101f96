-- ===== src/Header/Runs.antt =====
-- src/message.cpp on bytes that stand for one header.
use arun_work.Base.{[], ◌∷◌, Option, none, some, Bytes, codes}
use arun_work.Base.Int.{ℤ, pos}
use arun_work.Header.{Header, stamp, peek_header}
use arun_work.Header.Stamps.{IsSafe, peek_header-IsSafe}

abbrev empty : Header
empty = record { schema_version = 0; publisher = []; sequence = 0; publish_time_ns = pos 0 }

abbrev parse_any : Bytes → ℤ → Option (Option Header)
parse_any (n ∷ []) (pos size) = some (some (stamp (pos 9) empty (codes "lidar") 3).1)
parse_any _ _ = none

peek_header-IsSafe_example : IsSafe parse_any (7 ∷ []) empty (peek_header parse_any (7 ∷ []) empty)
peek_header-IsSafe_example = peek_header-IsSafe parse_any (7 ∷ []) empty
