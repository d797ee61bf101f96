-- ===== src/Lidar/Samples/Kept.antt =====
-- A recording of two scans, with the start of a third one that the disk had no room for.
use arun_work.Base.{refl, List, [], ◌∷◌, Bytes, false}
use arun_work.Base.Int.{pos}
use arun_work.Lidar.Codec.{to_proto, copy_floats, add_each}
use arun_work.Lidar.Framing.{u32_le}
use arun_work.Lidar.Log.{Row}
use arun_work.Lidar.Log.Reader.{ScanReader}
use arun_work.Lidar.Log.Indexed.{IsAt, IsRecorded}
use arun_work.Lidar.Samples.{message, scan, protobuf, scan-IsWireable}

abbrev pub log_file : Bytes
log_file = 1 ∷ 0 ∷ 0 ∷ 0 ∷ 5 ∷ 1 ∷ 0 ∷ 0 ∷ 0 ∷ 9 ∷ 1 ∷ 0 ∷ []

abbrev pub rows : List Row
rows =
    record { seq = 1; stamp_ns = pos 5; offset = pos 0; length = pos 1; sample_count = pos 1 }
    ∷ record { seq = 2; stamp_ns = pos 9; offset = pos 5; length = pos 1; sample_count = pos 1 }
    ∷ []

pub held : IsRecorded protobuf (message 0) log_file 1 rows (scan 5 ∷ scan 9 ∷ [])
unfolding u32_le to_proto copy_floats add_each
held = (refl, first, (refl, second, tt))
  where
    first :
        IsAt protobuf
          (message 0)
          log_file
          (record {
            seq = 1;
            stamp_ns = pos 5;
            offset = pos 0;
            length = pos 1;
            sample_count = pos 1;
          })
          (scan 5)
    first = record {
      before = [];
      after = 1 ∷ 0 ∷ 0 ∷ 0 ∷ 9 ∷ 1 ∷ 0 ∷ [];
      there = refl;
      offset = refl;
      size = refl;
      stamp = refl;
      wireable = scan-IsWireable 5;
    }

    second :
        IsAt protobuf
          (message 0)
          log_file
          (record {
            seq = 2;
            stamp_ns = pos 9;
            offset = pos 5;
            length = pos 1;
            sample_count = pos 1;
          })
          (scan 9)
    second = record {
      before = 1 ∷ 0 ∷ 0 ∷ 0 ∷ 5 ∷ [];
      after = 1 ∷ 0 ∷ [];
      there = refl;
      offset = refl;
      size = refl;
      stamp = refl;
      wireable = scan-IsWireable 9;
    }

abbrev pub reader : ScanReader (List Row)
reader = record { failed = false; db = rows }
