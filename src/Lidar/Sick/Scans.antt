-- ===== src/Lidar/Sick/Scans.antt =====
-- src/sick_scan_source.cpp: a message of the driver becomes a scan, and the scan joins the queue.
use arun_work.Base.{
  ℕ, zero, suc, ◌-◌, ◌*◌, List, [], ◌∷◌, ◌++◌, Option, none, some, Bool, true, false, not, ◌||◌,
  length, ltb, ◌==◌, Bytes, codes, Result, ok, ◌>>=◌, if◌then◌else◌,
}
use arun_work.Base.Int.{ℤ, pos, pos_part, ltb_ℤ, ◌/ℤ◌}
use arun_work.Base.Words.{u8, u64}
use arun_work.Lidar.Scan.{Scan}
use arun_work.Lidar.Sick.Message.{
  SickScanPointCloudMsg, IFloat, Undefined, find_field_offset, find_intensity_offset, is_found,
  read_float, is_first_echo, add_intensity, if_readable, points_of, is_truncated, stamp_of,
  scan_time_of,
}

-- `SickScanSource::Config`
pub record ScanConfig (Float : Type 0) : Type 0 where
  pub hostname : Bytes
  pub udp_receiver_ip : Bytes
  pub launch_file : Bytes
  pub cloud_name : Bytes
  pub frame_id : Bytes
  pub queue_capacity : ℕ
  pub range_min : Float
  pub range_max : Float

-- The four lookups in `to_scan`.
pub record ScanOffsets : Type 0 where
  pub range : ℤ
  pub azimuth : ℤ
  pub intensity : ℤ
  pub echo : ℤ

unfoldable pub scan_offsets : SickScanPointCloudMsg → ScanOffsets
scan_offsets msg = record {
  range = find_field_offset msg.fields (codes "range");
  azimuth = find_field_offset msg.fields (codes "azimuth");
  intensity = find_intensity_offset msg.fields;
  echo = find_field_offset msg.fields (codes "echo");
}

-- The checks of `to_scan` that reject a message, but for its null buffer.
unfoldable pub is_unreadable_scan : ScanOffsets → SickScanPointCloudMsg → Bool
is_unreadable_scan offsets msg =
    not (is_found offsets.range)
    || not (is_found offsets.azimuth)
    || msg.point_step == 0
    || is_truncated msg

-- What the loop of `to_scan` has read; `azimuths` is its least and greatest azimuth, once there is a
-- point.
pub record Sweep (Float : Type 0) : Type 0 where
  pub ranges : List Float
  pub intensities : List Float
  pub azimuths : Option (Float × Float)

module _ {Float : Type 0} (float : IFloat Float) where
  abbrev pub widen : Option (Float × Float) → Float → Float × Float
  widen none azimuth = (azimuth, azimuth)
  widen (some (low, high)) azimuth = (float.min low azimuth, float.max high azimuth)

  -- A round of the loop for a point of the first echo, which begins at `point`.
  unfoldable pub read_point : Bytes → ScanOffsets → ℕ → Sweep Float → Result Undefined (Sweep Float)
  read_point buffer offsets point sweep = do
    range ← read_float float buffer point offsets.range
    azimuth ← read_float float buffer point offsets.azimuth
    intensities ← add_intensity float buffer offsets.intensity point sweep.intensities
    ok (record {
      ranges = sweep.ranges ++ range ∷ [];
      intensities = intensities;
      azimuths = some (widen sweep.azimuths azimuth);
    })

  -- A round of the loop.
  unfoldable pub add_point : Bytes → ScanOffsets → ℕ → Sweep Float → Result Undefined (Sweep Float)
  add_point buffer offsets point sweep = do
    first ← is_first_echo buffer point offsets.echo
    elim first [ false ↦ ok sweep | true ↦ read_point buffer offsets point sweep ]

  -- The rounds that are left, from point `i` on.
  unfoldable pub add_points :
      Bytes → ScanOffsets → ℕ → ℕ → ℕ → Sweep Float → Result Undefined (Sweep Float)
  add_points buffer offsets step zero i sweep = ok sweep
  add_points buffer offsets step (suc left) i sweep = do
    more ← add_point buffer offsets (u64 (i * step)) sweep
    add_points buffer offsets step left (suc i) more

  -- What `to_scan` reads of the points, if the message is one it can read.
  unfoldable pub read_sweep : SickScanPointCloudMsg → Result Undefined (Option (Sweep Float))
  read_sweep msg =
      let offsets = scan_offsets msg in
      if_readable (is_unreadable_scan offsets msg) msg.buffer λ buffer.
        add_points buffer offsets msg.point_step (points_of msg) 0
          (record { ranges = []; intensities = []; azimuths = none })

  abbrev pub lowest : Option (Float × Float) → Float
  lowest none = float.of_ℕ 0
  lowest (some (low, high)) = low

  abbrev pub highest : Option (Float × Float) → Float
  highest none = float.of_ℕ 0
  highest (some (low, high)) = high

  -- The assignments of `to_scan`, behind its loop.
  unfoldable pub assign_scan :
      ScanConfig Float → SickScanPointCloudMsg → ℤ → Sweep Float → Scan Float → Scan Float
  assign_scan cfg msg previous sweep out =
      let scan_time_ns = scan_time_of previous (stamp_of msg) in
      let count = length sweep.ranges in
      let angle_min = lowest sweep.azimuths in
      let angle_max = highest sweep.azimuths in
      record out {
        frame_id = cfg.frame_id;
        stamp_ns = stamp_of msg;
        scan_time_ns = scan_time_ns;
        time_increment_ns = if count == 0 then pos 0 else scan_time_ns /ℤ pos count;
        angle_min = angle_min;
        angle_max = angle_max;
        angle_increment =
            if ltb 1 count
            then float.divided_by (float.minus angle_max angle_min) (float.of_ℕ (count - 1))
            else float.of_ℕ 0;
        range_min = cfg.range_min;
        range_max = cfg.range_max;
        echo_index = 0;
        echo_count = if ltb_ℤ (pos 0) msg.num_echos then u8 (pos_part msg.num_echos) else 1;
        ranges = sweep.ranges;
        intensities = sweep.intensities;
      }

  -- `none` for a message without a scan; else the scan, and `last_stamp_ns`.
  unfoldable pub to_scan :
      ScanConfig Float
      → SickScanPointCloudMsg
      → ℤ
      → Scan Float
      → Result Undefined (Option (Scan Float × ℤ))
  to_scan cfg msg last_stamp_ns out = do
    sweep ← read_sweep msg
    ok (elim sweep [
      | none ↦ none
      | some read ↦ some (assign_scan cfg msg last_stamp_ns read out, stamp_of msg)
    ])

  -- `Impl` behind its constructor, less what the destructor needs.
  unfoldable pub default_scan : Scan Float
  default_scan = record {
    frame_id = [];
    stamp_ns = pos 0;
    scan_time_ns = pos 0;
    time_increment_ns = pos 0;
    angle_min = float.of_ℕ 0;
    angle_max = float.of_ℕ 0;
    angle_increment = float.of_ℕ 0;
    range_min = float.of_ℕ 0;
    range_max = float.of_ℕ 0;
    echo_index = 0;
    echo_count = 1;
    ranges = [];
    intensities = [];
  }
