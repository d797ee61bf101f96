-- ===== src/Lidar/Sick/Clouds.antt =====
-- src/sick_cloud_source.cpp: a message of the driver becomes a point cloud.
use arun_work.Base.{
  ℕ, zero, suc, ◌*◌, List, [], ◌∷◌, ◌++◌, Option, none, some, Bool, true, false, not, ◌||◌, ◌==◌,
  Bytes, codes, Result, ok, ◌>>=◌,
}
use arun_work.Base.Int.{ℤ, pos}
use arun_work.Base.Words.{u64}
use arun_work.Lidar.Scan.{PointCloud}
use arun_work.Lidar.Sick.Message.{
  SickScanPointCloudMsg, IFloat, Undefined, find_field_offset, find_intensity_offset, is_found,
  read_float, is_first_echo, add_intensity, if_readable, points_of, is_truncated, stamp_of,
  scan_time_of,
}

-- `SickCloudSource::Config`
pub record CloudConfig (Float : Type 0) : Type 0 where
  pub hostname : Bytes
  pub udp_receiver_ip : Bytes
  pub launch_file : Bytes
  pub cloud_name : Bytes
  pub frame_id : Bytes
  pub queue_capacity : ℕ
  pub range_min : Float
  pub range_max : Float
  pub udp_port : ℤ
  pub imu_udp_port : ℤ

-- The five lookups in `to_cloud`.
pub record CloudOffsets : Type 0 where
  pub range : ℤ
  pub azimuth : ℤ
  pub elevation : ℤ
  pub intensity : ℤ
  pub echo : ℤ

unfoldable pub cloud_offsets : SickScanPointCloudMsg → CloudOffsets
cloud_offsets msg = record {
  range = find_field_offset msg.fields (codes "range");
  azimuth = find_field_offset msg.fields (codes "azimuth");
  elevation = find_field_offset msg.fields (codes "elevation");
  intensity = find_intensity_offset msg.fields;
  echo = find_field_offset msg.fields (codes "echo");
}

-- The checks of `to_cloud` that reject a message, but for its null buffer.
unfoldable pub is_unreadable_cloud : CloudOffsets → SickScanPointCloudMsg → Bool
is_unreadable_cloud offsets msg =
    not (is_found offsets.range)
    || not (is_found offsets.azimuth)
    || not (is_found offsets.elevation)
    || msg.point_step == 0
    || is_truncated msg

-- What the loop of `to_cloud` has read.
pub record Points (Float : Type 0) : Type 0 where
  pub ranges : List Float
  pub azimuths : List Float
  pub elevations : List Float
  pub intensities : List Float

-- The assignments of `to_cloud`, behind its loop.
unfoldable pub assign_cloud :
    {Float : Type 0}
    → CloudConfig Float
    → SickScanPointCloudMsg
    → ℤ
    → Points Float
    → PointCloud Float
    → PointCloud Float
assign_cloud cfg msg previous points out = record out {
  frame_id = cfg.frame_id;
  stamp_ns = stamp_of msg;
  scan_time_ns = scan_time_of previous (stamp_of msg);
  range_min = cfg.range_min;
  range_max = cfg.range_max;
  ranges = points.ranges;
  azimuths = points.azimuths;
  elevations = points.elevations;
  intensities = points.intensities;
}

module _ {Float : Type 0} (float : IFloat Float) where
  -- A round of the loop for a point of the first echo, which begins at `point`.
  unfoldable pub read_cloud_point :
      Bytes → CloudOffsets → ℕ → Points Float → Result Undefined (Points Float)
  read_cloud_point buffer offsets point points = do
    range ← read_float float buffer point offsets.range
    azimuth ← read_float float buffer point offsets.azimuth
    elevation ← read_float float buffer point offsets.elevation
    intensities ← add_intensity float buffer offsets.intensity point points.intensities
    ok (record {
      ranges = points.ranges ++ range ∷ [];
      azimuths = points.azimuths ++ azimuth ∷ [];
      elevations = points.elevations ++ elevation ∷ [];
      intensities = intensities;
    })

  -- A round of the loop.
  unfoldable pub add_cloud_point :
      Bytes → CloudOffsets → ℕ → Points Float → Result Undefined (Points Float)
  add_cloud_point buffer offsets point points = do
    first ← is_first_echo buffer point offsets.echo
    elim first [ false ↦ ok points | true ↦ read_cloud_point buffer offsets point points ]

  -- The rounds that are left, from point `i` on.
  unfoldable pub add_cloud_points :
      Bytes → CloudOffsets → ℕ → ℕ → ℕ → Points Float → Result Undefined (Points Float)
  add_cloud_points buffer offsets step zero i points = ok points
  add_cloud_points buffer offsets step (suc left) i points = do
    more ← add_cloud_point buffer offsets (u64 (i * step)) points
    add_cloud_points buffer offsets step left (suc i) more

  -- What `to_cloud` reads of the points, if the message is one it can read.
  unfoldable pub read_points : SickScanPointCloudMsg → Result Undefined (Option (Points Float))
  read_points msg =
      let offsets = cloud_offsets msg in
      if_readable (is_unreadable_cloud offsets msg) msg.buffer λ buffer.
        add_cloud_points buffer offsets msg.point_step (points_of msg) 0
          (record { ranges = []; azimuths = []; elevations = []; intensities = [] })

  -- `none` for a message without a cloud; else the cloud, and `last_stamp_ns`.
  unfoldable pub to_cloud :
      CloudConfig Float
      → SickScanPointCloudMsg
      → ℤ
      → PointCloud Float
      → Result Undefined (Option (PointCloud Float × ℤ))
  to_cloud cfg msg last_stamp_ns out = do
    points ← read_points msg
    ok (elim points [
      | none ↦ none
      | some read ↦ some (assign_cloud cfg msg last_stamp_ns read out, stamp_of msg)
    ])

  unfoldable pub default_cloud : PointCloud Float
  default_cloud = record {
    frame_id = [];
    stamp_ns = pos 0;
    scan_time_ns = pos 0;
    range_min = float.of_ℕ 0;
    range_max = float.of_ℕ 0;
    ranges = [];
    azimuths = [];
    elevations = [];
    intensities = [];
  }
