-- ===== src/Lidar/Codec.antt =====
-- src/scan_codec.cpp and src/cloud_codec.cpp: between the program's structs and the messages.
-- The message that is written to is an argument, since its callers use one for many scans.
use arun_work.Base.{
  ℕ, ◌≡◌, ◌<◌, refl, ◌∙◌, List, [], ◌∷◌, ◌++◌, append_assoc, append-nil, sym, arith,
}
use arun_work.Base.Words.{u8}
use arun_work.Lidar.Scan.{Scan, LidarScan, PointCloud, LidarPointCloud}

-- The loop that adds to a repeated field.
unfoldable pub add_each : {Float : Type 0} → List Float → List Float → List Float
add_each [] to = to
add_each (v ∷ vs) to = add_each vs (to ++ v ∷ [])

-- `Clear()` and the loop.
unfoldable pub copy_floats : {Float : Type 0} → List Float → List Float → List Float
copy_floats from to = add_each from []

unfoldable pub to_proto : {Float : Type 0} → Scan Float → LidarScan Float → LidarScan Float
to_proto scan out = record out {
  frame_id = scan.frame_id;
  stamp_ns = scan.stamp_ns;
  scan_time_ns = scan.scan_time_ns;
  time_increment_ns = scan.time_increment_ns;
  angle_min = scan.angle_min;
  angle_max = scan.angle_max;
  angle_increment = scan.angle_increment;
  range_min = scan.range_min;
  range_max = scan.range_max;
  echo_index = scan.echo_index;
  echo_count = scan.echo_count;
  ranges = copy_floats scan.ranges out.ranges;
  intensities = copy_floats scan.intensities out.intensities;
}

unfoldable pub from_proto : {Float : Type 0} → LidarScan Float → Scan Float
from_proto msg = record {
  frame_id = msg.frame_id;
  stamp_ns = msg.stamp_ns;
  scan_time_ns = msg.scan_time_ns;
  time_increment_ns = msg.time_increment_ns;
  angle_min = msg.angle_min;
  angle_max = msg.angle_max;
  angle_increment = msg.angle_increment;
  range_min = msg.range_min;
  range_max = msg.range_max;
  echo_index = u8 msg.echo_index;
  echo_count = u8 msg.echo_count;
  ranges = msg.ranges;
  intensities = msg.intensities;
}

unfoldable pub cloud_to_proto :
    {Float : Type 0} → PointCloud Float → LidarPointCloud Float → LidarPointCloud Float
cloud_to_proto cloud out = record out {
  frame_id = cloud.frame_id;
  stamp_ns = cloud.stamp_ns;
  scan_time_ns = cloud.scan_time_ns;
  range_min = cloud.range_min;
  range_max = cloud.range_max;
  ranges = copy_floats cloud.ranges out.ranges;
  azimuths = copy_floats cloud.azimuths out.azimuths;
  elevations = copy_floats cloud.elevations out.elevations;
  intensities = copy_floats cloud.intensities out.intensities;
}

unfoldable pub cloud_from_proto : {Float : Type 0} → LidarPointCloud Float → PointCloud Float
cloud_from_proto msg = record {
  frame_id = msg.frame_id;
  stamp_ns = msg.stamp_ns;
  scan_time_ns = msg.scan_time_ns;
  range_min = msg.range_min;
  range_max = msg.range_max;
  ranges = msg.ranges;
  azimuths = msg.azimuths;
  elevations = msg.elevations;
  intensities = msg.intensities;
}

module _ {Float : Type 0} where
  add_each_lem : (vs to : List Float) → add_each vs to ≡ to ++ vs
  unfolding add_each
  add_each_lem [] to = sym (append-nil to)
  add_each_lem (v ∷ vs) to = add_each_lem vs (to ++ v ∷ []) ∙ append_assoc to (v ∷ []) vs

  copy_floats_lem : (vs to : List Float) → copy_floats vs to ≡ vs
  unfolding copy_floats
  copy_floats_lem vs to = add_each_lem vs []

  -- What the type `std::uint8_t` of the two echo fields says.
  abbrev pub IsScan : Scan Float → Type 0
  IsScan scan = (scan.echo_index < 256) × (scan.echo_count < 256)

  -- A scan comes back from its message as it was, whatever message the caller reused.
  pub from_proto-to_proto :
      (scan : Scan Float) (out : LidarScan Float)
      → IsScan scan
      → from_proto (to_proto scan out) ≡ scan
  unfolding to_proto from_proto
  from_proto-to_proto scan out h =
      rw
        (
          copy_floats_lem scan.ranges out.ranges,
          copy_floats_lem scan.intensities out.intensities,
          small scan.echo_index h.0,
          small scan.echo_count h.1,
        )
        refl
    where
      small : (n : ℕ) → n < 256 → u8 n ≡ n
      small n k = omega arith

  -- So does a point cloud: each of its four arrays is copied to its own field.
  pub cloud_from_proto-to_proto :
      (cloud : PointCloud Float) (out : LidarPointCloud Float)
      → cloud_from_proto (cloud_to_proto cloud out) ≡ cloud
  unfolding cloud_to_proto cloud_from_proto
  cloud_from_proto-to_proto cloud out =
      rw
        (
          copy_floats_lem cloud.ranges out.ranges,
          copy_floats_lem cloud.azimuths out.azimuths,
          copy_floats_lem cloud.elevations out.elevations,
          copy_floats_lem cloud.intensities out.intensities,
        )
        refl

  -- Nothing of the reused message's old contents is left in it.
  pub to_proto-fresh :
      (scan : Scan Float) (out out' : LidarScan Float) → to_proto scan out ≡ to_proto scan out'
  unfolding to_proto copy_floats
  to_proto-fresh scan out out' = refl
