-- ===== src/Lidar/Scan.antt =====
-- include/lidar/scan.hpp, include/lidar/point_cloud.hpp and the messages of proto/lidar_scan.proto
-- and proto/lidar_point_cloud.proto. `Float` stands for the machine's floats, which the code below
-- copies and compares.
use arun_work.Base.{ℕ, List, Bytes}
use arun_work.Base.Int.{ℤ}

pub record Scan (Float : Type 0) : Type 0 where
  pub frame_id : Bytes
  pub stamp_ns : ℤ
  pub scan_time_ns : ℤ
  pub time_increment_ns : ℤ
  pub angle_min : Float
  pub angle_max : Float
  pub angle_increment : Float
  pub range_min : Float
  pub range_max : Float
  pub echo_index : ℕ
  pub echo_count : ℕ
  pub ranges : List Float
  pub intensities : List Float

pub record LidarScan (Float : Type 0) : Type 0 where
  pub frame_id : Bytes
  pub stamp_ns : ℤ
  pub scan_time_ns : ℤ
  pub time_increment_ns : ℤ
  pub angle_min : Float
  pub angle_max : Float
  pub angle_increment : Float
  pub range_min : Float
  pub range_max : Float
  pub echo_index : ℕ
  pub echo_count : ℕ
  pub ranges : List Float
  pub intensities : List Float

pub record PointCloud (Float : Type 0) : Type 0 where
  pub frame_id : Bytes
  pub stamp_ns : ℤ
  pub scan_time_ns : ℤ
  pub range_min : Float
  pub range_max : Float
  pub ranges : List Float
  pub azimuths : List Float
  pub elevations : List Float
  pub intensities : List Float

pub record LidarPointCloud (Float : Type 0) : Type 0 where
  pub frame_id : Bytes
  pub stamp_ns : ℤ
  pub scan_time_ns : ℤ
  pub range_min : Float
  pub range_max : Float
  pub ranges : List Float
  pub azimuths : List Float
  pub elevations : List Float
  pub intensities : List Float
