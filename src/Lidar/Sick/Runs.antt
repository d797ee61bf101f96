-- ===== src/Lidar/Sick/Runs.antt =====
-- Messages of a driver, and a driver, to run the sources with: a float is its four bytes.
use arun_work.Base.{
  ℕ, ◌+◌, ◌≡◌, refl, List, [], ◌∷◌, ◌++◌, replicate, Option, none, some, true, Bytes, codes, ok,
  err, arith, if◌then◌else◌,
}
use arun_work.Base.Int.{ℤ, pos, ◌-ℤ◌, ◌/ℤ◌}
use arun_work.Lidar.Query.{same_text}
use arun_work.Lidar.Scan.{Scan, PointCloud}
use arun_work.Lidar.Sick.Message.{
  SickScanPointField, SickScanPointCloudMsg, IFloat, find_field_offset, find_intensity_offset,
  read_field, read_float, is_first_echo, add_intensity, if_readable, stamp_of, scan_time_of,
  out_of_bounds,
}
use arun_work.Lidar.Sick.Scans.{
  ScanConfig, scan_offsets, is_unreadable_scan, add_points, add_point, read_point, read_sweep,
  assign_scan, to_scan, default_scan,
}
use arun_work.Lidar.Sick.Clouds.{CloudConfig, to_cloud, default_cloud}
use arun_work.Lidar.Sick.Fields.{IsSane}
use arun_work.Lidar.Sick.Shape.{IfSome}
use arun_work.Lidar.Sick.Converted.{
  IsConsistent, IsConsistentCloud, to_scan-IsConsistent, to_cloud-IsConsistentCloud,
}
use arun_work.Lidar.Sick.Source.{Impl, connected, scan_conversion}
use arun_work.Lidar.Sick.Contract.{Op, arrived, polled, run, window, run-window}
use arun_work.Lidar.Sick.Driver.{
  ISickScanApi, note, publish_self, unregister_self, connect, register_callback, start_driver,
  disconnect,
}
use arun_work.Lidar.Sick.Lifetime.{is_live, IsSafe, IsFresh}
use arun_work.Lidar.Sick.Lives.{
  Sources, none_yet, opened, ended, Reach, here, next, taken, given_back, times, Reach-IsSafe,
  Reach-taken,
}

abbrev float : IFloat Bytes
float = record {
  of_bytes = λ bytes. bytes;
  of_ℕ = λ n. n ∷ [];
  min = λ a b. a;
  max = λ a b. b;
  minus = λ a b. a;
  divided_by = λ a b. a;
}

abbrev field : ℕ → Bytes → SickScanPointField
field offset name = record { name = name; offset = offset }

abbrev point : ℕ → ℕ → Bytes
point n echo = replicate 16 n ++ echo ∷ []

-- Three points, of which the last one is a later echo.
abbrev cloud_msg : SickScanPointCloudMsg
cloud_msg = record {
  timestamp_sec = 7;
  timestamp_nsec = 40;
  width = 3;
  height = 1;
  fields =
      field 0 (codes "i")
      ∷ field 4 (codes "range")
      ∷ field 8 (codes "azimuth")
      ∷ field 12 (codes "elevation")
      ∷ field 16 (codes "echo")
      ∷ [];
  point_step = 17;
  buffer = some (point 1 0 ++ (point 2 0 ++ point 3 1));
  size = 51;
  num_echos = pos 1;
}

cloud_msg-IsSane : IsSane cloud_msg
unfolding same_text
cloud_msg-IsSane = (
  (omega arith, (omega arith, (omega arith, (omega arith, (omega arith, tt))))),
  omega arith,
  omega arith,
  omega arith,
)

abbrev scan_config : ScanConfig Bytes
scan_config = record {
  hostname = codes "192.168.0.1";
  udp_receiver_ip = codes "192.168.0.2";
  launch_file = codes "sick_picoscan.launch";
  cloud_name = codes "cloud";
  frame_id = codes "picoscan150";
  queue_capacity = 1;
  range_min = 0 ∷ [];
  range_max = 9 ∷ [];
}

abbrev cloud_config : CloudConfig Bytes
cloud_config = record {
  hostname = codes "192.168.0.1";
  udp_receiver_ip = codes "192.168.0.2";
  launch_file = codes "sick_multiscan.launch";
  cloud_name = codes "cloud";
  frame_id = codes "multiscan136";
  queue_capacity = 1;
  range_min = 0 ∷ [];
  range_max = 9 ∷ [];
  udp_port = pos 2125;
  imu_udp_port = pos 0;
}

-- Two points of the first echo, one second after the message before.
abbrev seen : Scan Bytes
seen = record {
  frame_id = codes "picoscan150";
  stamp_ns = pos 7_000_000_040;
  scan_time_ns = pos 1_000_000_000;
  time_increment_ns = pos 500_000_000;
  angle_min = replicate 4 1;
  angle_max = replicate 4 2;
  angle_increment = replicate 4 2;
  range_min = 0 ∷ [];
  range_max = 9 ∷ [];
  echo_index = 0;
  echo_count = 1;
  ranges = replicate 4 1 ∷ replicate 4 2 ∷ [];
  intensities = replicate 4 1 ∷ replicate 4 2 ∷ [];
}

to_scan_test :
    to_scan float scan_config cloud_msg (pos 6_000_000_040) (default_scan float)
    ≡ ok (some (seen, pos 7_000_000_040))
unfolding to_scan read_sweep is_unreadable_scan scan_offsets find_field_offset find_intensity_offset
    same_text if_readable add_points add_point read_point is_first_echo read_field read_float
    add_intensity assign_scan stamp_of scan_time_of default_scan ◌-ℤ◌ ◌/ℤ◌
to_scan_test = refl

to_scan-IsConsistent_example :
    (r : Option (Scan Bytes × ℤ)) × (to_scan float scan_config cloud_msg
        (pos 6_000_000_040)
        (default_scan float)
      ≡ ok r)
    × IfSome (IsConsistent cloud_msg (pos 6_000_000_040)) r
to_scan-IsConsistent_example =
    to_scan-IsConsistent float cloud_msg scan_config (pos 6_000_000_040) (default_scan float)
      cloud_msg-IsSane

to_cloud-IsConsistentCloud_example :
    (r : Option (PointCloud Bytes × ℤ)) × (to_cloud float cloud_config cloud_msg
        (pos 6_000_000_040)
        (default_cloud float)
      ≡ ok r)
    × IfSome (IsConsistentCloud cloud_msg (pos 6_000_000_040)) r
to_cloud-IsConsistentCloud_example =
    to_cloud-IsConsistentCloud float cloud_msg cloud_config (pos 6_000_000_040)
      (default_cloud float) cloud_msg-IsSane

abbrev source : Impl (ScanConfig Bytes) (Scan Bytes)
source = connected scan_config 1 7

abbrev ops : List Op
ops = polled ∷ arrived cloud_msg ∷ arrived cloud_msg ∷ polled ∷ polled ∷ []

run-window_example :
    run (scan_conversion float) ops source
    ≡ window (scan_conversion float) scan_config 1 ops (pos 0) []
run-window_example = run-window (scan_conversion float) ops source (omega arith, omega arith)

-- A driver with one handle.
abbrev driver : ISickScanApi
driver = record {
  success = pos 0;
  create = λ t. if is_live (pos 0) 7 t then none else some 7;
  set_callback = λ t h. pos 0;
  init = λ t h args. pos 0;
}

driver-IsFresh : IsFresh driver
driver-IsFresh t h e = ground (arith, e)

-- A source is constructed and destroyed.
abbrev one_life : Sources
one_life = record {
  world = disconnect (some 7) true (connect driver (codes "A") (codes "b") 3 none_yet.world).1;
  handles = [];
}

lived : Reach driver none_yet one_life
unfolding connect register_callback start_driver note publish_self unregister_self
lived =
    next (next here (opened (codes "A") (codes "b") 3 none_yet))
      (ended (connect driver (codes "A") (codes "b") 3 none_yet.world).1 [] 7 [])

Reach-IsSafe_example : IsSafe (pos 0) one_life.world.trace
Reach-IsSafe_example = Reach-IsSafe driver-IsFresh lived

Reach-taken_example :
    times 7 (taken one_life.world.trace) ≡ times 7 (given_back one_life.world.trace) + times 7 []
Reach-taken_example = Reach-taken 7 lived

-- A field that lies outside the points: the buffer holds them all, and the read of the last one leaves
-- it.
outside_test :
    read_sweep float
      (record cloud_msg { fields = field 0 (codes "range") ∷ field 16 (codes "azimuth") ∷ [] })
    ≡ err out_of_bounds
unfolding read_sweep is_unreadable_scan scan_offsets find_field_offset find_intensity_offset
    same_text if_readable add_points add_point read_point is_first_echo read_field read_float
    add_intensity
outside_test = refl
