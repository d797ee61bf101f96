-- ===== src/Lidar/Sick/Converted.antt =====
-- src/sick_scan_source.cpp and src/sick_cloud_source.cpp: what a message of the driver becomes.
use arun_work.Base.{
  ℕ, ◌*◌, ◌<◌, ◌≡◌, ◌⊎◌, refl, Option, none, some, Bool, true, false, ◌&&◌, ◌==◌, length, ok,
  is_ok-bind, Holds-bind, Holds-ok, arith, Bool-cases, inl, inr, if◌then◌else◌,
}
use arun_work.Base.Int.{ℤ, pos, negsuc, pos_part, ◌≤ℤ◌, ltb_ℤ, leb_ℤ, ◌-ℤ◌, ◌/ℤ◌}
use arun_work.Base.Division.{quotient_bounds}
use arun_work.Lidar.Scan.{Scan, PointCloud}
use arun_work.Lidar.Sick.Message.{
  SickScanPointCloudMsg, IFloat, find_intensity_offset, stamp_of, scan_time_of,
  max_plausible_scan_time_ns,
}
use arun_work.Lidar.Sick.Scans.{ScanConfig, Sweep, read_sweep, assign_scan, to_scan}
use arun_work.Lidar.Sick.Clouds.{CloudConfig, Points, read_points, assign_cloud, to_cloud}
use arun_work.Lidar.Sick.Fields.{IsSane}
use arun_work.Lidar.Sick.Readable.{read_sweep-is_ok, read_points-is_ok}
use arun_work.Lidar.Sick.Shape.{
  IsMatched, IsAligned, IfSome, read_sweep-IsMatched, read_points-IsAligned,
}

-- A time that is no interval between two messages is 0, and no time is longer than five seconds.
abbrev pub IsScanTime : ℤ → ℤ → ℤ → Type 0
IsScanTime previous stamp t =
    (pos 0 ≤ℤ t) × (t ≤ℤ max_plausible_scan_time_ns) × ((t ≡ pos 0) ⊎ (t ≡ stamp -ℤ previous))

&&-true : (a b : Bool) → (a && b) ≡ true → (a ≡ true) × (b ≡ true)
&&-true true b e = (refl, e)
&&-true false b e = absurd (cc e)

plausible-IsScanTime :
    (previous stamp : ℤ)
    → ltb_ℤ (pos 0) (stamp -ℤ previous) ≡ true
    → leb_ℤ (stamp -ℤ previous) max_plausible_scan_time_ns ≡ true
    → IsScanTime previous stamp (stamp -ℤ previous)
plausible-IsScanTime previous stamp later near = (ground arith, ground arith, inr refl)

scan_time_of-IsScanTime :
    (previous stamp : ℤ) → IsScanTime previous stamp (scan_time_of previous stamp)
unfolding scan_time_of
scan_time_of-IsScanTime previous stamp =
    elim (Bool-cases (
      ltb_ℤ (pos 0) previous
      && ltb_ℤ (pos 0) (stamp -ℤ previous)
      && leb_ℤ (stamp -ℤ previous) max_plausible_scan_time_ns)) [
        | inl e ↦
            let (both, near) = &&-true _ (leb_ℤ (stamp -ℤ previous) max_plausible_scan_time_ns) e in
            let (_, later) = &&-true (ltb_ℤ (pos 0) previous) _ both in
            rw (e, scan_time_of) (plausible-IsScanTime previous stamp later near)
        | inr e ↦ rw (e, scan_time_of) (omega arith, omega arith, inl refl)
      ]

-- What a message becomes: one intensity for each range or none at all; a scan time as above, and the
-- time between two samples, which together fit into it.
abbrev pub IsConsistent : {Float : Type 0} → SickScanPointCloudMsg → ℤ → Scan Float × ℤ → Type 0
IsConsistent msg previous (scan, last_stamp_ns) =
    (last_stamp_ns ≡ scan.stamp_ns)
    × IsMatched (find_intensity_offset msg.fields) scan.ranges scan.intensities
    × IsScanTime previous scan.stamp_ns scan.scan_time_ns
    × (pos (pos_part scan.time_increment_ns * length scan.ranges) ≤ℤ scan.scan_time_ns)

abbrev pub IsConsistentCloud :
    {Float : Type 0} → SickScanPointCloudMsg → ℤ → PointCloud Float × ℤ → Type 0
IsConsistentCloud msg previous (cloud, last_stamp_ns) =
    (last_stamp_ns ≡ cloud.stamp_ns)
    × (length cloud.azimuths ≡ length cloud.ranges)
    × (length cloud.elevations ≡ length cloud.ranges)
    × IsMatched (find_intensity_offset msg.fields) cloud.ranges cloud.intensities
    × IsScanTime previous cloud.stamp_ns cloud.scan_time_ns

increments_fit :
    (t : ℤ) (count : ℕ)
    → pos 0 ≤ℤ t
    → pos (pos_part (if count == 0 then pos 0 else t /ℤ pos count) * count) ≤ℤ t
unfolding ◌/ℤ◌
increments_fit (pos n) count h = elim (Bool-cases (count == 0)) [
  | inl e ↦ rw e (omega arith)
  | inr e ↦
      rw e
        (let positive : 0 < count = ground arith in omega (arith, quotient_bounds n count positive))
]
increments_fit (negsuc n) count h = absurd (omega arith)

module _ {Float : Type 0} (float : IFloat Float) (msg : SickScanPointCloudMsg) where
  assign_scan-IsConsistent :
      (cfg : ScanConfig Float) (previous : ℤ) (sweep : Sweep Float) (out : Scan Float)
      → IsMatched (find_intensity_offset msg.fields) sweep.ranges sweep.intensities
      → IsConsistent msg previous (assign_scan float cfg msg previous sweep out, stamp_of msg)
  unfolding assign_scan
  assign_scan-IsConsistent cfg previous sweep out h =
      let time = scan_time_of-IsScanTime previous (stamp_of msg) in
      (
        refl,
        h,
        time,
        increments_fit (scan_time_of previous (stamp_of msg)) (length sweep.ranges) time.0,
      )

  -- `to_scan` of a message whose fields lie inside its points, whose buffer is as long as it says, and
  -- whose sizes do not wrap: it reads nothing behind the buffer, and what it makes of the message, if
  -- anything, is a scan with one intensity for each range, or none if the message has none; with a
  -- scan time from 0 to five seconds that is the difference of the two stamps or 0; and with a time
  -- between samples that fits as often as there are samples.
  pub to_scan-IsConsistent :
      (cfg : ScanConfig Float) (last_stamp_ns : ℤ) (out : Scan Float)
      → IsSane msg
      → (r : Option (Scan Float × ℤ)) × (to_scan float cfg msg last_stamp_ns out ≡ ok r)
        × IfSome (IsConsistent msg last_stamp_ns) r
  unfolding to_scan
  to_scan-IsConsistent cfg last_stamp_ns out sane =
      Holds-ok _ _
        (is_ok-bind (read_sweep float msg) _ (read_sweep-is_ok float msg sane) (λ _. refl))
        (Holds-bind _ _ (read_sweep float msg) _ (read_sweep-IsMatched float msg) assigned)
    where
      assigned :
          (s : Option (Sweep Float))
          → IfSome
              (λ (t : Sweep Float).
                IsMatched (find_intensity_offset msg.fields) t.ranges t.intensities)
              s
          → IfSome (IsConsistent msg last_stamp_ns) (elim s [
            | none ↦ none
            | some read ↦ some (assign_scan float cfg msg last_stamp_ns read out, stamp_of msg)
          ])
      assigned none h = tt
      assigned (some read) h = assign_scan-IsConsistent cfg last_stamp_ns read out h

  -- `to_cloud` of a message whose fields lie inside its points, whose buffer is as long as it says, and
  -- whose sizes do not wrap: it reads nothing behind the buffer, and what it makes of the message, if
  -- anything, is a point cloud whose ranges, azimuths and elevations have one length, with one
  -- intensity for each range, or none if the message has none; and with a scan time from 0 to five
  -- seconds that is the difference of the two stamps or 0.
  pub to_cloud-IsConsistentCloud :
      (cfg : CloudConfig Float) (last_stamp_ns : ℤ) (out : PointCloud Float)
      → IsSane msg
      → (r : Option (PointCloud Float × ℤ)) × (to_cloud float cfg msg last_stamp_ns out ≡ ok r)
        × IfSome (IsConsistentCloud msg last_stamp_ns) r
  unfolding to_cloud assign_cloud
  to_cloud-IsConsistentCloud cfg last_stamp_ns out sane =
      Holds-ok _ _
        (is_ok-bind (read_points float msg) _ (read_points-is_ok float msg sane) (λ _. refl))
        (Holds-bind _ _ (read_points float msg) _ (read_points-IsAligned float msg) assigned)
    where
      assigned :
          (p : Option (Points Float))
          → IfSome (IsAligned (find_intensity_offset msg.fields)) p
          → IfSome (IsConsistentCloud msg last_stamp_ns) (elim p [
            | none ↦ none
            | some read ↦ some (assign_cloud cfg msg last_stamp_ns read out, stamp_of msg)
          ])
      assigned none h = tt
      assigned (some read) (azimuths, elevations, h) =
          (refl, azimuths, elevations, h, scan_time_of-IsScanTime last_stamp_ns (stamp_of msg))
