-- ===== src/Lidar/Sick/Readable.antt =====
-- src/sick_scan_source.cpp and src/sick_cloud_source.cpp: no read behind the end of the buffer, if
-- the fields of a message lie inside its points.
use arun_work.Base.{
  ℕ, ◌+◌, ◌*◌, ◌≤◌, ◌<◌, ◌^◌, ◌≡◌, refl, Option, none, some, Bool, true, false, not, ◌||◌, ◌==◌,
  ltb, length, Bytes, codes, Result, is_ok, is_ok-bind, arith,
}
use arun_work.Base.Int.{pos_part}
use arun_work.Lidar.Query.{same_text}
use arun_work.Lidar.Sick.Message.{
  SickScanPointCloudMsg, IFloat, Undefined, find_field_offset, is_found, points_of, is_truncated,
  if_readable,
}
use arun_work.Lidar.Sick.Scans.{ScanOffsets, scan_offsets, read_sweep, is_unreadable_scan}
use arun_work.Lidar.Sick.Clouds.{CloudOffsets, cloud_offsets, read_points, is_unreadable_cloud}
use arun_work.Lidar.Sick.Fields.{
  field_size, IsSized, IsSane, find_field_offset-IsWithin, find_intensity_offset-IsWithin,
}
use arun_work.Lidar.Sick.Reads.{add_points-is_ok, add_cloud_points-is_ok}

ltb-false→le : (a b : ℕ) → ltb a b ≡ false → b ≤ a
ltb-false→le a b e = ground arith

if_readable-is_ok :
    {A : Type 0} (unreadable : Bool) (buffer : Option Bytes) (read : Bytes → Result Undefined A)
    → ((b : Bytes) → unreadable ≡ false → buffer ≡ some b → is_ok (read b) ≡ true)
    → is_ok (if_readable unreadable buffer read) ≡ true
unfolding if_readable
if_readable-is_ok unreadable none read h = refl
if_readable-is_ok true (some b) read h = refl
if_readable-is_ok false (some b) read h = is_ok-bind (read b) _ (h b refl refl) (λ _. refl)

not_truncated :
    (msg : SickScanPointCloudMsg) (b : Bytes)
    → msg.buffer ≡ some b
    → IsSized msg.size msg.buffer
    → msg.width * msg.height * msg.point_step < 2 ^ 64
    → is_truncated msg ≡ false
    → (points_of msg * msg.point_step ≤ length b) × (points_of msg * msg.point_step < 2 ^ 64)
not_truncated msg b e sized fits whole =
    let le : points_of msg * msg.point_step ≤ msg.width * msg.height * msg.point_step =
      grind arith in
    let size : msg.size ≤ length b = rw e at sized in
    let bound = ltb-false→le _ _ whole in
    (omega (arith, le, size, bound, fits), omega (arith, le, fits))

||-false : (a b : Bool) → (a || b) ≡ false → (a ≡ false) × (b ≡ false)
||-false false b e = (refl, e)
||-false true b e = absurd (cc e)

not-false : (a : Bool) → not a ≡ false → a ≡ true
not-false true e = refl
not-false false e = absurd (cc e)

scan_checks :
    (o : ScanOffsets) (msg : SickScanPointCloudMsg)
    → is_unreadable_scan o msg ≡ false
    → (is_found o.range ≡ true) × (is_found o.azimuth ≡ true) × (is_truncated msg ≡ false)
unfolding is_unreadable_scan
scan_checks o msg e =
    let (rest, whole) = ||-false _ (is_truncated msg) e in
    let (found, _) = ||-false _ (msg.point_step == 0) rest in
    let (range, azimuth) = ||-false (not (is_found o.range)) _ found in
    (not-false _ range, not-false _ azimuth, whole)

cloud_checks :
    (o : CloudOffsets) (msg : SickScanPointCloudMsg)
    → is_unreadable_cloud o msg ≡ false
    → (is_found o.range ≡ true)
      × (is_found o.azimuth ≡ true)
      × (is_found o.elevation ≡ true)
      × (is_truncated msg ≡ false)
unfolding is_unreadable_cloud
cloud_checks o msg e =
    let (rest, whole) = ||-false _ (is_truncated msg) e in
    let (found, _) = ||-false _ (msg.point_step == 0) rest in
    let (both, elevation) = ||-false _ (not (is_found o.elevation)) found in
    let (range, azimuth) = ||-false (not (is_found o.range)) _ both in
    (not-false _ range, not-false _ azimuth, not-false _ elevation, whole)

module _ {Float : Type 0} (float : IFloat Float) (msg : SickScanPointCloudMsg) where
  -- A field that is found is read inside its point.
  float_inside :
      (name : Bytes)
      → IsSane msg
      → field_size name ≡ 4
      → is_found (find_field_offset msg.fields name) ≡ true
      → pos_part (find_field_offset msg.fields name) + 4 ≤ msg.point_step
  float_inside name (inside, sized, small, fits) four found =
      rw four at (find_field_offset-IsWithin msg.point_step msg.fields name small inside found)

  -- `to_scan` reads nothing behind the end of the buffer.
  pub read_sweep-is_ok : IsSane msg → is_ok (read_sweep float msg) ≡ true
  unfolding read_sweep scan_offsets same_text
  read_sweep-is_ok (inside, sized, small, fits) =
      if_readable-is_ok (is_unreadable_scan (scan_offsets msg) msg) msg.buffer _ λ b readable e.
        let (range, azimuth, whole) = scan_checks (scan_offsets msg) msg readable in
        let (reach, nowrap) = not_truncated msg b e sized fits whole in
        add_points-is_ok float b msg.point_step (scan_offsets msg) (points_of msg) 0 (points_of msg)
          _ reach nowrap (omega arith)
          (
            float_inside (codes "range") (inside, sized, small, fits) refl range,
            float_inside (codes "azimuth") (inside, sized, small, fits) refl azimuth,
            find_intensity_offset-IsWithin msg.point_step msg.fields small inside,
            find_field_offset-IsWithin msg.point_step msg.fields (codes "echo") small inside,
          )

  -- Neither does `to_cloud`.
  pub read_points-is_ok : IsSane msg → is_ok (read_points float msg) ≡ true
  unfolding read_points cloud_offsets same_text
  read_points-is_ok (inside, sized, small, fits) =
      if_readable-is_ok (is_unreadable_cloud (cloud_offsets msg) msg) msg.buffer _ λ b readable e.
        let (range, azimuth, elevation, whole) = cloud_checks (cloud_offsets msg) msg readable in
        let (reach, nowrap) = not_truncated msg b e sized fits whole in
        add_cloud_points-is_ok float b msg.point_step (cloud_offsets msg) (points_of msg) 0
          (points_of msg) _ reach nowrap (omega arith)
          (
            float_inside (codes "range") (inside, sized, small, fits) refl range,
            float_inside (codes "azimuth") (inside, sized, small, fits) refl azimuth,
            float_inside (codes "elevation") (inside, sized, small, fits) refl elevation,
            find_intensity_offset-IsWithin msg.point_step msg.fields small inside,
            find_field_offset-IsWithin msg.point_step msg.fields (codes "echo") small inside,
          )
