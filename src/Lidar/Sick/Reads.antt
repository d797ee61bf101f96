-- ===== src/Lidar/Sick/Reads.antt =====
-- src/sick_scan_source.cpp and src/sick_cloud_source.cpp: the loops over the points of a message
-- read only inside the buffer.
use arun_work.Base.{
  ℕ, zero, suc, ◌+◌, ◌*◌, ◌≤◌, ◌<◌, ◌^◌, ◌≡◌, refl, Bool, true, false, length, Bytes, ok, is_ok,
  is_ok-bind, arith,
}
use arun_work.Base.Int.{ℤ, pos_part}
use arun_work.Base.Words.{u64}
use arun_work.Lidar.Sick.Message.{IFloat, read_float, is_first_echo, add_intensity}
use arun_work.Lidar.Sick.Scans.{ScanOffsets, Sweep, read_point, add_point, add_points}
use arun_work.Lidar.Sick.Clouds.{
  CloudOffsets, Points, read_cloud_point, add_cloud_point, add_cloud_points,
}
use arun_work.Lidar.Sick.Fields.{
  IsWithin, read_float-is_ok, is_first_echo-is_ok, add_intensity-is_ok,
}

-- The reads of `to_scan`'s loop stay inside the points.
abbrev pub IsScanWithin : ℕ → ScanOffsets → Type 0
IsScanWithin step o =
    (pos_part o.range + 4 ≤ step)
    × (pos_part o.azimuth + 4 ≤ step)
    × IsWithin step 4 o.intensity
    × IsWithin step 1 o.echo

abbrev pub IsCloudWithin : ℕ → CloudOffsets → Type 0
IsCloudWithin step o =
    (pos_part o.range + 4 ≤ step)
    × (pos_part o.azimuth + 4 ≤ step)
    × (pos_part o.elevation + 4 ≤ step)
    × IsWithin step 4 o.intensity
    × IsWithin step 1 o.echo

inside_point :
    (i left n step size : ℕ)
    → i + suc left ≡ n
    → n * step ≤ size
    → n * step < 2 ^ 64
    → u64 (i * step) + step ≤ size
inside_point i left n step size e fits small =
    let one_more : i * step + step ≤ n * step = rw (← e) (grind arith) in
    omega (arith, one_more, fits, small)

module _ {Float : Type 0} (float : IFloat Float) (buffer : Bytes) (step : ℕ) where
  read_point-is_ok :
      (o : ScanOffsets) (point : ℕ) (sweep : Sweep Float)
      → point + step ≤ length buffer
      → IsScanWithin step o
      → is_ok (read_point float buffer o point sweep) ≡ true
  unfolding read_point
  read_point-is_ok o point sweep h (range, azimuth, intensity, echo) =
      is_ok-bind (read_float float buffer point o.range) _ (float_at o.range range) λ _.
        is_ok-bind (read_float float buffer point o.azimuth) _ (float_at o.azimuth azimuth) λ _.
          is_ok-bind (add_intensity float buffer o.intensity point sweep.intensities) _
            (add_intensity-is_ok float buffer step point o.intensity _ h intensity) λ _. refl
    where
      float_at :
          (offset : ℤ)
          → pos_part offset + 4 ≤ step
          → is_ok (read_float float buffer point offset) ≡ true
      float_at offset = read_float-is_ok float buffer step point offset h

  add_point-is_ok :
      (o : ScanOffsets) (point : ℕ) (sweep : Sweep Float)
      → point + step ≤ length buffer
      → IsScanWithin step o
      → is_ok (add_point float buffer o point sweep) ≡ true
  unfolding add_point
  add_point-is_ok o point sweep h within =
      is_ok-bind (is_first_echo buffer point o.echo) _
        (is_first_echo-is_ok float buffer step point o.echo h within.3) skip_or_read
    where
      skip_or_read :
          (first : Bool)
          → is_ok (elim first [ false ↦ ok sweep | true ↦ read_point float buffer o point sweep ])
            ≡ true
      skip_or_read false = refl
      skip_or_read true = read_point-is_ok o point sweep h within

  pub add_points-is_ok :
      (o : ScanOffsets) (left i n : ℕ) (sweep : Sweep Float)
      → n * step ≤ length buffer
      → n * step < 2 ^ 64
      → i + left ≡ n
      → IsScanWithin step o
      → is_ok (add_points float buffer o step left i sweep) ≡ true
  unfolding add_points
  add_points-is_ok o zero i n sweep fits small e within = refl
  add_points-is_ok o (suc left) i n sweep fits small e within =
      is_ok-bind (add_point float buffer o (u64 (i * step)) sweep) _
        (add_point-is_ok o (u64 (i * step)) sweep
          (inside_point i left n step (length buffer) e fits small) within)
        λ more. add_points-is_ok o left (suc i) n more fits small (omega (arith, e)) within

  read_cloud_point-is_ok :
      (o : CloudOffsets) (point : ℕ) (points : Points Float)
      → point + step ≤ length buffer
      → IsCloudWithin step o
      → is_ok (read_cloud_point float buffer o point points) ≡ true
  unfolding read_cloud_point
  read_cloud_point-is_ok o point points h (range, azimuth, elevation, intensity, echo) =
      is_ok-bind (read_float float buffer point o.range) _ (float_at o.range range) λ _.
        is_ok-bind (read_float float buffer point o.azimuth) _ (float_at o.azimuth azimuth) λ _.
          is_ok-bind (read_float float buffer point o.elevation) _ (float_at o.elevation elevation)
            λ _.
              is_ok-bind (add_intensity float buffer o.intensity point points.intensities) _
                (add_intensity-is_ok float buffer step point o.intensity _ h intensity) λ _. refl
    where
      float_at :
          (offset : ℤ)
          → pos_part offset + 4 ≤ step
          → is_ok (read_float float buffer point offset) ≡ true
      float_at offset = read_float-is_ok float buffer step point offset h

  add_cloud_point-is_ok :
      (o : CloudOffsets) (point : ℕ) (points : Points Float)
      → point + step ≤ length buffer
      → IsCloudWithin step o
      → is_ok (add_cloud_point float buffer o point points) ≡ true
  unfolding add_cloud_point
  add_cloud_point-is_ok o point points h within =
      is_ok-bind (is_first_echo buffer point o.echo) _
        (is_first_echo-is_ok float buffer step point o.echo h within.4) skip_or_read
    where
      skip_or_read :
          (first : Bool)
          → is_ok (elim first [
            | false ↦ ok points
            | true ↦ read_cloud_point float buffer o point points
          ])
            ≡ true
      skip_or_read false = refl
      skip_or_read true = read_cloud_point-is_ok o point points h within

  pub add_cloud_points-is_ok :
      (o : CloudOffsets) (left i n : ℕ) (points : Points Float)
      → n * step ≤ length buffer
      → n * step < 2 ^ 64
      → i + left ≡ n
      → IsCloudWithin step o
      → is_ok (add_cloud_points float buffer o step left i points) ≡ true
  unfolding add_cloud_points
  add_cloud_points-is_ok o zero i n points fits small e within = refl
  add_cloud_points-is_ok o (suc left) i n points fits small e within =
      is_ok-bind (add_cloud_point float buffer o (u64 (i * step)) points) _
        (add_cloud_point-is_ok o (u64 (i * step)) points
          (inside_point i left n step (length buffer) e fits small) within)
        λ more. add_cloud_points-is_ok o left (suc i) n more fits small (omega (arith, e)) within
