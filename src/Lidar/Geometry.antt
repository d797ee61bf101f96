-- ===== src/Lidar/Geometry.antt =====
-- include/lidar/scan.hpp and include/lidar/point_cloud.hpp: the angles and points of a scan and of a
-- cloud, computed on demand. An index outside an array is undefined.
use arun_work.Base.{
  ℕ, ◌<◌, ◌≡◌, refl, List, [], ◌∷◌, get_elem?, Option, none, some, Bool, true, ◌&&◌, length, Result,
  ok, err, ◌>>=◌, is_ok, is_ok-bind, arith, zero, suc,
}
use arun_work.Lidar.Scan.{Scan, PointCloud}
use arun_work.Lidar.Sick.Message.{Undefined, out_of_bounds}

-- The operations on floats that the code applies.
pub record ITrigonometry (Float : Type 0) : Type 0 where
  pub of_ℕ : ℕ → Float
  pub plus : Float → Float → Float
  pub times : Float → Float → Float
  pub is_less : Float → Float → Bool
  pub cos : Float → Float
  pub sin : Float → Float

pub record Point3 (Float : Type 0) : Type 0 where
  pub x : Float
  pub y : Float
  pub z : Float

module _ {Float : Type 0} where
  abbrev pub present : Option Float → Result Undefined Float
  present none = err out_of_bounds
  present (some v) = ok v

  unfoldable pub at_index : List Float → ℕ → Result Undefined Float
  at_index values i = present (get_elem? values i)

module _ {Float : Type 0} (float : ITrigonometry Float) where
  open float use {of_ℕ, plus, times, is_less, cos, sin}

  unfoldable pub angle_of : Scan Float → ℕ → Float
  angle_of scan i = plus scan.angle_min (times (of_ℕ i) scan.angle_increment)

  unfoldable pub is_valid : Scan Float → ℕ → Result Undefined Bool
  is_valid scan i = do
    r ← at_index scan.ranges i
    ok (is_less scan.range_min r && is_less r scan.range_max)

  unfoldable pub is_valid_point : PointCloud Float → ℕ → Result Undefined Bool
  is_valid_point cloud i = do
    r ← at_index cloud.ranges i
    ok (is_less cloud.range_min r && is_less r cloud.range_max)

  unfoldable pub to_xyz : PointCloud Float → ℕ → Result Undefined (Point3 Float)
  to_xyz cloud i = do
    r ← at_index cloud.ranges i
    az ← at_index cloud.azimuths i
    el ← at_index cloud.elevations i
    let horizontal = times r (cos el)
    ok (record {
      x = times horizontal (cos az);
      y = times horizontal (sin az);
      z = times r (sin el);
    })

  at_index-is_ok :
      (values : List Float) (i : ℕ) → i < length values → is_ok (at_index values i) ≡ true
  unfolding at_index
  at_index-is_ok [] i h = absurd (omega (arith, h))
  at_index-is_ok (v ∷ values) zero h = refl
  at_index-is_ok (v ∷ values) (suc i) h = at_index-is_ok values i (omega (arith, h))

  -- Every point below the size of a cloud whose arrays belong together can be computed.
  pub to_xyz-is_ok :
      (cloud : PointCloud Float) (i : ℕ)
      → length cloud.azimuths ≡ length cloud.ranges
      → length cloud.elevations ≡ length cloud.ranges
      → i < length cloud.ranges
      → is_ok (to_xyz cloud i) ≡ true
  unfolding to_xyz
  to_xyz-is_ok cloud i azimuths elevations h =
      is_ok-bind (at_index cloud.ranges i) _ (at_index-is_ok cloud.ranges i h) λ r.
        is_ok-bind (at_index cloud.azimuths i) _
          (at_index-is_ok cloud.azimuths i (omega (arith, h, azimuths)))
          λ az.
            is_ok-bind (at_index cloud.elevations i) _
              (at_index-is_ok cloud.elevations i (omega (arith, h, elevations))) λ el. refl
