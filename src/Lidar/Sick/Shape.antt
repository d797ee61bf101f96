-- ===== src/Lidar/Sick/Shape.antt =====
-- src/sick_scan_source.cpp and src/sick_cloud_source.cpp: the arrays and the times of what a message
-- becomes.
use arun_work.Base.{
  ℕ, zero, suc, ◌*◌, ◌≡◌, refl, List, [], ◌∷◌, ◌++◌, Option, none, some, Bool, true, false, length,
  length-append, Bytes, Result, ok, Holds, Holds-bind, Holds-true, arith, Bool-cases, inl, inr,
  if◌then◌else◌,
}
use arun_work.Base.Int.{ℤ}
use arun_work.Base.Words.{u64}
use arun_work.Lidar.Sick.Message.{
  SickScanPointCloudMsg, IFloat, Undefined, is_found, find_intensity_offset, read_float,
  is_first_echo, add_intensity, if_readable,
}
use arun_work.Lidar.Sick.Scans.{
  ScanOffsets, scan_offsets, Sweep, read_point, add_point, add_points, read_sweep,
}
use arun_work.Lidar.Sick.Clouds.{
  CloudOffsets, cloud_offsets, Points, read_cloud_point, add_cloud_point, add_cloud_points,
  read_points,
}

-- One intensity for each range if the message has intensities, and else none.
abbrev pub IsMatched : {A B : Type 0} → ℤ → List A → List B → Type 0
IsMatched offset ranges intensities =
    length intensities ≡ (if is_found offset then length ranges else 0)

-- The arrays of a cloud belong together.
abbrev pub IsAligned : {Float : Type 0} → ℤ → Points Float → Type 0
IsAligned offset p =
    (length p.azimuths ≡ length p.ranges)
    × (length p.elevations ≡ length p.ranges)
    × IsMatched offset p.ranges p.intensities

none_matched : (offset : ℤ) → ◌≡◌ {A = ℕ} 0 (if is_found offset then 0 else 0)
none_matched offset = ground arith

one_more :
    {A B : Type 0} (xs : List A) (ys : List B) (x : A) (y : B)
    → length xs ≡ length ys
    → length (xs ++ x ∷ []) ≡ length (ys ++ y ∷ [])
one_more xs ys x y e = omega (arith, e, length-append xs (x ∷ []), length-append ys (y ∷ []))

module _ {Float : Type 0} (float : IFloat Float) (buffer : Bytes) where
  add_intensity-IsMatched :
      (offset : ℤ) (point : ℕ) (ranges intensities : List Float) (range : Float)
      → IsMatched offset ranges intensities
      → Holds
          (IsMatched offset (ranges ++ range ∷ []))
          (add_intensity float buffer offset point intensities)
  unfolding add_intensity
  add_intensity-IsMatched offset point ranges intensities range h =
      elim (Bool-cases (is_found offset)) [
        | inl e ↦
            rw (e, add_intensity)
              (Holds-bind (λ _. Unit) _ (read_float float buffer point offset) _ (Holds-true _)
                λ i _. rw e (
                  omega (
                    arith,
                    rw e at h,
                    length-append ranges (range ∷ []),
                    length-append intensities (i ∷ []),
                  )))
        | inr e ↦ rw (e, add_intensity) (rw e (rw e at h))
      ]

  -- The loop's round for a point of the first echo adds to every array.
  read_point-IsMatched :
      (o : ScanOffsets) (point : ℕ) (s : Sweep Float)
      → IsMatched o.intensity s.ranges s.intensities
      → Holds
          (λ (t : Sweep Float). IsMatched o.intensity t.ranges t.intensities)
          (read_point float buffer o point s)
  unfolding read_point
  read_point-IsMatched o point s h =
      Holds-bind (λ _. Unit) _ (read_float float buffer point o.range) _ (Holds-true _)
        λ range _.
          Holds-bind (λ _. Unit) _ (read_float float buffer point o.azimuth) _ (Holds-true _)
            λ azimuth _.
              Holds-bind (IsMatched o.intensity (s.ranges ++ range ∷ [])) _
                (add_intensity float buffer o.intensity point s.intensities) _
                (add_intensity-IsMatched o.intensity point s.ranges s.intensities range h) λ _ m. m

  add_points-IsMatched :
      (o : ScanOffsets) (step left i : ℕ) (s : Sweep Float)
      → IsMatched o.intensity s.ranges s.intensities
      → Holds
          (λ (t : Sweep Float). IsMatched o.intensity t.ranges t.intensities)
          (add_points float buffer o step left i s)
  unfolding add_points add_point
  add_points-IsMatched o step zero i s h = h
  add_points-IsMatched o step (suc left) i s h =
      Holds-bind (λ (t : Sweep Float). IsMatched o.intensity t.ranges t.intensities) _
        (add_point float buffer o (u64 (i * step)) s) _
        (Holds-bind (λ _. Unit) _ (is_first_echo buffer (u64 (i * step)) o.echo) _ (Holds-true _)
          λ first _. skip_or_read first)
        (add_points-IsMatched o step left (suc i))
    where
      skip_or_read :
          (first : Bool)
          → Holds
              (λ (t : Sweep Float). IsMatched o.intensity t.ranges t.intensities)
              (elim first [ false ↦ ok s | true ↦ read_point float buffer o (u64 (i * step)) s ])
      skip_or_read false = h
      skip_or_read true = read_point-IsMatched o (u64 (i * step)) s h

  read_cloud_point-IsAligned :
      (o : CloudOffsets) (point : ℕ) (p : Points Float)
      → IsAligned o.intensity p
      → Holds (IsAligned o.intensity) (read_cloud_point float buffer o point p)
  unfolding read_cloud_point
  read_cloud_point-IsAligned o point p (azimuths, elevations, h) =
      Holds-bind (λ _. Unit) _ (read_float float buffer point o.range) _ (Holds-true _)
        λ range _.
          Holds-bind (λ _. Unit) _ (read_float float buffer point o.azimuth) _ (Holds-true _)
            λ azimuth _.
              Holds-bind (λ _. Unit) _ (read_float float buffer point o.elevation) _ (Holds-true _)
                λ elevation _.
                  Holds-bind (IsMatched o.intensity (p.ranges ++ range ∷ [])) _
                    (add_intensity float buffer o.intensity point p.intensities) _
                    (add_intensity-IsMatched o.intensity point p.ranges p.intensities range h)
                    λ _ m. (
                      one_more p.azimuths p.ranges azimuth range azimuths,
                      one_more p.elevations p.ranges elevation range elevations,
                      m,
                    )

  add_cloud_points-IsAligned :
      (o : CloudOffsets) (step left i : ℕ) (p : Points Float)
      → IsAligned o.intensity p
      → Holds (IsAligned o.intensity) (add_cloud_points float buffer o step left i p)
  unfolding add_cloud_points add_cloud_point
  add_cloud_points-IsAligned o step zero i p h = h
  add_cloud_points-IsAligned o step (suc left) i p h =
      Holds-bind (IsAligned o.intensity) _ (add_cloud_point float buffer o (u64 (i * step)) p) _
        (Holds-bind (λ _. Unit) _ (is_first_echo buffer (u64 (i * step)) o.echo) _ (Holds-true _)
          skip_or_read)
        (add_cloud_points-IsAligned o step left (suc i))
    where
      skip_or_read :
          (first : Bool)
          → Unit {0}
          → Holds (IsAligned o.intensity) (elim first [
            | false ↦ ok p
            | true ↦ read_cloud_point float buffer o (u64 (i * step)) p
          ])
      skip_or_read false t = h
      skip_or_read true t = read_cloud_point-IsAligned o (u64 (i * step)) p h

-- If anything is there, it satisfies the predicate.
abbrev pub IfSome : {A : Type 0} → (A → Type 0) → Option A → Type 0
IfSome P none = Unit
IfSome P (some a) = P a

if_readable-Holds :
    {A : Type 0} (P : A → Type 0) (unreadable : Bool) (buffer : Option Bytes)
    (read : Bytes → Result Undefined A)
    → ((b : Bytes) → Holds P (read b))
    → Holds (IfSome P) (if_readable unreadable buffer read)
unfolding if_readable
if_readable-Holds P unreadable none read h = tt
if_readable-Holds P true (some b) read h = tt
if_readable-Holds P false (some b) read h = Holds-bind P _ (read b) _ (h b) λ _ p. p

module _ {Float : Type 0} (float : IFloat Float) (msg : SickScanPointCloudMsg) where
  pub read_sweep-IsMatched :
      Holds
        (IfSome (λ (s : Sweep Float).
          IsMatched (find_intensity_offset msg.fields) s.ranges s.intensities))
        (read_sweep float msg)
  unfolding read_sweep scan_offsets
  read_sweep-IsMatched = if_readable-Holds _ _ msg.buffer _ λ b.
      add_points-IsMatched float b (scan_offsets msg) msg.point_step _ 0 _
        (none_matched (find_intensity_offset msg.fields))

  pub read_points-IsAligned :
      Holds (IfSome (IsAligned (find_intensity_offset msg.fields))) (read_points float msg)
  unfolding read_points cloud_offsets
  read_points-IsAligned = if_readable-Holds _ _ msg.buffer _ λ b.
      add_cloud_points-IsAligned float b (cloud_offsets msg) msg.point_step _ 0 _
        (refl, refl, none_matched (find_intensity_offset msg.fields))
