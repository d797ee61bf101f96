-- ===== src/Lidar/Query/Windows.antt =====
-- src/query_server.cpp: the newest scan of a recording, and the scans in a window before it.
use arun_work.Base.{
  ◌<◌, ◌≤◌, ◌^◌, ◌≡◌, refl, List, [], ◌∷◌, get_elem?, length, All, Option, none, some, arith,
  Bool-cases, inl, inr,
}
use arun_work.Base.Int.{ℤ, ◌-ℤ◌}
use arun_work.Base.Words.{IsI64}
use arun_work.Lidar.Scan.{Scan}
use arun_work.Lidar.Log.{in_range}
use arun_work.Lidar.Log.Records.{scans_in_range}

module _ {Float : Type 0} where
  -- The last scan of a recording.
  abbrev pub newest : List (Scan Float) → Option (Scan Float)
  newest [] = none
  newest (scan ∷ []) = some scan
  newest (scan ∷ next ∷ scans) = newest (next ∷ scans)

  pub newest-get_elem? :
      (scan : Scan Float) (scans : List (Scan Float))
      → (last : Scan Float) × (newest (scan ∷ scans) ≡ some last)
        × (get_elem? (scan ∷ scans) (length scans) ≡ some last)
  newest-get_elem? scan [] = (scan, refl, refl)
  newest-get_elem? scan (next ∷ scans) = newest-get_elem? next scans

  abbrev pub single : Option (Scan Float) → List (Scan Float)
  single none = []
  single (some scan) = scan ∷ []

  abbrev pub newest_only : List (Scan Float) → List (Scan Float)
  newest_only scans = single (newest scans)

  abbrev pub before_last : ℤ → List (Scan Float) → Option (Scan Float) → List (Scan Float)
  before_last window scans none = []
  before_last window scans (some last) =
      scans_in_range (last.stamp_ns -ℤ window) last.stamp_ns scans

  -- The scans at most `window` older than the last one, and none of a later stamp.
  abbrev pub scans_in_window : ℤ → List (Scan Float) → List (Scan Float)
  scans_in_window window scans = before_last window scans (newest scans)

  -- The window before the last scan begins at an `std::int64_t`.
  abbrev pub IsWindow : ℤ → Option (Scan Float) → Type 0
  IsWindow window none = Unit {0}
  IsWindow window (some last) = IsI64 (last.stamp_ns -ℤ window)

  pub length-scans_in_range :
      (from to : ℤ) (scans : List (Scan Float))
      → length (scans_in_range from to scans) ≤ length scans
  length-scans_in_range from to [] = omega arith
  length-scans_in_range from to (scan ∷ scans) =
      elim (Bool-cases (in_range from to scan.stamp_ns)) [
        | inl inside ↦ rw inside (omega (arith, length-scans_in_range from to scans))
        | inr outside ↦ rw outside (omega (arith, length-scans_in_range from to scans))
      ]

  pub All-newest_only :
      (P : Scan Float → Type 0) (scans : List (Scan Float))
      → All P scans
      → All P (newest_only scans)
  All-newest_only P [] h = tt
  All-newest_only P (scan ∷ []) h = h
  All-newest_only P (scan ∷ next ∷ scans) h = All-newest_only P (next ∷ scans) h.1

  pub length-newest_only : (scans : List (Scan Float)) → length (newest_only scans) < 2 ^ 32
  length-newest_only [] = omega arith
  length-newest_only (scan ∷ []) = omega arith
  length-newest_only (scan ∷ next ∷ scans) = length-newest_only (next ∷ scans)

  pub All-scans_in_range :
      (P : Scan Float → Type 0) (from to : ℤ) (scans : List (Scan Float))
      → All P scans
      → All P (scans_in_range from to scans)
  All-scans_in_range P from to [] h = tt
  All-scans_in_range P from to (scan ∷ scans) h =
      elim (Bool-cases (in_range from to scan.stamp_ns)) [
        | inl inside ↦ rw inside (h.0, All-scans_in_range P from to scans h.1)
        | inr outside ↦ rw outside (All-scans_in_range P from to scans h.1)
      ]
