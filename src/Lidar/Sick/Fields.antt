-- ===== src/Lidar/Sick/Fields.antt =====
-- src/sick_scan_source.cpp and src/sick_cloud_source.cpp: a field that lies inside the points is
-- read inside them.
use arun_work.Base.{
  ℕ, ◌+◌, ◌*◌, ◌≤◌, ◌<◌, ◌^◌, ◌≡◌, refl, ap₂, List, [], ◌∷◌, Option, none, some, true, ◌==◌, ==_iff,
  length, Bytes, codes, is_ok, is_ok-bind, All, arith, Bool-cases, inl, inr, if◌then◌else◌,
}
use arun_work.Base.Int.{ℤ, pos_part}
use arun_work.Base.Words.{i32_of}
use arun_work.Lidar.Query.{same_text}
use arun_work.Lidar.Sick.Message.{
  SickScanPointField, SickScanPointCloudMsg, IFloat, find_field_offset, find_intensity_offset,
  is_found, read_field, read_float, is_first_echo, add_intensity,
}

-- The size that the code reads a field with: `echo` is one byte, the others are floats.
abbrev pub field_size : Bytes → ℕ
field_size name = if same_text name (codes "echo") then 1 else 4

abbrev pub IsInside : ℕ → List SickScanPointField → Type 0
IsInside step fields = All (λ f. f.offset + field_size f.name ≤ step) fields

-- The buffer is as long as it says.
abbrev pub IsSized : ℕ → Option Bytes → Type 0
IsSized size none = Unit
IsSized size (some buffer) = size ≤ length buffer

-- The fields lie inside a point, the buffer has its size, and no product wraps.
abbrev pub IsSane : SickScanPointCloudMsg → Type 0
IsSane msg =
    IsInside msg.point_step msg.fields
    × (IsSized msg.size msg.buffer)
    × (msg.point_step < 2 ^ 31)
    × (msg.width * msg.height * msg.point_step < 2 ^ 64)

same_text→≡ : (s t : Bytes) → same_text s t ≡ true → s ≡ t
unfolding same_text
same_text→≡ [] [] e = refl
same_text→≡ [] (b ∷ t) e = absurd (cc e)
same_text→≡ (a ∷ s) [] e = absurd (cc e)
same_text→≡ (a ∷ s) (b ∷ t) e = elim (Bool-cases (a == b)) [
  | inl same ↦ ap₂ ◌∷◌ ((==_iff a b).0 same) (same_text→≡ s t (rw same at e))
  | inr other ↦ absurd (cc (rw other at e))
]

-- A read at this offset stays inside a point.
abbrev pub IsWithin : ℕ → ℕ → ℤ → Type 0
IsWithin step size offset = is_found offset ≡ true → pos_part offset + size ≤ step

small_offset : (n step k : ℕ) → n + k ≤ step → step < 2 ^ 31 → pos_part (i32_of n) + k ≤ step
small_offset n step k fits h = ground arith

pub find_field_offset-IsWithin :
    (step : ℕ) (fields : List SickScanPointField) (name : Bytes)
    → step < 2 ^ 31
    → IsInside step fields
    → IsWithin step (field_size name) (find_field_offset fields name)
unfolding find_field_offset
find_field_offset-IsWithin step [] name h inside = λ found. absurd (cc found)
find_field_offset-IsWithin step (f ∷ fields) name h (fits, inside) =
    elim (Bool-cases (same_text f.name name)) [
      | inl same ↦
          let e : f.name ≡ name = same_text→≡ f.name name same in
          let fits' : f.offset + field_size name ≤ step = rw e at fits in
          rw same λ found. small_offset f.offset step (field_size name) fits' h
      | inr other ↦ rw other (find_field_offset-IsWithin step fields name h inside)
    ]

pub find_intensity_offset-IsWithin :
    (step : ℕ) (fields : List SickScanPointField)
    → step < 2 ^ 31
    → IsInside step fields
    → IsWithin step 4 (find_intensity_offset fields)
unfolding find_intensity_offset same_text
find_intensity_offset-IsWithin step fields h inside =
    elim (Bool-cases (is_found (find_field_offset fields (codes "i")))) [
      | inl e ↦ rw e (find_field_offset-IsWithin step fields (codes "i") h inside)
      | inr e ↦ rw e (find_field_offset-IsWithin step fields (codes "intensity") h inside)
    ]

module _ {Float : Type 0} (float : IFloat Float) (buffer : Bytes) (step point : ℕ) where
  read_field-is_ok :
      (size : ℕ) (offset : ℤ)
      → point + step ≤ length buffer
      → pos_part offset + size ≤ step
      → is_ok (read_field size buffer point offset) ≡ true
  unfolding read_field
  read_field-is_ok size offset h fits = ground arith

  pub read_float-is_ok :
      (offset : ℤ)
      → point + step ≤ length buffer
      → pos_part offset + 4 ≤ step
      → is_ok (read_float float buffer point offset) ≡ true
  unfolding read_float
  read_float-is_ok offset h fits =
      is_ok-bind (read_field 4 buffer point offset) _ (read_field-is_ok 4 offset h fits) (λ _. refl)

  pub is_first_echo-is_ok :
      (offset : ℤ)
      → point + step ≤ length buffer
      → IsWithin step 1 offset
      → is_ok (is_first_echo buffer point offset) ≡ true
  unfolding is_first_echo
  is_first_echo-is_ok offset h fits = elim (Bool-cases (is_found offset)) [
    | inl e ↦ rw e (
        is_ok-bind (read_field 1 buffer point offset) _ (read_field-is_ok 1 offset h (fits e))
          (λ _. refl))
    | inr e ↦ rw e refl
  ]

  pub add_intensity-is_ok :
      (offset : ℤ) (intensities : List Float)
      → point + step ≤ length buffer
      → IsWithin step 4 offset
      → is_ok (add_intensity float buffer offset point intensities) ≡ true
  unfolding add_intensity
  add_intensity-is_ok offset intensities h fits = elim (Bool-cases (is_found offset)) [
    | inl e ↦
        rw (e, add_intensity)
          (is_ok-bind (read_float float buffer point offset) _ (read_float-is_ok offset h (fits e))
            (λ _. refl))
    | inr e ↦ rw (e, add_intensity) refl
  ]
