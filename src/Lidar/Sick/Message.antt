-- ===== src/Lidar/Sick/Message.antt =====
-- src/sick_scan_source.cpp: what is read of a message of the vendor's driver. The record has the
-- fields of `SickScanPointCloudMsg` that the code reads; `buffer` is `none` for a null pointer, and
-- else the memory that it points to.
use arun_work.Base.{
  ℕ, ◌+◌, ◌*◌, List, [], ◌∷◌, ◌++◌, take, drop, Option, none, some, Bool, true, false, ◌&&◌, length,
  leb, ltb, ◌==◌, get_or, Bytes, codes, Result, ok, err, ◌>>=◌, if◌then◌else◌,
}
use arun_work.Base.Int.{ℤ, pos, negsuc, pos_part, ltb_ℤ, leb_ℤ, ◌-ℤ◌}
use arun_work.Base.Words.{i32_of, u64}
use arun_work.Lidar.Query.{same_text}

pub record SickScanPointField : Type 0 where
  pub name : Bytes
  pub offset : ℕ

pub record SickScanPointCloudMsg : Type 0 where
  pub timestamp_sec : ℕ
  pub timestamp_nsec : ℕ
  pub width : ℕ
  pub height : ℕ
  pub fields : List SickScanPointField
  pub point_step : ℕ
  pub buffer : Option Bytes
  pub size : ℕ
  pub num_echos : ℤ

-- The machine's floats: reading one from its four bytes, and the operations the code applies.
pub record IFloat (Float : Type 0) : Type 0 where
  pub of_bytes : Bytes → Float
  pub of_ℕ : ℕ → Float
  pub min : Float → Float → Float
  pub max : Float → Float → Float
  pub minus : Float → Float → Float
  pub divided_by : Float → Float → Float

-- What C++ leaves undefined.
pub data Undefined : Type 0 where
  out_of_bounds : Undefined

unfoldable pub find_field_offset : List SickScanPointField → Bytes → ℤ
find_field_offset [] name = negsuc 0
find_field_offset (field ∷ fields) name =
    if same_text field.name name then i32_of field.offset else find_field_offset fields name

abbrev pub is_found : ℤ → Bool
is_found offset = leb_ℤ (pos 0) offset

unfoldable pub find_intensity_offset : List SickScanPointField → ℤ
find_intensity_offset fields =
    let offset = find_field_offset fields (codes "i") in
    if is_found offset then offset else find_field_offset fields (codes "intensity")

-- `memcpy` of so many bytes at `point + offset`, for an offset that is not negative.
unfoldable pub read_field : ℕ → Bytes → ℕ → ℤ → Result Undefined Bytes
read_field size buffer point offset =
    let at = point + pos_part offset in
    if leb (at + size) (length buffer) then ok (take size (drop at buffer)) else err out_of_bounds

unfoldable pub read_float : {Float : Type 0} → IFloat Float → Bytes → ℕ → ℤ → Result Undefined Float
read_float float buffer point offset = do
  bytes ← read_field 4 buffer point offset
  ok (float.of_bytes bytes)

-- The test that skips the points of the later echoes.
unfoldable pub is_first_echo : Bytes → ℕ → ℤ → Result Undefined Bool
is_first_echo buffer point offset_echo =
    if is_found offset_echo
    then (do echo ← read_field 1 buffer point offset_echo; ok (get_or echo 0 0 == 0))
    else ok true

unfoldable pub add_intensity :
    {Float : Type 0} → IFloat Float → Bytes → ℤ → ℕ → List Float → Result Undefined (List Float)
add_intensity float buffer offset point intensities = elim (is_found offset) [
  | false ↦ ok intensities
  | true ↦ do intensity ← read_float float buffer point offset; ok (intensities ++ intensity ∷ [])
]

-- `kMaxPlausibleScanTimeNs`
abbrev pub max_plausible_scan_time_ns : ℤ
max_plausible_scan_time_ns = pos 5_000_000_000

unfoldable pub stamp_of : SickScanPointCloudMsg → ℤ
stamp_of msg = pos (msg.timestamp_sec * 1_000_000_000 + msg.timestamp_nsec)

-- `previous` is what the exchange of `last_stamp_ns` returned.
unfoldable pub scan_time_of : ℤ → ℤ → ℤ
scan_time_of previous stamp_ns =
    let delta_ns = stamp_ns -ℤ previous in
    if ltb_ℤ (pos 0) previous && ltb_ℤ (pos 0) delta_ns && leb_ℤ delta_ns max_plausible_scan_time_ns
    then delta_ns
    else pos 0

-- The number of points, and whether the buffer is too small for them.
abbrev pub points_of : SickScanPointCloudMsg → ℕ
points_of msg = u64 (msg.width * msg.height)

abbrev pub is_truncated : SickScanPointCloudMsg → Bool
is_truncated msg = ltb msg.size (u64 (points_of msg * msg.point_step))

-- The points are read if there is a buffer, and the checks do not reject the message.
unfoldable pub if_readable :
    {A : Type 0} → Bool → Option Bytes → (Bytes → Result Undefined A) → Result Undefined (Option A)
if_readable unreadable none read = ok none
if_readable true (some buffer) read = ok none
if_readable false (some buffer) read = do a ← read buffer; ok (some a)
