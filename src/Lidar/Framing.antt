-- ===== src/Lidar/Framing.antt =====
-- The 32-bit little-endian prefixes of src/query_wire.cpp (put_u32_le, get_u32_le) and of
-- src/recorder.cpp and src/reader.cpp (write_length_prefix, read_length_prefix).
-- A shift to the right is a division, and the bytes that `|` joins overlap in no bit.
use arun_work.Base.{
  ℕ, ◌+◌, ◌*◌, ◌/◌, ◌<◌, ◌≡◌, ◌^◌, refl, ap, [], ◌∷◌, ◌++◌, get_or, length, Bytes, arith,
}
use native.Mathlib.Nat.{zero-add, suc-add}
use arun_work.Base.Words.{u8}

-- The four bytes of a word.
unfoldable pub u32_le : ℕ → Bytes
u32_le v = u8 v ∷ u8 (v / 256) ∷ u8 (v / 65_536) ∷ u8 (v / 16_777_216) ∷ []

unfoldable pub put_u32_le : Bytes → ℕ → Bytes
put_u32_le out v = out ++ u32_le v

-- Both callers have checked that four bytes are there.
unfoldable pub get_u32_le : Bytes → ℕ → ℕ
get_u32_le bytes at =
    get_or bytes at 0
    + get_or bytes (at + 1) 0 * 256
    + get_or bytes (at + 2) 0 * 65_536
    + get_or bytes (at + 3) 0 * 16_777_216

get_or-append : (pre xs : Bytes) (i : ℕ) → get_or (pre ++ xs) (length pre + i) 0 ≡ get_or xs i 0
get_or-append [] xs i = rw (zero-add i) refl
get_or-append (x ∷ pre) xs i = rw (suc-add (length pre) i) (get_or-append pre xs i)

-- The word that stands at the end of `pre` is read back there, whatever follows.
pub get_u32_le-u32_le :
    (pre post : Bytes) (v : ℕ)
    → v < 2 ^ 32
    → get_u32_le (pre ++ (u32_le v ++ post)) (length pre) ≡ v
unfolding get_u32_le u32_le
get_u32_le-u32_le pre post v h =
    let rest = u32_le v ++ post in
    rw
      (
        zero_at,
        get_or-append pre rest 0,
        get_or-append pre rest 1,
        get_or-append pre rest 2,
        get_or-append pre rest 3,
      )
      (omega arith)
  where
    zero_at :
        get_or (pre ++ (u32_le v ++ post)) (length pre) 0
        ≡ get_or (pre ++ (u32_le v ++ post)) (length pre + 0) 0
    zero_at = ap (λ k. get_or (pre ++ (u32_le v ++ post)) k 0) (omega arith)

pub length-u32_le : (v : ℕ) → length (u32_le v) ≡ 4
unfolding u32_le
length-u32_le v = refl
