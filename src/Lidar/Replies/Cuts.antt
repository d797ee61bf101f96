-- ===== src/Lidar/Replies/Cuts.antt =====
-- src/query_wire.cpp: a reply that was cut short is refused.
use arun_work.Base.{
  ℕ, zero, suc, ◌+◌, ◌<◌, ◌^◌, ◌≡◌, ◌∙◌, sym, refl, ap, List, [], ◌∷◌, ◌++◌, append_assoc, true,
  ltb, length, length-append, length-take, take, All, Bytes, Exception, Result, err, arith,
  Bool-cases, inl, inr, ◌⊎◌,
}
use arun_work.Base.Words.{u32}
use arun_work.Lidar.Scan.{Scan, LidarScan}
use arun_work.Lidar.Framing.{u32_le, get_u32_le-u32_le, length-u32_le}
use arun_work.Lidar.Replies.{IProtobuf, encode_scans, decode_from, decode_scans}
use arun_work.Lidar.Replies.Trip.{
  payload, frame, frames, IsWireable, encode_scans_lem, decode_next, decode_head, shift,
}

abbrev pub IsRefused : {A : Type 0} → Result Exception A → Type 0
IsRefused r = (e : Exception) × (r ≡ err e)

-- A prefix of `xs ++ ys` is a prefix of `xs`, or all of `xs` and a prefix of `ys`.
take-append_cases :
    (k : ℕ) (xs ys : Bytes)
    → ((k < length xs) × (take k (xs ++ ys) ≡ take k xs))
      ⊎ ((j : ℕ) × (k ≡ length xs + j) × (take k (xs ++ ys) ≡ xs ++ take j ys))
take-append_cases k [] ys = inr (k, omega arith, refl)
take-append_cases zero (x ∷ xs) ys = inl (omega arith, refl)
take-append_cases (suc k) (x ∷ xs) ys = elim (take-append_cases k xs ys) [
  | inl (h, e) ↦ inl (omega (arith, h), ap (◌∷◌ x) e)
  | inr (j, h, e) ↦ inr (j, omega (arith, h), ap (◌∷◌ x) e)
]

module _ {Float : Type 0} (protobuf : IProtobuf (LidarScan Float)) (fresh : LidarScan Float) where
  -- The buffer ends inside the encoding of the first scan.
  cut_inside :
      (pre : Bytes) (scan : Scan Float) (k n : ℕ)
      → IsWireable protobuf fresh scan
      → k < length (frame protobuf fresh scan)
      → IsRefused
          (decode_from protobuf (pre ++ take k (frame protobuf fresh scan)) (length pre) (suc n))
  unfolding decode_from
  cut_inside pre scan k n h inside = elim (take-append_cases k (u32_le size) body) [
    | inl (few, e) ↦ rw (e, in_prefix few, decode_from) (_, refl)
    | inr (j, more, e) ↦
        rw e
          (elim (Bool-cases (ltb (length (pre ++ (u32_le size ++ take j body))) (length pre + 4))) [
            | inl short ↦ rw (short, decode_from) (_, refl)
            | inr long ↦
                rw (long, decode_from)
                  (rw
                    (
                      get_u32_le-u32_le pre (take j body) size (omega (arith, word)),
                      in_body j more,
                      decode_from,
                    )
                    (_, refl))
          ])
  ]
    where
      body : Bytes
      body = payload protobuf fresh scan

      size : ℕ
      size = length body

      word : size < 2 ^ 31
      word = protobuf.size_bound _ h.1

      in_prefix :
          k < length (u32_le size)
          → ltb (length (pre ++ take k (u32_le size))) (length pre + 4) ≡ true
      in_prefix few = ground (
        arith,
        length-append pre (take k (u32_le size)),
        length-take k (u32_le size),
        length-u32_le size,
        few,
      )

      in_body :
          (j : ℕ)
          → k ≡ length (u32_le size) + j
          → ltb (length (pre ++ (u32_le size ++ take j body))) (length pre + 4 + size) ≡ true
      in_body j more = ground (
        arith,
        length-append pre (u32_le size ++ take j body),
        length-append (u32_le size) (take j body),
        length-append (u32_le size) body,
        length-take j body,
        length-u32_le size,
        inside,
        more,
      )

  cut_from :
      (scans : List (Scan Float)) (pre : Bytes) (k : ℕ)
      → All (IsWireable protobuf fresh) scans
      → k < length (frames protobuf fresh scans)
      → IsRefused (
          decode_from protobuf
            (pre ++ take k (frames protobuf fresh scans))
            (length pre)
            (length scans))
  cut_from [] pre k h short = absurd (omega (arith, short))
  cut_from (scan ∷ scans) pre k h short =
      elim (take-append_cases k whole (frames protobuf fresh scans)) [
        | inl (inside, e) ↦ rw e (cut_inside pre scan k (length scans) h.0 inside)
        | inr (j, more, e) ↦
            let rest = take j (frames protobuf fresh scans) in
            let (x, q) = cut_from scans (pre ++ whole) j h.1 (left j more) in
            rw e (
              x,
              decode_next protobuf fresh pre rest (pre ++ (whole ++ rest)) scan h.0 refl
                    (length scans)
                  ∙ rw (shift protobuf fresh pre scan, sym (append_assoc pre whole rest), q) refl,
            )
      ]
    where
      whole : Bytes
      whole = frame protobuf fresh scan

      left : (j : ℕ) → k ≡ length whole + j → j < length (frames protobuf fresh scans)
      left j more = omega (arith, short, more, length-append whole (frames protobuf fresh scans))

  -- A reply that ends before its last byte is refused with an exception, wherever it was cut: no
  -- scans are made up, and none that did arrive whole are passed on.
  pub decode_scans-cut :
      (scans : List (Scan Float)) (k : ℕ)
      → All (IsWireable protobuf fresh) scans
      → length scans < 2 ^ 32
      → k < length (encode_scans protobuf fresh scans)
      → IsRefused (decode_scans protobuf (take k (encode_scans protobuf fresh scans)))
  unfolding decode_scans
  decode_scans-cut scans k h few short =
      rw (encode_scans_lem protobuf fresh scans h, count_word)
        (cut (rw (encode_scans_lem protobuf fresh scans h, count_word) at short))
    where
      count_word : u32 (length scans) ≡ length scans
      count_word = omega arith

      head : Bytes
      head = u32_le (length scans)

      tail : Bytes
      tail = frames protobuf fresh scans

      cut : k < length (head ++ tail) → IsRefused (decode_scans protobuf (take k (head ++ tail)))
      cut s = elim (take-append_cases k head tail) [
        | inl (inside, e) ↦ rw (e, in_count inside, decode_scans) (_, refl)
        | inr (j, more, e) ↦
            rw (e, decode_head protobuf fresh (length scans) (take j tail) few)
              (rw (length-u32_le (length scans)) at
                (cut_from scans head j h (omega (arith, s, more, length-append head tail))))
      ]
        where
          in_count : k < length head → ltb (length (take k head)) 4 ≡ true
          in_count inside = ground (arith, length-take k head, length-u32_le (length scans), inside)
