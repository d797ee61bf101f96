-- ===== src/Lidar/Replies/Trip.antt =====
-- src/query_wire.cpp: what was encoded is decoded.
use arun_work.Base.{
  ℕ, suc, ◌+◌, ◌<◌, ◌^◌, ◌≡◌, ◌∙◌, sym, refl, ap, List, [], ◌∷◌, ◌++◌, append_assoc, append-nil,
  some, false, ltb, length, length-append, drop, drop-append, All, Bytes, ok, ◌>>=◌, arith,
}
use arun_work.Base.Int.{pos}
use arun_work.Base.Words.{u32, i32_of}
use arun_work.Lidar.Scan.{Scan, LidarScan}
use arun_work.Lidar.Codec.{to_proto, IsScan, from_proto-to_proto, to_proto-fresh}
use arun_work.Lidar.Framing.{put_u32_le, get_u32_le, u32_le, get_u32_le-u32_le, length-u32_le}
use arun_work.Lidar.Replies.{IProtobuf, encode_from, encode_scans, decode_from, decode_scans}

module _ {Float : Type 0} (protobuf : IProtobuf (LidarScan Float)) (fresh : LidarScan Float) where
  open protobuf use {serialize, parse_array, IsEncodable, size_bound, parse_array-serialize}

  -- The encoding of one scan.
  abbrev pub payload : Scan Float → Bytes
  payload scan = serialize (to_proto scan fresh)

  abbrev pub frame : Scan Float → Bytes
  frame scan = u32_le (length (payload scan)) ++ payload scan

  abbrev pub frames : List (Scan Float) → Bytes
  frames [] = []
  frames (scan ∷ scans) = frame scan ++ frames scans

  -- A scan that its message can carry.
  abbrev pub IsWireable : Scan Float → Type 0
  IsWireable scan = IsScan scan × IsEncodable (to_proto scan fresh)

  pub size_word :
      (scan : Scan Float) → IsWireable scan → u32 (length (payload scan)) ≡ length (payload scan)
  size_word scan h = omega (arith, size_bound _ h.1)

  encode_from_lem :
      (scans : List (Scan Float)) (out : Bytes) (wire : LidarScan Float)
      → All IsWireable scans
      → encode_from protobuf out wire scans ≡ out ++ frames scans
  unfolding encode_from put_u32_le u32_le
  encode_from_lem [] out wire h = sym (append-nil out)
  encode_from_lem (scan ∷ scans) out wire h =
      rw (to_proto-fresh scan wire fresh, size_word scan h.0)
        (encode_from_lem scans _ (to_proto scan fresh) h.1 ∙ rw append_assoc (rw append_assoc refl))

  pub encode_scans_lem :
      (scans : List (Scan Float))
      → All IsWireable scans
      → encode_scans protobuf fresh scans ≡ u32_le (u32 (length scans)) ++ frames scans
  unfolding encode_scans put_u32_le
  encode_scans_lem scans h = encode_from_lem scans _ fresh h

  -- One round of the decoding loop, where the encoding of a scan stands behind `pre`.
  module _ (pre post bytes : Bytes) (scan : Scan Float) (h : IsWireable scan)
      (e : bytes ≡ pre ++ (frame scan ++ post)) where
    length-bytes : length bytes ≡ length pre + (4 + length (payload scan) + length post)
    length-bytes =
        rw
          (
            e,
            length-append pre,
            length-append (frame scan),
            length-append (u32_le _),
            length-u32_le,
          )
          refl

    prefix_there : get_u32_le bytes (length pre) ≡ length (payload scan)
    prefix_there =
        rw (e, append_assoc (u32_le (length (payload scan))) (payload scan) post)
          (get_u32_le-u32_le pre (payload scan ++ post) _ (omega (arith, size_bound _ h.1)))

    payload_there : drop (length pre + 4) bytes ≡ payload scan ++ post
    payload_there =
        rw (e, regrouped, sym past)
          (drop-append (pre ++ u32_le (length (payload scan))) (payload scan ++ post))
      where
        past : length (pre ++ u32_le (length (payload scan))) ≡ length pre + 4
        past = rw (length-append pre, length-u32_le) refl

        regrouped :
            pre ++ (frame scan ++ post)
            ≡ pre ++ u32_le (length (payload scan)) ++ (payload scan ++ post)
        regrouped =
            ap (◌++◌ pre) (append_assoc (u32_le _) (payload scan) post)
            ∙ sym (append_assoc pre (u32_le _) (payload scan ++ post))

    parses :
        parse_array (drop (length pre + 4) bytes) (i32_of (length (payload scan)))
        ≡ some (to_proto scan fresh)
    parses = rw (payload_there, small _ (size_bound _ h.1)) (parse_array-serialize _ post h.1)
      where
        small : (n : ℕ) → n < 2 ^ 31 → i32_of n ≡ pos n
        small n k = ground arith

    pub decode_next :
        (n : ℕ)
        → decode_from protobuf bytes (length pre) (suc n) ≡ (
            decode_from protobuf bytes (length pre + 4 + length (payload scan)) n >>= λ scans.
            ok (scan ∷ scans))
    unfolding decode_from
    decode_next n =
        rw (is_prefix, decode_from)
          (rw (prefix_there, is_payload, decode_from)
            (rw (prefix_there, parses, decode_from)
              (rw (prefix_there, from_proto-to_proto scan fresh h.0) refl)))
      where
        is_prefix : ltb (length bytes) (length pre + 4) ≡ false
        is_prefix = ground (arith, length-bytes)

        is_payload : ltb (length bytes) (length pre + 4 + length (payload scan)) ≡ false
        is_payload = ground (arith, length-bytes)

  pub shift :
      (pre : Bytes) (scan : Scan Float)
      → length pre + 4 + length (payload scan) ≡ length (pre ++ frame scan)
  shift pre scan =
      rw (length-append pre, length-append (u32_le (length (payload scan))), length-u32_le)
        (omega arith)

  decode_from-frames :
      (scans : List (Scan Float)) (pre post : Bytes)
      → All IsWireable scans
      → decode_from protobuf (pre ++ (frames scans ++ post)) (length pre) (length scans) ≡ ok scans
  decode_from-frames [] pre post h = unfold decode_from in refl
  decode_from-frames (scan ∷ scans) pre post h =
      decode_next pre (frames scans ++ post) bytes scan h.0 regrouped (length scans)
      ∙ rw (shift pre scan, moved, decode_from-frames scans (pre ++ frame scan) post h.1) refl
    where
      bytes : Bytes
      bytes = pre ++ (frame scan ++ frames scans ++ post)

      regrouped : bytes ≡ pre ++ (frame scan ++ (frames scans ++ post))
      regrouped = ap (◌++◌ pre) (append_assoc (frame scan) (frames scans) post)

      moved : bytes ≡ pre ++ frame scan ++ (frames scans ++ post)
      moved = regrouped ∙ sym (append_assoc pre (frame scan) (frames scans ++ post))

  pub decode_head :
      (n : ℕ) (body : Bytes)
      → n < 2 ^ 32
      → decode_scans protobuf (u32_le n ++ body) ≡ decode_from protobuf (u32_le n ++ body) 4 n
  unfolding decode_scans
  decode_head n body h = rw (long, decode_scans) (rw (get_u32_le-u32_le [] body n h) refl)
    where
      long : ltb (length (u32_le n ++ body)) 4 ≡ false
      long = rw (length-append (u32_le n) body, length-u32_le) (ground arith)

  -- What the server encodes the client decodes, to the same scans in the same order, whatever bytes
  -- follow. There are less than 2 ^ 32 scans, and the message format can carry each.
  pub decode_scans-encode_scans :
      (scans : List (Scan Float)) (rest : Bytes)
      → All IsWireable scans
      → length scans < 2 ^ 32
      → decode_scans protobuf (encode_scans protobuf fresh scans ++ rest) ≡ ok scans
  unfolding decode_from u32_le
  decode_scans-encode_scans scans rest h few =
      rw (encode_scans_lem scans h, count_word, append_assoc (u32_le (length scans)))
        (decode_head (length scans) (frames scans ++ rest) few
          ∙ decode_from-frames scans (u32_le (length scans)) rest h)
    where
      count_word : u32 (length scans) ≡ length scans
      count_word = omega arith
