-- ===== src/Lidar/Log/Records.antt =====
-- src/reader.cpp: the reading of one record, and of the rows of a range.
use arun_work.Base.{
  ℕ, zero, suc, ◌+◌, ◌≡◌, ◌∙◌, sym, refl, ap, List, [], ◌∷◌, ◌++◌, append_assoc, append-nil, take,
  drop, take-append, drop-append, get_elem?, some, true, false, ◌==◌, length, length-append, Bytes,
  ok, arith, if◌then◌else◌, Bool-cases, inl, inr,
}
use arun_work.Base.Int.{ℤ, pos}
use arun_work.Base.Words.{u32_of}
use arun_work.Lidar.Scan.{Scan, LidarScan}
use arun_work.Lidar.Codec.{from_proto-to_proto}
use arun_work.Lidar.Framing.{u32_le, get_u32_le, get_u32_le-u32_le, length-u32_le}
use arun_work.Lidar.Replies.{IProtobuf}
use arun_work.Lidar.Replies.Trip.{payload, frame, IsWireable}
use arun_work.Lidar.Log.{Row, find_seq, in_range, select_range}
use arun_work.Lidar.Log.Reader.{read_at, read_record, read_rows}
use arun_work.Lidar.Log.Indexed.{IsAt, IsRecorded}

module _ {Float : Type 0} where
  -- The recorded scans with a stamp in the range, in their order.
  abbrev pub scans_in_range : ℤ → ℤ → List (Scan Float) → List (Scan Float)
  scans_in_range from to [] = []
  scans_in_range from to (scan ∷ scans) =
      if in_range from to scan.stamp_ns
      then scan ∷ scans_in_range from to scans
      else scans_in_range from to scans

module _ {Float : Type 0} (protobuf : IProtobuf (LidarScan Float)) (fresh : LidarScan Float) where
  open protobuf use {size_bound, parse-serialize}

  -- A frame behind `before` is read.
  module _ (before after : Bytes) (scan : Scan Float) (h : IsWireable protobuf fresh scan) where
    abbrev body : Bytes
    body = payload protobuf fresh scan

    abbrev log_file : Bytes
    log_file = before ++ (frame protobuf fresh scan ++ after)

    prefix_read : take 4 (drop (length before) log_file) ≡ u32_le (length body)
    prefix_read =
        rw
          (
            drop-append before (frame protobuf fresh scan ++ after),
            append_assoc (u32_le (length body)) body after,
          )
          (ap (λ n. take n (u32_le (length body) ++ (body ++ after)))
              (sym (length-u32_le (length body)))
            ∙ take-append (u32_le (length body)) (body ++ after))

    payload_read : take (length body) (drop (length before + 4) log_file) ≡ body
    payload_read =
        rw (regrouped, sym past)
          (rw (drop-append (before ++ u32_le (length body)) (body ++ after))
            (take-append body after))
      where
        past : length (before ++ u32_le (length body)) ≡ length before + 4
        past = rw (length-append before, length-u32_le) refl

        regrouped : log_file ≡ before ++ u32_le (length body) ++ (body ++ after)
        regrouped =
            ap (◌++◌ before) (append_assoc (u32_le _) body after)
            ∙ sym (append_assoc before (u32_le _) (body ++ after))

    declared_read : get_u32_le (u32_le (length body)) 0 ≡ length body
    declared_read =
        ap (λ b. get_u32_le b 0) (sym (append-nil (u32_le (length body))))
        ∙ get_u32_le-u32_le [] [] _ (omega (arith, size_bound _ h.1))

    read_at_lem : read_at protobuf log_file (length before) (pos (length body)) ≡ (ok scan, false)
    unfolding read_at
    read_at_lem =
        rw (whole_prefix, read_at)
          (rw (declared, same_length, read_at)
            (rw (declared, payload_read, whole_payload, read_at)
              (rw (declared, payload_read, parse-serialize _ h.1, read_at)
                (rw (from_proto-to_proto scan fresh h.0) refl))))
      where
        whole_prefix : (length (take 4 (drop (length before) log_file)) == 4) ≡ true
        whole_prefix = rw (prefix_read, length-u32_le) refl

        declared : get_u32_le (take 4 (drop (length before) log_file)) 0 ≡ length body
        declared = rw prefix_read declared_read

        same_length : (length body == u32_of (pos (length body))) ≡ true
        same_length = ground (arith, size_bound _ h.1)

        whole_payload : (length body == length body) ≡ true
        whole_payload = ground arith

  pub read_record-IsAt :
      (file : Bytes) (row : Row) (scan : Scan Float)
      → IsAt protobuf fresh file row scan
      → read_record protobuf file false row.offset row.length ≡ (ok scan, false)
  unfolding read_record
  read_record-IsAt file row scan at =
      rw (at.there, at.offset, at.size) (read_at_lem at.before at.after scan at.wireable)

  pub read_rows-IsRecorded :
      (file : Bytes) (seq : ℕ) (rows : List Row) (scans : List (Scan Float)) (from to : ℤ)
      → IsRecorded protobuf fresh file seq rows scans
      → read_rows protobuf file false (select_range from to rows)
        ≡ (ok (scans_in_range from to scans), false)
  unfolding read_rows
  read_rows-IsRecorded file seq [] [] from to h = refl
  read_rows-IsRecorded file seq (row ∷ rows) (scan ∷ scans) from to (e, at, h) =
      elim (Bool-cases (in_range from to scan.stamp_ns)) [
        | inl inside ↦
            rw (at.stamp, inside)
              (rw (read_record-IsAt file row scan at, read_rows)
                (rw
                  (
                    read_record-IsAt file row scan at,
                    read_rows-IsRecorded file (suc seq) rows scans from to h,
                  )
                  refl))
        | inr outside ↦
            rw (at.stamp, outside) (read_rows-IsRecorded file (suc seq) rows scans from to h)
      ]
  read_rows-IsRecorded file seq [] (_ ∷ _) from to h = absurd h
  read_rows-IsRecorded file seq (_ ∷ _) [] from to h = absurd h

  pub find_seq-IsRecorded :
      (file : Bytes) (seq i : ℕ) (rows : List Row) (scans : List (Scan Float)) (scan : Scan Float)
      → IsRecorded protobuf fresh file seq rows scans
      → get_elem? scans i ≡ some scan
      → (row : Row) × (find_seq (seq + i) rows ≡ some row) × IsAt protobuf fresh file row scan
  find_seq-IsRecorded file seq i [] [] scan h g = absurd (cc g)
  find_seq-IsRecorded file seq zero (row ∷ rows) (s ∷ scans) scan (e, at, h) g =
      (row, rw here refl, rw⁻¹ (some_inj g) at)
    where
      here : (row.seq == seq + 0) ≡ true
      here = ground (arith, e)

      some_inj : {a b : Scan Float} → some a ≡ some b → a ≡ b
      some_inj p = cc p
  find_seq-IsRecorded file seq (suc i) (row ∷ rows) (s ∷ scans) scan (e, at, h) g =
      let (found, f, there) = find_seq-IsRecorded file (suc seq) i rows scans scan h g in
      (found, rw elsewhere (ap (λ k. find_seq k rows) next ∙ f), there)
    where
      elsewhere : (row.seq == seq + suc i) ≡ false
      elsewhere = ground (arith, e)

      next : seq + suc i ≡ suc seq + i
      next = omega arith
  find_seq-IsRecorded file seq i [] (_ ∷ _) scan h g = absurd h
  find_seq-IsRecorded file seq i (_ ∷ _) [] scan h g = absurd h
