-- ===== src/Programs/DumpScans.antt =====
-- apps/dump_scans.cpp: the scans of a recording are printed. `atoll` and the opening of the reader
-- are parameters.
use arun_work.Base.{
  ℕ, zero, suc, drop, length-drop, take-all, Bool-cases, inl, inr, ◌+◌, ◌-◌, ◌<◌, ◌≤◌, ◌^◌, ◌≡◌,
  ◌∙◌, refl, sym, ap, List, [], ◌∷◌, ◌++◌, take, length, length-append, append_assoc,
  get_elem?-length, Option, none, some, true, false, not, ◌==◌, ltb, ◌&&◌, if◌then◌else◌, get_elem?,
  Bytes, Exception, what, Result, ok, err, arith,
}
use arun_work.Base.Int.{ℤ}
use arun_work.Base.Words.{u64_of}
use arun_work.Lidar.Scan.{Scan, LidarScan}
use arun_work.Lidar.Replies.{IProtobuf}
use arun_work.Lidar.Log.{IIndex}
use arun_work.Lidar.Log.Reader.{ScanReader, count, get}
use arun_work.Lidar.Log.Indexed.{IsRecorded}
use arun_work.Lidar.Log.Playback.{count-scans, get-inside}

-- What is printed: the total, each scan with its index, and how many more there are; and the exit
-- status, `none` if an exception that is not a `std::exception` ends the process.
pub record Dump (Float : Type 0) : Type 0 where
  pub total : Option ℕ
  pub lines : List (ℕ × Scan Float)
  pub not_shown : Option ℕ
  pub status : Option ℕ

-- The status that an exception which left the `try` block ends with.
abbrev pub caught_status : Exception → Option ℕ
caught_status e = elim (what e) [ none ↦ none | some message ↦ some 1 ]

unfoldable pub limit_of : ℕ → ℕ → ℕ
limit_of max_scans total = if not (max_scans == 0) && ltb max_scans total then max_scans else total

unfoldable pub not_shown_of : ℕ → ℕ → Option ℕ
not_shown_of limit total = if ltb limit total then some (total - limit) else none

abbrev pub failed_dump : {Float : Type 0} → Exception → Dump Float
failed_dump e = record { total = none; lines = []; not_shown = none; status = caught_status e }

module _ {Float Db : Type 0} (protobuf : IProtobuf (LidarScan Float)) (index : IIndex Db) where
  -- The loop from index `i` on, for so many rounds: what it prints, and the exception that ends it.
  unfoldable pub dump_loop :
      Bytes → ℕ → ℕ → ScanReader Db → List (ℕ × Scan Float) × Option Exception
  dump_loop file zero i r = ([], none)
  dump_loop file (suc n) i r =
      let (read, r') = get protobuf index file r i in
      let (lines, ended) = dump_loop file n (i + 1) r' in
      elim read [ err e ↦ ([], some e) | ok scan ↦ ((i, scan) ∷ lines, ended) ]

  -- `file` is the log, as it stands during the run.
  unfoldable pub dump : Bytes → ℕ → ScanReader Db → Dump Float
  dump file max_scans r = elim (count protobuf index r) [
    | err e ↦ failed_dump e
    | ok total ↦
        let (lines, ended) = dump_loop file (limit_of max_scans total) 0 r in
        elim ended [
          | some e ↦ record {
            total = some total;
            lines = lines;
            not_shown = none;
            status = caught_status e;
          }
          | none ↦ record {
            total = some total;
            lines = lines;
            not_shown = not_shown_of (limit_of max_scans total) total;
            status = some 0;
          }
        ]
  ]

  abbrev pub max_of : (Bytes → ℤ) → List Bytes → ℕ
  max_of atoll [] = 0
  max_of atoll (arg ∷ args) = u64_of (atoll arg)

  -- The arguments are those behind the program's name.
  unfoldable pub dump_main :
      (Bytes → ℤ)
      → (Bytes → Bytes → Result Exception (ScanReader Db))
      → (Bytes → Bytes)
      → List Bytes
      → Dump Float
  dump_main atoll open_reader content (log_path ∷ db_path ∷ rest) =
      elim (open_reader log_path db_path) [
        | err e ↦ failed_dump e
        | ok r ↦ dump (content log_path) (max_of atoll rest) r
      ]
  dump_main atoll open_reader content _ = record {
    total = none;
    lines = [];
    not_shown = none;
    status = some 1;
  }

-- What is to be printed: all, or the first so many if a maximum other than 0 is given.
abbrev pub first_scans : {A : Type 0} → ℕ → List A → List A
first_scans zero scans = scans
first_scans (suc n) scans = take (suc n) scans

abbrev number_of : {A : Type 0} → List A → Option ℕ
number_of [] = none
number_of (x ∷ xs) = some (length (x ∷ xs))

-- How many are left over, if any.
abbrev pub left_over : {A : Type 0} → ℕ → List A → Option ℕ
left_over zero scans = none
left_over (suc n) scans = number_of (drop (suc n) scans)

limit_of-le : (max_scans total : ℕ) → limit_of max_scans total ≤ total
unfolding limit_of
limit_of-le max_scans total = ground arith

limit_of-below : (n total : ℕ) → ltb (suc n) total ≡ true → limit_of (suc n) total ≡ suc n
unfolding limit_of
limit_of-below n total h = ground (arith, h)

limit_of-above : (n total : ℕ) → ltb (suc n) total ≡ false → limit_of (suc n) total ≡ total
unfolding limit_of
limit_of-above n total h = ground (arith, h)

take-limit_of :
    {A : Type 0} (max_scans : ℕ) (scans : List A)
    → take (limit_of max_scans (length scans)) scans ≡ first_scans max_scans scans
take-limit_of zero scans = unfold limit_of in take-all scans (length scans) (omega arith)
take-limit_of (suc n) scans = elim (Bool-cases (ltb (suc n) (length scans))) [
  | inl more ↦ rw (limit_of-below n (length scans) more) refl
  | inr all ↦ rw (limit_of-above n (length scans) all) (
      take-all scans (length scans) (omega arith)
      ∙ sym (take-all scans (suc n) (ground (arith, all))))
]

number_of-length :
    {A : Type 0} (xs : List A) (n : ℕ)
    → length xs ≡ n
    → number_of xs ≡ (if ltb 0 n then some n else none)
number_of-length [] n h = ground (arith, h)
number_of-length (x ∷ xs) n h = ground (arith, h)

not_shown_of-limit_of :
    {A : Type 0} (max_scans : ℕ) (scans : List A)
    → not_shown_of (limit_of max_scans (length scans)) (length scans) ≡ left_over max_scans scans
unfolding limit_of not_shown_of
not_shown_of-limit_of zero scans = ground arith
not_shown_of-limit_of (suc n) scans = sym (
    number_of-length (drop (suc n) scans) (length scans - suc n) (length-drop (suc n) scans)
    ∙ ground arith)

-- The scans with their indices.
abbrev pub numbered : {A : Type 0} → ℕ → List A → List (ℕ × A)
numbered i [] = []
numbered i (x ∷ xs) = (i, x) ∷ numbered (suc i) xs

module _ {Float Db : Type 0} (protobuf : IProtobuf (LidarScan Float)) (index : IIndex Db)
    (file : Bytes) (r : ScanReader Db) where
  dump_loop-suc :
      (n i : ℕ) (scan : Scan Float)
      → get protobuf index file r i ≡ (ok scan, r)
      → dump_loop protobuf index file (suc n) i r ≡ (
        (i, scan) ∷ (dump_loop protobuf index file n (i + 1) r).0,
        (dump_loop protobuf index file n (i + 1) r).1,
      )
  unfolding dump_loop
  dump_loop-suc n i scan e = rw (e, dump_loop) (rw e refl)

module _ {Float Db : Type 0} (protobuf : IProtobuf (LidarScan Float)) (fresh : LidarScan Float)
    (index : IIndex Db) where
  open index use {rows, IsReady}

  module _ (file : Bytes) (r : ScanReader Db) (scans : List (Scan Float)) (ready : IsReady r.db)
      (usable : r.failed ≡ false) (held : IsRecorded protobuf fresh file 1 (rows r.db) scans)
      (few : length scans < 2 ^ 64) where
    dump_loop-numbered :
        (before : List (Scan Float)) (rest : List (Scan Float)) (n : ℕ)
        → scans ≡ before ++ rest
        → n ≤ length rest
        → dump_loop protobuf index file n (length before) r
          ≡ (numbered (length before) (take n rest), none)
    unfolding dump_loop
    dump_loop-numbered before rest zero e h = refl
    dump_loop-numbered before [] (suc n) e h = absurd (omega (arith, h))
    dump_loop-numbered before (scan ∷ rest) (suc n) e h =
        let one : length before + 1 ≡ suc (length before) = omega arith in
        let later =
          dump_loop-numbered (before ++ scan ∷ []) rest n
            (e ∙ sym (append_assoc before (scan ∷ []) rest)) (omega (arith, h)) in
        dump_loop-suc protobuf index file r n (length before) scan (
          get-inside protobuf fresh index file r scans ready usable held (length before) scan few
            (ap (λ l. get_elem? l (length before)) e ∙ get_elem?-length before scan rest))
        ∙ rw one (rw (rw (length-append before (scan ∷ []), one) at later) refl)

    dump-limited :
        (max_scans : ℕ)
        → let limit = limit_of max_scans (length scans) in
          dump protobuf index file max_scans r ≡ record {
            total = some (length scans);
            lines = numbered 0 (take limit scans);
            not_shown = not_shown_of limit (length scans);
            status = some 0;
          }
    unfolding dump
    dump-limited max_scans =
        rw (count-scans protobuf fresh index file r scans ready usable held few, dump)
          (rw
            (
              dump_loop-numbered [] scans (limit_of max_scans (length scans)) refl
                  (limit_of-le max_scans (length scans)),
              dump,
            )
            (rw
              (dump_loop-numbered [] scans (limit_of max_scans (length scans)) refl
                (limit_of-le max_scans (length scans)))
              refl))

    -- A recording of less than 2 ^ 64 scans, with a ready index and a stream that has not failed, is
    -- dumped whole, or its first so many scans if a maximum other than 0 is given: each scan as it was
    -- recorded, in order and with its index; and those left over are counted, if there are any. The
    -- program exits with 0.
    pub dump-numbered :
        (max_scans : ℕ)
        → dump protobuf index file max_scans r ≡ record {
          total = some (length scans);
          lines = numbered 0 (first_scans max_scans scans);
          not_shown = left_over max_scans scans;
          status = some 0;
        }
    dump-numbered max_scans =
        rw (take-limit_of max_scans scans, not_shown_of-limit_of max_scans scans) at
          (dump-limited max_scans)
