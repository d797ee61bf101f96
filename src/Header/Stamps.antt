-- ===== src/Header/Stamps.antt =====
-- src/message.cpp: a stamped header is accepted, and nothing else is passed on.
use arun_work.Base.{
  ℕ, ◌≡◌, ◌≢◌, ◌⊎◌, refl, Option, none, some, ltb, Bytes, length, Option-cases, Bool-cases, inl,
  inr, arith,
}
use arun_work.Base.Int.{ℤ}
use arun_work.Base.Words.{i32_of}
use arun_work.Header.{Header, HeaderStatus, accepted, schema_version, stamp, peek_header}

module _ (parse_any : Bytes → ℤ → Option (Option Header)) (bytes : Bytes) (out : Header) where
  -- Where the bytes parse to a header that `stamp` filled in, `peek_header` accepts them and gives
  -- this header.
  pub peek_header-stamp :
      (now : ℤ) (header : Header) (publisher : Bytes) (sequence : ℕ)
      → parse_any bytes (i32_of (length bytes))
        ≡ some (some (stamp now header publisher sequence).1)
      → peek_header parse_any bytes out ≡ (accepted, (stamp now header publisher sequence).1)
  unfolding peek_header stamp
  peek_header-stamp now header publisher sequence e = rw (e, peek_header) refl

  abbrev pub IsSafe : HeaderStatus × Header → Type 0
  IsSafe (status, result) =
      ((status ≡ accepted)
        × (parse_any bytes (i32_of (length bytes)) ≡ some (some result))
        × (result.schema_version ≡ schema_version))
      ⊎ ((status ≢ accepted) × (result ≡ out))

  -- Whatever the bytes are: either they are accepted, they parse to the header given back, and it has
  -- this build's version; or they are refused and `out` is left as it was.
  pub peek_header-IsSafe : IsSafe (peek_header parse_any bytes out)
  unfolding peek_header
  peek_header-IsSafe = elim (Option-cases (parse_any bytes (i32_of (length bytes)))) [
    | inl e ↦ rw (e, peek_header) (inr (λ h. cc h, refl))
    | inr (any, e) ↦ by_any any e
  ]
    where
      by_any :
          (any : Option Header)
          → parse_any bytes (i32_of (length bytes)) ≡ some any
          → IsSafe (peek_header parse_any bytes out)
      by_any none e = rw (e, peek_header) (inr (λ h. cc h, refl))
      by_any (some header) e = elim (Bool-cases (ltb schema_version header.schema_version)) [
        | inl new ↦ rw (e, peek_header) (rw new (inr (λ h. cc h, refl)))
        | inr known ↦ elim (Bool-cases (ltb header.schema_version schema_version)) [
          | inl old ↦ rw (e, peek_header) (rw (known, old) (inr (λ h. cc h, refl)))
          | inr same ↦
              rw (e, peek_header) (rw (known, same) (inl (refl, refl, ground (arith, known, same))))
        ]
      ]
