-- ===== src/Lidar/Query/Requests.antt =====
-- src/query_server.cpp: the server reads the numbers that the client wrote.
use arun_work.Base.{
  ◌≡◌, ◌∙◌, sym, refl, ap, [], ◌∷◌, ◌++◌, append_assoc, append-nil, none, some, false, Bytes, codes,
}
use arun_work.Base.Int.{ℤ}
use arun_work.Base.Words.{IsI64}
use arun_work.Base.Decimal.{to_string}
use arun_work.Base.Digits.{from_chars, from_chars-to_string, to_string-head}
use arun_work.Lidar.Query.{after_prefix, skip_spaces, parse_range, parse_recent, same_text}

abbrev pub range_request : ℤ → ℤ → Bytes
range_request start end = codes "RANGE " ++ to_string start ++ codes " " ++ to_string end

abbrev pub recent_request : ℤ → Bytes
recent_request window = codes "RECENT " ++ to_string window

-- A number does not begin with a space.
skip_spaces-to_string : (a : ℤ) → skip_spaces (to_string a) ≡ to_string a
unfolding skip_spaces
skip_spaces-to_string a =
    let (c, s, cons, plain) = to_string-head a in rw (cons, skip_spaces) (rw plain refl)

alone : (a : ℤ) → IsI64 a → from_chars (to_string a) ≡ some (a, [])
alone a h = ap from_chars (sym (append-nil (to_string a))) ∙ from_chars-to_string a [] h tt

-- The request that the client writes for two 64-bit integers is parsed to these integers.
pub parse_range-request :
    (start end : ℤ)
    → IsI64 start
    → IsI64 end
    → parse_range (range_request start end) ≡ some (start, end)
unfolding parse_range after_prefix skip_spaces
parse_range-request start end s e =
    rw (append_assoc (to_string start) (32 ∷ []) (to_string end), parse_range)
      (rw (from_chars-to_string start (32 ∷ to_string end) s refl, parse_range)
        (rw (skip_spaces-to_string end, alone end e) refl))

-- So is the one for a window; and no such request is taken for another command.
pub parse_recent-request :
    (window : ℤ)
    → IsI64 window
    → (parse_recent (recent_request window) ≡ some window)
      × (parse_range (recent_request window) ≡ none)
      × (same_text (recent_request window) (codes "LATEST") ≡ false)
unfolding parse_recent parse_range after_prefix same_text
parse_recent-request window h = (rw (alone window h, parse_recent) refl, refl, refl)

pub range_request-other :
    (start end : ℤ) → same_text (range_request start end) (codes "LATEST") ≡ false
unfolding same_text
range_request-other start end = refl
