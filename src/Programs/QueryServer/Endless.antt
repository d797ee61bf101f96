-- ===== src/Programs/QueryServer/Endless.antt =====
-- apps/scan_query_server_main.cpp: the process goes on while the recording can be read.
use arun_work.Base.{
  ℕ, ◌+◌, ◌<◌, ◌^◌, ◌≡◌, ◌∙◌, refl, ap, List, [], ◌∷◌, length, Option, none, some, Bool, true,
  false, Option-cases, Bool-cases, inl, inr, Bytes, codes, ok, arith,
}
use arun_work.Base.Int.{pos}
use arun_work.Base.Words.{u64}
use arun_work.Transport.{IZmq, receive_request, serve_one, reply}
use arun_work.Lidar.Scan.{Scan, LidarScan}
use arun_work.Lidar.Replies.{IProtobuf, encode_scans}
use arun_work.Lidar.Log.{IIndex}
use arun_work.Lidar.Log.Reader.{ScanReader}
use arun_work.Lidar.Log.Indexed.{IsRecorded}
use arun_work.Lidar.Log.Playback.{find_by_time_range_lem}
use arun_work.Lidar.Query.{
  ScanQueryServer, find_scans, handle, serve, same_text, parse_range, parse_recent,
}
use arun_work.Lidar.Query.Windows.{newest, IsWindow}
use arun_work.Lidar.Query.Answers.{latest_scans_lem, recent_scans_lem}
use arun_work.Programs.QueryServer.{serving, Serving, Turn, seen, turn, turns}

module _ {Float Db Sock : Type 0} (protobuf : IProtobuf (LidarScan Float)) (fresh : LidarScan Float)
    (index : IIndex Db) (zmq : IZmq Sock) where
  open index use {rows, IsReady}

  -- A round in which the log and the index hold a recording of less than 2 ^ 32 scans.
  pub record IsIntact (t : Turn Db Sock) : Type 0 where
    pub scans : List (Scan Float)
    pub ready : IsReady t.db
    pub held : IsRecorded protobuf fresh t.file 1 (rows t.db) scans
    pub few : length scans < 2 ^ 32

  -- If a request asks for a window, the window's beginning is a 64-bit integer.
  abbrev pub IsAnswerable : Option Bytes → List (Scan Float) → Type 0
  IsAnswerable none scans = Unit {0}
  IsAnswerable (some command) scans = elim (parse_recent command) [
    | none ↦ Unit {0}
    | some window ↦ IsWindow window (newest scans)
  ]

  -- Any other bytes at all are answered from such a recording, and the reader is as before.
  find_scans-returns :
      (t : Turn Db Sock) (r : ScanReader Db) (command : Bytes) (h : IsIntact t)
      → IsAnswerable (some command) h.scans
      → r.failed ≡ false
      → let r' = record r { db = t.db } in
        (found : List (Scan Float)) × (find_scans protobuf index t.file r' command ≡ (ok found, r'))
  unfolding find_scans
  find_scans-returns t r command h answerable usable =
      elim (Bool-cases (same_text command (codes "LATEST"))) [
        | inl last ↦
            rw (last, find_scans)
              (
                _,
                latest_scans_lem protobuf fresh index t.file r' h.ready usable h.scans h.held h.few,
              )
        | inr other ↦ elim (Option-cases (parse_range command)) [
          | inr ((start, end), range) ↦
              rw (other, find_scans)
                (rw (range, find_scans)
                  (
                    _,
                    find_by_time_range_lem protobuf fresh index t.file r' h.scans h.ready usable
                        h.held start end,
                  ))
          | inl no_range ↦ elim (Option-cases (parse_recent command)) [
            | inr (window, recent) ↦
                rw (other, find_scans)
                  (rw (no_range, find_scans)
                    (rw (recent, find_scans)
                      (
                        _,
                        recent_scans_lem protobuf fresh index t.file r' h.ready usable h.scans
                            window (rw (recent, IsAnswerable) at answerable) h.held h.few,
                      )))
            | inl no_window ↦
                rw (other, find_scans)
                  (rw (no_range, find_scans) (rw (no_window, find_scans) ([], refl)))
          ]
        ]
      ]
    where
      r' : ScanReader Db
      r' = record r { db = t.db }

  -- The socket of a round that takes this request, if any: it is left as it is, or gets a framed reply.
  abbrev pub ReplyTo : Option Bytes → Sock → Sock → Type 0
  ReplyTo none before after = after ≡ before
  ReplyTo (some command) before after =
      (found : List (Scan Float)) × (after ≡ reply zmq (encode_scans protobuf fresh found) before)

  abbrev pub taken : Option Bytes → ℕ
  taken none = 0
  taken (some command) = 1

  -- What the round receives.
  abbrev pub received : Turn Db Sock → Serving Db Sock → Option Bytes × Sock
  received t s = receive_request zmq (pos 1000) (t.arrivals s.sock)

  module _ (file : Bytes) (sock : Sock) (server : ScanQueryServer Db) where
    serve-quiet :
        (receive_request zmq (pos 1000) sock).0 ≡ none
        → serve protobuf fresh index zmq (pos 1000) file sock server
          ≡ (ok false, (receive_request zmq (pos 1000) sock).1, server)
    unfolding serve serve_one
    serve-quiet quiet = rw (quiet, serve_one) refl

    serve-answers :
        (command : Bytes) (found : List (Scan Float))
        → (receive_request zmq (pos 1000) sock).0 ≡ some command
        → find_scans protobuf index file server.reader command ≡ (ok found, server.reader)
        → serve protobuf fresh index zmq (pos 1000) file sock server ≡ (
          ok true,
          reply zmq (encode_scans protobuf fresh found) (receive_request zmq (pos 1000) sock).1,
          record server { served_count = u64 (server.served_count + 1) },
        )
    unfolding serve serve_one handle
    serve-answers command found asked e = rw (asked, serve_one) (rw (e, handle) (rw e refl))

  -- A round in which nothing is thrown.
  turn-ok :
      (t : Turn Db Sock) (s : Serving Db Sock) (served : Bool) (sock : Sock)
      (server : ScanQueryServer Db)
      → s.stage ≡ serving
      → serve protobuf fresh index zmq
          (pos 1000)
          t.file
          (t.arrivals s.sock)
          (seen protobuf fresh index zmq t s.server)
        ≡ (ok served, sock, server)
      → let s' = turn protobuf fresh index zmq t s in
        (s'.stage ≡ serving) × (s'.sock ≡ sock) × (s'.server ≡ server)
  unfolding turn
  turn-ok t s served sock server up e =
      rw (up, turn) (rw (e, turn) (up, ap (λ p. p.1) e, ap (λ p. p.2) e))

  turn-serving :
      (t : Turn Db Sock) (s : Serving Db Sock) (h : IsIntact t)
      → IsAnswerable (received t s).0 h.scans
      → s.stage ≡ serving
      → s.server.reader.failed ≡ false
      → let s' = turn protobuf fresh index zmq t s in
        (s'.stage ≡ serving)
        × (s'.server.reader.failed ≡ false)
        × (u64 s'.server.served_count ≡ u64 (s.server.served_count + taken (received t s).0))
        × ReplyTo (received t s).0 (received t s).1 s'.sock
  turn-serving t s h answerable up usable = elim (Option-cases (received t s).0) [
    | inl quiet ↦
        let (still, sock, server) = turn-ok t s false _ _ up (
          serve-quiet t.file (t.arrivals s.sock) (seen protobuf fresh index zmq t s.server)
            quiet) in
        (
          still,
          ap (λ v. v.reader.failed) server ∙ usable,
          ap (λ v. u64 v.served_count) server ∙ rw quiet (omega arith),
          rw quiet sock,
        )
    | inr (command, asked) ↦
        let (found, e) =
          find_scans-returns t s.server.reader command h (rw asked at answerable) usable in
        let (still, sock, server) = turn-ok t s true _ _ up (
          serve-answers t.file (t.arrivals s.sock) (seen protobuf fresh index zmq t s.server)
            command found asked e) in
        (
          still,
          ap (λ v. v.reader.failed) server ∙ usable,
          ap (λ v. u64 v.served_count) server ∙ rw asked (omega arith),
          rw asked (found, sock),
        )
  ]

  -- The number of requests taken over the rounds.
  abbrev pub all_taken : List (Turn Db Sock) → Serving Db Sock → ℕ
  all_taken [] s = 0
  all_taken (t ∷ ts) s = taken (received t s).0 + all_taken ts (turn protobuf fresh index zmq t s)

  -- Every request of the rounds got a framed reply.
  abbrev pub AllReplied : List (Turn Db Sock) → Serving Db Sock → Type 0
  AllReplied [] s = Unit {0}
  AllReplied (t ∷ ts) s =
      let s' = turn protobuf fresh index zmq t s in
      ReplyTo (received t s).0 (received t s).1 s'.sock × AllReplied ts s'

  -- Every round finds a recording of less than 2 ^ 32 scans, and if its request asks for a window, one
  -- whose beginning is a 64-bit integer.
  abbrev pub AllIntact : List (Turn Db Sock) → Serving Db Sock → Type 0
  AllIntact [] s = Unit {0}
  AllIntact (t ∷ ts) s =
      (h : IsIntact t) × IsAnswerable (received t s).0 h.scans
      × AllIntact ts (turn protobuf fresh index zmq t s)

  -- While every round finds a recording of less than 2 ^ 32 scans, which may be another one each time,
  -- and no request asks for a window whose beginning is no 64-bit integer: whatever other bytes the
  -- clients send, the process goes on, every request that is taken gets a framed reply, and `served`
  -- grows by one for each, modulo 2 ^ 64.
  pub turns-serving :
      (ts : List (Turn Db Sock)) (s : Serving Db Sock)
      → AllIntact ts s
      → s.stage ≡ serving
      → s.server.reader.failed ≡ false
      → let s' = turns protobuf fresh index zmq ts s in
        (s'.stage ≡ serving)
        × (u64 s'.server.served_count ≡ u64 (s.server.served_count + all_taken ts s))
        × AllReplied ts s
  unfolding turns
  turns-serving [] s h up usable = (up, omega arith, tt)
  turns-serving (t ∷ ts) s (h, answerable, hs) up usable =
      let (still, fine, one, replied) = turn-serving t s h answerable up usable in
      let (running, count, all) =
        turns-serving ts (turn protobuf fresh index zmq t s) hs still fine in
      (running, count ∙ omega (arith, one), (replied, all))
