-- ===== src/Programs/Heartbeats.antt =====
-- apps/mw_pub.cpp and apps/mw_sub.cpp: heartbeats are published one after the other, and the
-- subscriber tells where some are missing. Protobuf is a parameter.
pub mod Gaps
use arun_work.Base.{
  ℕ, zero, suc, ◌+◌, ◌≡◌, List, [], ◌∷◌, Option, none, some, Bool, true, false, not, ◌&&◌, ◌==◌,
  length, Bytes, codes,
}
use arun_work.Base.Int.{ℤ, pos, negsuc, ◌-ℤ◌, ◌*ℤ◌, ◌/ℤ◌}
use arun_work.Base.Words.{u32_of, u64, i32_of}
use arun_work.Transport.{IZmq, Publisher, Message, publish, receive}
use arun_work.Header.{
  Header, HeaderStatus, accepted, not_parsable, missing_header, schema_too_new, schema_too_old,
  stamp, peek_header,
}

pub record Heartbeat : Type 0 where
  pub header : Header
  pub node_name : Bytes
  -- The number of the enumerator.
  pub state : ℕ
  pub tick_count : ℕ
  pub overruns : ℕ
  pub wcet_us : ℕ

-- Protobuf's functions for a heartbeat, and `parse_any` for the header of any message. A message that
-- the format can carry comes back, and so does its header alone.
pub record IBeats : Type 1 where
  pub serialize : Heartbeat → Bytes
  pub parse : Bytes → Option Heartbeat
  pub parse_any : Bytes → ℤ → Option (Option Header)
  pub IsEncodable : Heartbeat → Type 0
  pub parse-serialize : (hb : Heartbeat) → IsEncodable hb → parse (serialize hb) ≡ some hb
  pub parse_any-serialize :
      (hb : Heartbeat)
      → IsEncodable hb
      → parse_any (serialize hb) (i32_of (length (serialize hb))) ≡ some (some hb.header)

-- `NODE_STATE_RUNNING`
abbrev pub node_state_running : ℕ
node_state_running = 2

abbrev pub empty_header : Header
empty_header = record { schema_version = 0; publisher = []; sequence = 0; publish_time_ns = pos 0 }

-- What the two clocks say in one round.
pub record Clocks : Type 0 where
  pub wall : ℤ
  pub steady : ℤ

-- The remainder as C++ takes it.
abbrev pub rem : ℤ → ℤ → ℤ
rem a b = a -ℤ (a /ℤ b) *ℤ b

-- The heartbeat of one round, and the counter after it, which `stamp` has moved on.
unfoldable pub beat : ℤ → Clocks → ℕ → Heartbeat × ℕ
beat t0 now sequence =
    let (_, header, sequence') = stamp now.wall empty_header (codes "auv-control") sequence in
    (
      record {
        header = header;
        node_name = codes "auv-control";
        state = node_state_running;
        tick_count = sequence';
        overruns = 0;
        wcet_us = u32_of (rem (now.steady -ℤ t0) (pos 1000));
      },
      sequence',
    )

module _ (beats : IBeats) {Sock : Type 0} (zmq : IZmq Sock) where
  -- One round of `mw_pub`: the answer, the counter and the publisher after it.
  unfoldable pub publish_beat : Bytes → ℤ → Clocks → ℕ → Publisher Sock → Bool × ℕ × Publisher Sock
  publish_beat topic t0 now sequence p =
      let (hb, sequence') = beat t0 now sequence in
      let (answer, p') = publish zmq topic (beats.serialize hb) p in (answer, sequence', p')

  unfoldable pub publish_beats :
      Bytes → ℤ → List Clocks → ℕ → Publisher Sock → List Bool × ℕ × Publisher Sock
  publish_beats topic t0 [] sequence p = ([], sequence, p)
  publish_beats topic t0 (now ∷ nows) sequence p =
      let (answer, sequence', p') = publish_beat topic t0 now sequence p in
      let (answers, last, p'') = publish_beats topic t0 nows sequence' p' in
      (answer ∷ answers, last, p'')

-- What `mw_sub` prints in one round.
pub data Printed : Type 0 where
  idle : Printed
  rejected : Bytes → HeaderStatus → Printed
  -- The topic, the sequence number, who it is from, the state, and whether a gap is marked.
  shown : Bytes → ℕ → Bytes → ℤ → Bool → Printed

-- The variables of `mw_sub`.
pub record Watch : Type 0 where
  pub expected : ℕ
  pub first : Bool

abbrev pub state_of : Option Heartbeat → ℤ
state_of none = negsuc 0
state_of (some hb) = pos hb.state

module _ (beats : IBeats) where
  unfoldable pub watch : Option Message → Watch → Printed × Watch
  watch none w = (idle, w)
  watch (some msg) w =
      let (status, header) = peek_header beats.parse_any msg.payload empty_header in
      let gap = not w.first && not (header.sequence == w.expected) in
      elim status [
        | accepted ↦ (
          shown msg.topic header.sequence header.publisher (state_of (beats.parse msg.payload)) gap,
          record { expected = u64 (header.sequence + 1); first = false },
        )
        | not_parsable ↦ (rejected msg.topic not_parsable, w)
        | missing_header ↦ (rejected msg.topic missing_header, w)
        | schema_too_new ↦ (rejected msg.topic schema_too_new, w)
        | schema_too_old ↦ (rejected msg.topic schema_too_old, w)
      ]

  -- So many rounds of `mw_sub`.
  unfoldable pub listen :
      {Sock : Type 0} → IZmq Sock → ℕ → Sock → Watch → List Printed × Sock × Watch
  listen zmq zero sock w = ([], sock, w)
  listen zmq (suc n) sock w =
      let (msg, sock') = receive zmq (pos 1000) sock in
      let (line, w') = watch msg w in
      let (lines, sock'', w'') = listen zmq n sock' w' in (line ∷ lines, sock'', w'')
