-- ===== src/Transport/Stream.antt =====
-- src/transport.cpp: a subscriber takes one message of two parts after the other.
use arun_work.Base.{◌≡◌, ◌∙◌, refl, List, [], ◌∷◌, some, Bool, true, false, Bytes}
use arun_work.Base.Int.{ℤ}
use arun_work.Transport.{IZmq, got, Message, receive}

-- What ZeroMQ documents of a receiving socket: parts come in the order of the queue, each with
-- `more()` if another part of its message follows. `parts` are those that have arrived.
pub record IsQueue {Sock : Type 0} (zmq : IZmq Sock) (parts : Sock → List (Bytes × Bool))
    : Type 0 where
  pub parts-set_rcvtimeo : (timeout : ℤ) (s : Sock) → parts (zmq.set_rcvtimeo timeout s) ≡ parts s
  pub recv-part :
      (s : Sock) (bytes : Bytes) (more : Bool) (rest : List (Bytes × Bool))
      → parts s ≡ (bytes, more) ∷ rest
      → ((zmq.recv s).0 ≡ got bytes more) × (parts (zmq.recv s).1 ≡ rest)

-- The parts that `Publisher::publish` sends for these messages.
abbrev pub parts_of : List Message → List (Bytes × Bool)
parts_of [] = []
parts_of (m ∷ ms) = (m.topic, true) ∷ (m.payload, false) ∷ parts_of ms

module _ {Sock : Type 0} (zmq : IZmq Sock) (parts : Sock → List (Bytes × Bool))
    (queue : IsQueue zmq parts) where
  open zmq use {recv, set_rcvtimeo}

  -- The first message that waits is received whole, and the others wait on.
  pub receive-parts_of :
      (timeout : ℤ) (s : Sock) (m : Message) (rest : List Message)
      → parts s ≡ parts_of (m ∷ rest)
      → ((receive zmq timeout s).0 ≡ some m) × (parts (receive zmq timeout s).1 ≡ parts_of rest)
  unfolding receive
  receive-parts_of timeout s m rest e =
      let t = set_rcvtimeo timeout s in
      let (head, after) =
        queue.recv-part t m.topic true ((m.payload, false) ∷ parts_of rest)
          (queue.parts-set_rcvtimeo timeout s ∙ e) in
      let (body, left) = queue.recv-part (recv t).1 m.payload false (parts_of rest) after in
      rw (head, receive) (rw (body, receive) (refl, left))
