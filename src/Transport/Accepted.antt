-- ===== src/Transport/Accepted.antt =====
-- src/transport.cpp: what a publisher's socket has accepted.
use arun_work.Base.{
  ◌≡◌, ◌≢◌, ◌∙◌, refl, ap, List, [], ◌∷◌, ◌++◌, append_assoc, append-nil, Bool, true, false, Bytes,
  picked,
}
use arun_work.Transport.Stream.{parts_of}
use arun_work.Transport.{IZmq, Sent, sent, refused, failed, Publisher, Message, publish, drop_one}

-- What ZeroMQ documents of a PUB socket. `taken` are the parts that it has accepted so far; the parts
-- of one message are accepted together or not at all.
pub record IsPub {Sock : Type 0} (zmq : IZmq Sock) (taken : Sock → List (Bytes × Bool))
    : Type 0 where
  pub taken-send :
      (bytes : Bytes) (more : Bool) (s : Sock)
      → (zmq.send bytes more s).0 ≡ sent
      → taken (zmq.send bytes more s).1 ≡ taken s ++ (bytes, more) ∷ []
  pub taken-send_not :
      (bytes : Bytes) (more : Bool) (s : Sock)
      → (zmq.send bytes more s).0 ≢ sent
      → taken (zmq.send bytes more s).1 ≡ taken s
  pub together :
      (head body : Bytes) (s : Sock)
      → (zmq.send head true s).0 ≡ sent
      → (zmq.send body false (zmq.send head true s).1).0 ≡ sent

-- The message, if the answer is `true`.
abbrev pub if_taken : Bool → Message → List (Bytes × Bool)
if_taken true m = (m.topic, true) ∷ (m.payload, false) ∷ []
if_taken false m = []

-- The parts of one publication and of those behind it.
pub taken_one_more :
    (answer : Bool) (answers : List Bool) (m : Message) (ms : List Message)
    (t0 t1 t2 : List (Bytes × Bool))
    → t1 ≡ t0 ++ if_taken answer m
    → t2 ≡ t1 ++ parts_of (picked answers ms)
    → t2 ≡ t0 ++ parts_of (picked (answer ∷ answers) (m ∷ ms))
taken_one_more true answers m ms t0 t1 t2 now later =
    rw (later, now) (append_assoc t0 (if_taken true m) _)
taken_one_more false answers m ms t0 t1 t2 now later = rw (later, now) (append_assoc t0 [] _)

module _ {Sock : Type 0} (zmq : IZmq Sock) (taken : Sock → List (Bytes × Bool))
    (is_pub : IsPub zmq taken) where
  open zmq use {send}

  -- The parts that the socket accepts are those of the message answered `true`.
  pub taken-publish :
      (topic payload : Bytes) (p : Publisher Sock)
      → let (answer, p') = publish zmq topic payload p in
        taken p'.sock
        ≡ taken p.sock ++ if_taken answer (record { topic = topic; payload = payload })
  unfolding publish drop_one
  taken-publish topic payload p = by_head (send topic true p.sock).0 refl
    where
      by_head :
          (a : Sent)
          → (send topic true p.sock).0 ≡ a
          → let (answer, p') = publish zmq topic payload p in
            taken p'.sock
            ≡ taken p.sock ++ if_taken answer (record { topic = topic; payload = payload })
      by_head refused e =
          rw (e, publish) (rw append-nil (is_pub.taken-send_not _ _ _ (rw e λ h. cc h)))
      by_head failed e =
          rw (e, publish) (rw append-nil (is_pub.taken-send_not _ _ _ (rw e λ h. cc h)))
      by_head sent e =
          let whole = is_pub.together topic payload p.sock e in
          rw (e, publish)
            (rw (whole, publish)
              (is_pub.taken-send _ _ _ whole
                ∙ ap (λ t. t ++ (payload, false) ∷ []) (is_pub.taken-send _ _ _ e)
                ∙ append_assoc (taken p.sock) ((topic, true) ∷ []) ((payload, false) ∷ [])))
