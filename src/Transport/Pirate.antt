-- ===== src/Transport/Pirate.antt =====
-- src/transport.cpp: a requester is never stuck with a reply that does not come.
use arun_work.Base.{◌≡◌, ◌≢◌, refl, Option, none, some, Bool, true, false, Bytes}
use arun_work.Base.Int.{ℤ}
use arun_work.Transport.{IZmq, Sent, sent, refused, failed, Received, got, nothing, broken, request}

-- What ZeroMQ documents of a REQ socket. `owes` is whether it was sent on and has not received since;
-- while that is so it takes no further send. A new socket owes nothing, a receive ends it, and a
-- receive without a timeout comes back with a part or throws.
pub record IsReq {Sock : Type 0} (zmq : IZmq Sock) (owes : Sock → Bool) : Type 0 where
  pub owes-replace : (s : Sock) → owes (zmq.replace s) ≡ false
  pub owes-recv :
      (s : Sock) (bytes : Bytes) (more : Bool)
      → (zmq.recv s).0 ≡ got bytes more
      → owes (zmq.recv s).1 ≡ false
  pub recv-waits : (s : Sock) → (zmq.recv s).0 ≢ nothing
  pub send-owed : (s : Sock) (bytes : Bytes) → owes s ≡ true → (zmq.send bytes false s).0 ≢ sent

module _ {Sock : Type 0} (zmq : IZmq Sock) (owes : Sock → Bool) (req : IsReq zmq owes) where
  open zmq use {send, poll, recv}

  -- Whatever happens in a request, and whatever state the socket is in before: afterwards it owes
  -- nothing, so that the next request can be sent.
  pub request-free :
      (payload : Bytes) (timeout : ℤ) (s : Sock) → owes (request zmq payload timeout s).1 ≡ false
  unfolding request
  request-free payload timeout s =
      by_outcome (send payload false s).0 (poll timeout (send payload false s).1).0
        (recv (poll timeout (send payload false s).1).1).0 refl refl refl
    where
      by_outcome :
          (a : Sent) (b : Option Bool) (c : Received)
          → (send payload false s).0 ≡ a
          → (poll timeout (send payload false s).1).0 ≡ b
          → (recv (poll timeout (send payload false s).1).1).0 ≡ c
          → owes (request zmq payload timeout s).1 ≡ false
      by_outcome refused b c e f g = rw (e, request) (req.owes-replace _)
      by_outcome failed b c e f g = rw (e, request) (req.owes-replace _)
      by_outcome sent none c e f g = rw (e, request) (rw (f, request) (req.owes-replace _))
      by_outcome sent (some false) c e f g = rw (e, request) (rw (f, request) (req.owes-replace _))
      by_outcome sent (some true) nothing e f g = absurd (req.recv-waits _ g)
      by_outcome sent (some true) broken e f g =
          rw (e, request) (rw (f, request) (rw (g, request) (req.owes-replace _)))
      by_outcome sent (some true) (got bytes more) e f g =
          rw (e, request) (rw (f, request) (rw (g, request) (req.owes-recv _ bytes more g)))
