-- ===== src/Transport.antt =====
-- include/mw/transport.hpp and src/transport.cpp: the four kinds of sockets. ZeroMQ is a parameter:
-- a socket is what stands behind `zmq::socket_t`, its queues and peers included.
pub mod Samples
pub mod Accepted
pub mod Sockets
mod Runs
pub mod Counts
pub mod Stream
pub mod Subscriptions
pub mod Pirate
use arun_work.Base.{
  ℕ, ◌+◌, ◌≡◌, ◌≢◌, List, [], ◌∷◌, Option, none, some, Bool, true, false, Bytes, Exception, Result,
  ok, err, if◌then◌else◌,
}
use arun_work.Base.Int.{ℤ}
use arun_work.Base.Words.{u64}

-- A send is taken, or it would block (`EAGAIN`), or it throws `zmq::error_t`.
pub data Sent : Type 0 where
  sent refused failed : Sent

-- A receive gives one part and its `more()`, or nothing within the time, or it throws.
pub data Received : Type 0 where
  got : Bytes → Bool → Received
  nothing broken : Received

pub record IZmq (Sock : Type 0) : Type 0 where
  pub send : Bytes → Bool → Sock → Sent × Sock
  pub set_rcvtimeo : ℤ → Sock → Sock
  pub recv : Sock → Received × Sock
  -- `none`: it throws.
  pub poll : ℤ → Sock → Option Bool × Sock
  -- A new socket of the same kind, connected to the same endpoint, in place of this one.
  pub replace : Sock → Sock

pub record Publisher (Sock : Type 0) : Type 0 where
  pub sock : Sock
  pub dropped : ℕ

pub record Message : Type 0 where
  pub topic : Bytes
  pub payload : Bytes

module _ {Sock : Type 0} (zmq : IZmq Sock) where
  open zmq use {send, set_rcvtimeo, recv, poll, replace}

  unfoldable pub drop_one : Sock → Publisher Sock → Bool × Publisher Sock
  drop_one sock p = (false, record { sock = sock; dropped = u64 (p.dropped + 1) })

  -- The topic goes ahead with `sndmore`, the payload follows.
  unfoldable pub publish : Bytes → Bytes → Publisher Sock → Bool × Publisher Sock
  publish topic payload p =
      let (head, s1) = send topic true p.sock in
      let (body, s2) = send payload false s1 in
      elim head [
        | refused ↦ drop_one s1 p
        | failed ↦ drop_one s1 p
        | sent ↦ elim body [
          | refused ↦ drop_one s2 p
          | failed ↦ drop_one s2 p
          | sent ↦ (true, record p { sock = s2 })
        ]
      ]

  unfoldable pub receive : ℤ → Sock → Option Message × Sock
  receive timeout sock =
      let (head, s1) = recv (set_rcvtimeo timeout sock) in
      let (body, s2) = recv s1 in
      elim head [
        | nothing ↦ (none, s1)
        | broken ↦ (none, s1)
        | got topic more ↦ elim more [
          | false ↦ (none, s1)
          | true ↦ elim body [
            | nothing ↦ (none, s2)
            | broken ↦ (none, s2)
            | got payload _ ↦ (some (record { topic = topic; payload = payload }), s2)
          ]
        ]
      ]

  -- `Requester::request`. A socket that may be owed a reply is thrown away.
  unfoldable pub request : Bytes → ℤ → Sock → Option Bytes × Sock
  request payload timeout sock =
      let (asked, s1) = send payload false sock in
      let (ready, s2) = poll timeout s1 in
      let (answer, s3) = recv s2 in
      elim asked [
        | refused ↦ (none, replace s1)
        | failed ↦ (none, replace s1)
        | sent ↦ elim ready [
          | none ↦ (none, replace s2)
          | some there ↦ elim there [
            | false ↦ (none, replace s2)
            | true ↦ elim answer [
              | nothing ↦ (none, s3)
              | broken ↦ (none, replace s3)
              | got reply _ ↦ (some reply, s3)
            ]
          ]
        ]
      ]

  -- `Replier::receive`.
  unfoldable pub receive_request : ℤ → Sock → Option Bytes × Sock
  receive_request timeout sock =
      let (req, s1) = recv (set_rcvtimeo timeout sock) in
      elim req [ nothing ↦ (none, s1) | broken ↦ (none, s1) | got bytes _ ↦ (some bytes, s1) ]

  -- Whatever becomes of the send is ignored.
  unfoldable pub reply : Bytes → Sock → Sock
  reply payload sock = (send payload false sock).1

  -- The handler keeps a state of its own and may throw.
  unfoldable pub serve_one :
      {S : Type 0}
      → (Bytes → S → Result Exception Bytes × S)
      → ℤ
      → Sock
      → S
      → Result Exception Bool × Sock × S
  serve_one handler timeout sock s =
      let (req, s1) = receive_request timeout sock in
      elim req [
        | none ↦ (ok false, s1, s)
        | some bytes ↦
            let (out, s') = handler bytes s in
            elim out [ err e ↦ (err e, s1, s') | ok payload ↦ (ok true, reply payload s1, s') ]
      ]
