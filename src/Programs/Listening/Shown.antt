-- ===== src/Programs/Listening/Shown.antt =====
-- apps/scan_subscriber_main.cpp and apps/cloud_subscriber_main.cpp: what was polled is shown.
use arun_work.Base.{
  ℕ, zero, suc, ◌+◌, ◌<◌, ◌^◌, ◌≡◌, ◌∙◌, refl, ap, List, [], ◌∷◌, length, map, Option, none, some,
  Bool, Bool-cases, inl, inr, ◌%◌, ◌==◌, Bytes, arith,
}
use arun_work.Base.Int.{pos}
use arun_work.Base.Words.{u64}
use arun_work.Transport.{IZmq, Message}
use arun_work.Transport.Stream.{IsQueue, parts_of}
use arun_work.Lidar.Scan.{LidarScan}
use arun_work.Lidar.Replies.{IProtobuf}
use arun_work.Lidar.Feed.{Subscriber, poll_scan}
use arun_work.Lidar.Feed.Delivery.{poll_each, scan_of, poll_each-parts_of}
use arun_work.Programs.Listening.{
  Line, silent, idle, shown, Listener, heard, hear, hear_all, hear_scans,
}

module _ {A : Type 0} where
  -- What was polled, without the polls that gave nothing.
  abbrev pub present : List (Option A) → List A
  present [] = []
  present (none ∷ os) = present os
  present (some a ∷ os) = a ∷ present os

  -- What the lines show, with its number.
  abbrev pub shown_of : List (Line A) → List (ℕ × A)
  shown_of [] = []
  shown_of (silent ∷ lines) = shown_of lines
  shown_of (idle n ∷ lines) = shown_of lines
  shown_of (shown n a warning ∷ lines) = (n, a) ∷ shown_of lines

  abbrev pub numbered_from : ℕ → List A → List (ℕ × A)
  numbered_from n [] = []
  numbered_from n (a ∷ rest) = (suc n, a) ∷ numbered_from (suc n) rest

module _ {A Sock : Type 0} (poll : Subscriber Sock → Option A × Subscriber Sock) where
  -- The results of so many polls.
  abbrev pub polled : ℕ → Subscriber Sock → List (Option A)
  polled zero s = []
  polled (suc n) s = let (a, s') = poll s in a ∷ polled n s'

  hear-shown :
      (a : Option A) (s : Subscriber Sock) (l : Listener Sock) (lines : List (Line A)) (n : ℕ)
      (rest : List (Option A))
      → l.received + suc n < 2 ^ 64
      → shown_of lines ≡ numbered_from (heard poll a s l).1.received (present rest)
      → shown_of ((heard poll a s l).0 ∷ lines) ≡ numbered_from l.received (present (a ∷ rest))
  hear-shown none s l lines n rest few e = elim (Bool-cases (u64 (l.idle_polls + 1) % 5 == 0)) [
    | inl fifth ↦ rw fifth e
    | inr not_yet ↦ rw not_yet e
  ]
  hear-shown (some a) s l lines n rest few e =
      let next : u64 (l.received + 1) ≡ suc l.received = omega (arith, few) in
      rw next (ap (◌∷◌ (suc l.received, a)) (rw next at e))

  heard-received :
      (a : Option A) (s : Subscriber Sock) (l : Listener Sock) (n : ℕ)
      → l.received + suc n < 2 ^ 64
      → (heard poll a s l).1.received + n < 2 ^ 64
  heard-received none s l n few = omega (arith, few)
  heard-received (some a) s l n few = omega (arith, few)

  heard-subscriber :
      (a : Option A) (s : Subscriber Sock) (l : Listener Sock) → (heard poll a s l).1.subscriber ≡ s
  heard-subscriber none s l = refl
  heard-subscriber (some a) s l = refl

  hear_all-shown :
      (n : ℕ) (l : Listener Sock)
      → l.received + n < 2 ^ 64
      → shown_of (hear_all poll n l).0 ≡ numbered_from l.received (present (polled n l.subscriber))
  unfolding hear_all hear
  hear_all-shown zero l few = refl
  hear_all-shown (suc n) l few =
      let (a, s) = poll l.subscriber in
      let l' = (heard poll a s l).1 in
      hear-shown a s l (hear_all poll n l').0 n (polled n s) few (
        hear_all-shown n l' (heard-received a s l n few)
        ∙ ap (λ v. numbered_from l'.received (present (polled n v))) (heard-subscriber a s l))

module _ {Float Sock : Type 0} (zmq : IZmq Sock) (protobuf : IProtobuf (LidarScan Float)) where
  polled-poll_each :
      (ms : List Message) (s : Subscriber Sock)
      → polled (poll_scan zmq protobuf (pos 1000)) (length ms) s
        ≡ (poll_each zmq protobuf (pos 1000) ms s).0
  polled-poll_each [] s = refl
  polled-poll_each (m ∷ ms) s =
      ap (◌∷◌ (poll_scan zmq protobuf (pos 1000) s).0)
        (polled-poll_each ms (poll_scan zmq protobuf (pos 1000) s).1)

  -- Of the two-part messages that have arrived, less than 2 ^ 64 with those before: in as many rounds
  -- `scan_subscriber_main` shows each scan that one carries, once and in order, with its number, and
  -- nothing for the messages that carry none.
  pub hear_scans-shown :
      (parts : Sock → List (Bytes × Bool)) (queue : IsQueue zmq parts) (ms : List Message)
      (l : Listener Sock)
      → parts l.subscriber.sock ≡ parts_of ms
      → l.received + length ms < 2 ^ 64
      → shown_of (hear_scans zmq protobuf (length ms) l).0
        ≡ numbered_from l.received (present (map (scan_of zmq protobuf) ms))
  unfolding hear_scans
  hear_scans-shown parts queue ms l e few =
      let (scans, count, done) =
        poll_each-parts_of zmq protobuf parts queue (pos 1000) ms l.subscriber e in
      hear_all-shown (poll_scan zmq protobuf (pos 1000)) (length ms) l few
      ∙ ap (λ os. numbered_from l.received (present os)) (polled-poll_each ms l.subscriber ∙ scans)
