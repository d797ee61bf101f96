-- ===== src/Transport/Subscriptions.antt =====
-- src/transport.cpp: what a subscriber's socket is sent, from the moment it is made.
use arun_work.Base.{
  ◌≡◌, ◌∙◌, List, [], ◌∷◌, ◌++◌, Bool, true, false, ◌==◌, ◌&&◌, ◌||◌, if◌then◌else◌, Bytes, ok,
  ok-bind,
}
use arun_work.Base.Int.{ℤ}
use arun_work.Transport.{Message}
use arun_work.Transport.Stream.{parts_of}
use arun_work.Transport.Sockets.{
  IContext, sub_socket, rcvhwm, linger, subscribe, make_subscriber, add_prefix,
}

abbrev pub starts_with : Bytes → Bytes → Bool
starts_with [] s = true
starts_with (p ∷ ps) [] = false
starts_with (p ∷ ps) (c ∷ s) = p == c && starts_with ps s

abbrev pub wanted : List Bytes → Bytes → Bool
wanted [] topic = false
wanted (prefix ∷ prefixes) topic = starts_with prefix topic || wanted prefixes topic

-- The messages whose topic begins with one of the prefixes.
abbrev pub arriving : List Bytes → List Message → List Message
arriving prefixes [] = []
arriving prefixes (m ∷ ms) =
    if wanted prefixes m.topic then m ∷ arriving prefixes ms else arriving prefixes ms

-- What ZeroMQ documents of a SUB socket. A new one has no subscription, and nothing waits in it; a
-- subscription adds a prefix, and the other options and `connect` change neither. `arrive` is the
-- coming of messages: those that match a subscription join the queue, and the others do not.
pub record IsSub {Sock : Type 0} (ctx : IContext Sock) (parts : Sock → List (Bytes × Bool))
    (prefixes : Sock → List Bytes) (arrive : List Message → Sock → Sock) : Type 0 where
  pub at_first : (s : Sock) → ctx.socket sub_socket ≡ ok s → (prefixes s ≡ []) × (parts s ≡ [])
  pub set-rcvhwm :
      (n : ℤ) (s s' : Sock)
      → ctx.set (rcvhwm n) s ≡ ok s'
      → (prefixes s' ≡ prefixes s) × (parts s' ≡ parts s)
  pub set-linger :
      (n : ℤ) (s s' : Sock)
      → ctx.set (linger n) s ≡ ok s'
      → (prefixes s' ≡ prefixes s) × (parts s' ≡ parts s)
  pub connected :
      (endpoint : Bytes) (s s' : Sock)
      → ctx.connect endpoint s ≡ ok s'
      → (prefixes s' ≡ prefixes s) × (parts s' ≡ parts s)
  pub set-subscribe :
      (prefix : Bytes) (s s' : Sock)
      → ctx.set (subscribe prefix) s ≡ ok s'
      → (prefixes s' ≡ prefix ∷ prefixes s) × (parts s' ≡ parts s)
  pub parts-arrive :
      (ms : List Message) (s : Sock)
      → parts (arrive ms s) ≡ parts s ++ parts_of (arriving (prefixes s) ms)

module _ {Sock : Type 0} (ctx : IContext Sock) (parts : Sock → List (Bytes × Bool))
    (prefixes : Sock → List Bytes) (arrive : List Message → Sock → Sock)
    (sub : IsSub ctx parts prefixes arrive) where
  -- A subscriber that was just made listens to nothing.
  pub make_subscriber-deaf :
      (endpoint : Bytes) (s : Sock)
      → make_subscriber ctx endpoint ≡ ok s
      → (prefixes s ≡ []) × (parts s ≡ [])
  unfolding make_subscriber
  make_subscriber-deaf endpoint s e =
      let (s1, made, e1) = ok-bind _ _ _ e in
      let (s2, marked, e2) = ok-bind _ _ _ e1 in
      let (s3, lingers, attached) = ok-bind _ _ _ e2 in
      let (p1, q1) = sub.at_first s1 made in
      let (p2, q2) = sub.set-rcvhwm _ s1 s2 marked in
      let (p3, q3) = sub.set-linger _ s2 s3 lingers in
      let (p4, q4) = sub.connected endpoint s3 s attached in (p4 ∙ p3 ∙ p2 ∙ p1, q4 ∙ q3 ∙ q2 ∙ q1)

  -- With a prefix added, it listens to that prefix.
  pub add_prefix-listens :
      (endpoint prefix : Bytes) (s s' : Sock)
      → make_subscriber ctx endpoint ≡ ok s
      → add_prefix ctx prefix s ≡ ok s'
      → (prefixes s' ≡ prefix ∷ []) × (parts s' ≡ [])
  unfolding add_prefix
  add_prefix-listens endpoint prefix s s' made added =
      let (p, q) = make_subscriber-deaf endpoint s made in
      let (p', q') = sub.set-subscribe prefix s s' added in (rw p at p', q' ∙ q)
