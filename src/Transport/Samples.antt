-- ===== src/Transport/Samples.antt =====
-- Small sockets to run the transport with.
use arun_work.Base.{
  ◌≡◌, ◌≢◌, refl, sym, ap, ◌++◌, Exception, Result, ok, List, [], ◌∷◌, Option, none, some, Bool,
  true, false, Bytes,
}
use arun_work.Transport.{Message, IZmq, Sent, sent, failed, Received, got, nothing, broken}
use arun_work.Transport.Pirate.{IsReq}
use arun_work.Transport.Stream.{IsQueue, parts_of}
use arun_work.Transport.Accepted.{IsPub}
use arun_work.Transport.Sockets.{IContext, SockOpt, sndhwm, rcvhwm, linger, subscribe, unsubscribe}
use arun_work.Transport.Subscriptions.{arriving, IsSub}

-- What becomes of the sends still to come, and what waits to be received.
pub record Line : Type 0 where
  pub outcomes : List Sent
  pub incoming : List (Bytes × Bool)

abbrev pub next_outcome : List Sent → List (Bytes × Bool) → Sent × Line
next_outcome [] i = (sent, record { outcomes = []; incoming = i })
next_outcome (o ∷ os) i = (o, record { outcomes = os; incoming = i })

abbrev pub next_part : List Sent → List (Bytes × Bool) → Received × Line
next_part os [] = (nothing, record { outcomes = os; incoming = [] })
next_part os ((bytes, more) ∷ i) = (got bytes more, record { outcomes = os; incoming = i })

abbrev pub line : IZmq Line
line = record {
  send = λ bytes more s. next_outcome s.outcomes s.incoming;
  set_rcvtimeo = λ timeout s. s;
  recv = λ s. next_part s.outcomes s.incoming;
  poll = λ timeout s. (some true, s);
  replace = λ s. s;
}

pub line-IsQueue : IsQueue line (λ s. s.incoming)
line-IsQueue = record {
  parts-set_rcvtimeo = λ timeout s. refl;
  recv-part = λ s bytes more rest e. rw e (refl, refl);
}

-- A REQ socket, and the reply that will come if one does.
pub record Asker : Type 0 where
  pub owed : Bool
  pub coming : Option Bytes

abbrev pub ask : Bool → Asker → Sent × Asker
ask true s = (failed, s)
ask false s = (sent, record s { owed = true })

abbrev pub answer : Option Bytes → Asker → Received × Asker
answer none s = (broken, s)
answer (some bytes) s = (got bytes false, record s { owed = false })

abbrev pub is_some : Option Bytes → Bool
is_some none = false
is_some (some bytes) = true

abbrev pub asker : IZmq Asker
asker = record {
  send = λ bytes more s. ask s.owed s;
  set_rcvtimeo = λ timeout s. s;
  recv = λ s. answer s.coming s;
  poll = λ timeout s. (some (is_some s.coming), s);
  replace = λ s. record s { owed = false };
}

pub asker-IsReq : IsReq asker (λ s. s.owed)
asker-IsReq = record {
  owes-replace = λ s. refl;
  owes-recv = λ s bytes more e. after_answer s.coming s bytes more e;
  recv-waits = λ s. waits s.coming s;
  send-owed = λ s bytes e. rw e (λ h. cc h);
}
  where
    after_answer :
        (o : Option Bytes) (s : Asker) (bytes : Bytes) (more : Bool)
        → (answer o s).0 ≡ got bytes more
        → (answer o s).1.owed ≡ false
    after_answer none s bytes more e = absurd (cc e)
    after_answer (some b) s bytes more e = refl

    waits : (o : Option Bytes) (s : Asker) → (answer o s).0 ≢ nothing
    waits none s e = cc e
    waits (some b) s e = cc e

-- A PUB or a SUB socket: the parts that it has accepted, those that wait in it, and its subscriptions.
pub record Wire : Type 0 where
  pub accepted : List (Bytes × Bool)
  pub waiting : List (Bytes × Bool)
  pub prefixes : List Bytes

abbrev pub take_part : Wire → List (Bytes × Bool) → Received × Wire
take_part s [] = (nothing, s)
take_part s ((bytes, more) ∷ rest) = (got bytes more, record s { waiting = rest })

abbrev pub wire : IZmq Wire
wire = record {
  send = λ bytes more s. (sent, record s { accepted = s.accepted ++ (bytes, more) ∷ [] });
  set_rcvtimeo = λ timeout s. s;
  recv = λ s. take_part s s.waiting;
  poll = λ timeout s. (some true, s);
  replace = λ s. s;
}

abbrev pub set_option : SockOpt → Wire → Result Exception Wire
set_option (sndhwm n) s = ok s
set_option (rcvhwm n) s = ok s
set_option (linger n) s = ok s
set_option (subscribe prefix) s = ok (record s { prefixes = prefix ∷ s.prefixes })
set_option (unsubscribe prefix) s = ok s

abbrev pub new_wire : Wire
new_wire = record { accepted = []; waiting = []; prefixes = [] }

abbrev pub context : IContext Wire
context = record {
  socket = λ t. ok new_wire;
  set = set_option;
  bind = λ endpoint s. ok s;
  connect = λ endpoint s. ok s;
}

abbrev pub arrive : List Message → Wire → Wire
arrive ms s = record s { waiting = s.waiting ++ parts_of (arriving s.prefixes ms) }

pub wire-IsPub : IsPub wire (λ s. s.accepted)
wire-IsPub = record {
  taken-send = λ bytes more s e. refl;
  taken-send_not = λ bytes more s n. absurd (n refl);
  together = λ head body s e. refl;
}

pub wire-IsQueue : IsQueue wire (λ s. s.waiting)
wire-IsQueue = record {
  parts-set_rcvtimeo = λ timeout s. refl;
  recv-part = λ s bytes more rest e. rw e (refl, refl);
}

same_wire : (s s' : Wire) → ◌≡◌ {A = Result Exception Wire} (ok s) (ok s') → s ≡ s'
same_wire s s' e = cc e

pub wire-IsSub : IsSub context (λ s. s.waiting) (λ s. s.prefixes) arrive
wire-IsSub = record {
  at_first = λ s e. (rw (← same_wire new_wire s e) refl, rw (← same_wire new_wire s e) refl);
  set-rcvhwm = λ n s s' e.
      (ap (λ v. v.prefixes) (sym (same_wire s s' e)), ap (λ v. v.waiting) (sym (same_wire s s' e)));
  set-linger = λ n s s' e.
      (ap (λ v. v.prefixes) (sym (same_wire s s' e)), ap (λ v. v.waiting) (sym (same_wire s s' e)));
  connected = λ endpoint s s' e.
      (ap (λ v. v.prefixes) (sym (same_wire s s' e)), ap (λ v. v.waiting) (sym (same_wire s s' e)));
  set-subscribe = λ prefix s s' e. (
    ap (λ v. v.prefixes) (sym (same_wire (record s { prefixes = prefix ∷ s.prefixes }) s' e)),
    ap (λ v. v.waiting) (sym (same_wire (record s { prefixes = prefix ∷ s.prefixes }) s' e)),
  );
  parts-arrive = λ ms s. refl;
}
