-- ===== src/Transport/Runs.antt =====
-- src/transport.cpp over small sockets.
use arun_work.Base.{◌≡◌, refl, List, [], ◌∷◌, none, some, false, Bytes, codes}
use arun_work.Base.Int.{pos}
use arun_work.Transport.{sent, refused, Publisher, Message, request, receive}
use arun_work.Transport.Pirate.{request-free}
use arun_work.Transport.Stream.{parts_of, receive-parts_of}
use arun_work.Transport.Samples.{Line, line, line-IsQueue, asker, asker-IsReq}

-- The second message is refused at its payload.
abbrev publisher : Publisher Line
publisher = record {
  sock = record { outcomes = sent ∷ sent ∷ sent ∷ refused ∷ []; incoming = [] };
  dropped = 4;
}

abbrev messages : List (Bytes × Bytes)
messages = (codes "scan", 1 ∷ []) ∷ (codes "scan", 2 ∷ []) ∷ []

-- No reply comes.
request-free_example :
    (request asker (codes "LATEST") (pos 50) (record { owed = false; coming = none })).1.owed
    ≡ false
request-free_example =
    request-free asker (λ s. s.owed) asker-IsReq (codes "LATEST") (pos 50)
      (record { owed = false; coming = none })

abbrev first : Message
first = record { topic = codes "scan"; payload = 1 ∷ [] }

abbrev waiting : Line
waiting = record { outcomes = []; incoming = parts_of (first ∷ first ∷ []) }

receive-parts_of_example :
    ((receive line (pos 50) waiting).0 ≡ some first)
    × ((receive line (pos 50) waiting).1.incoming ≡ parts_of (first ∷ []))
receive-parts_of_example =
    receive-parts_of line (λ s. s.incoming) line-IsQueue (pos 50) waiting first (first ∷ []) refl
