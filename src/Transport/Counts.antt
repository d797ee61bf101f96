-- ===== src/Transport/Counts.antt =====
-- src/transport.cpp: `dropped` counts the publications that failed.
use arun_work.Base.{
  ℕ, suc, ◌+◌, ◌≡◌, ◌∙◌, refl, ap, List, [], ◌∷◌, Bool, true, false, Bytes, arith, inl, inr, ◌⊎◌,
}
use arun_work.Base.Words.{u64}
use arun_work.Transport.{IZmq, Publisher, sent, refused, failed, Sent, publish, drop_one}

module _ {Sock : Type 0} (zmq : IZmq Sock) where
  open zmq use {send}

  -- The answers to the publications, in order, and the publisher after them.
  abbrev pub publish_all : List (Bytes × Bytes) → Publisher Sock → List Bool × Publisher Sock
  publish_all [] p = ([], p)
  publish_all ((topic, payload) ∷ rest) p =
      let (answer, p') = publish zmq topic payload p in
      let (answers, p'') = publish_all rest p' in (answer ∷ answers, p'')

  abbrev pub refusals : List Bool → ℕ
  refusals [] = 0
  refusals (true ∷ bs) = refusals bs
  refusals (false ∷ bs) = suc (refusals bs)

  pub publish-counts :
      (topic payload : Bytes) (p : Publisher Sock)
      → let (answer, p') = publish zmq topic payload p in
        ((answer ≡ true) × (p'.dropped ≡ p.dropped))
        ⊎ ((answer ≡ false) × (p'.dropped ≡ u64 (p.dropped + 1)))
  unfolding publish drop_one
  publish-counts topic payload p =
      by_parts (send topic true p.sock).0 (send payload false (send topic true p.sock).1).0 refl
        refl
    where
      by_parts :
          (a b : Sent)
          → (send topic true p.sock).0 ≡ a
          → (send payload false (send topic true p.sock).1).0 ≡ b
          → let (answer, p') = publish zmq topic payload p in
            ((answer ≡ true) × (p'.dropped ≡ p.dropped))
            ⊎ ((answer ≡ false) × (p'.dropped ≡ u64 (p.dropped + 1)))
      by_parts refused b e f = rw (e, publish) (inr (refl, refl))
      by_parts failed b e f = rw (e, publish) (inr (refl, refl))
      by_parts sent refused e f = rw (e, publish) (rw (f, publish) (inr (refl, refl)))
      by_parts sent failed e f = rw (e, publish) (rw (f, publish) (inr (refl, refl)))
      by_parts sent sent e f = rw (e, publish) (rw (f, publish) (inl (refl, refl)))

  -- Over any publications `dropped` grows by the number of those answered `false`, modulo 2 ^ 64: no
  -- failure goes uncounted, and no success is counted as one.
  pub dropped-publish_all :
      (messages : List (Bytes × Bytes)) (p : Publisher Sock)
      → let (answers, p') = publish_all messages p in
        u64 p'.dropped ≡ u64 (p.dropped + refusals answers)
  dropped-publish_all [] p = omega arith
  dropped-publish_all ((topic, payload) ∷ rest) p = elim (publish-counts topic payload p) [
    | inl (took, same) ↦ rw took (
        dropped-publish_all rest (publish zmq topic payload p).1
        ∙ ap (λ d. u64 (d + refusals (publish_all rest (publish zmq topic payload p).1).0)) same)
    | inr (lost, more) ↦
        rw lost (dropped-publish_all rest (publish zmq topic payload p).1 ∙ omega (arith, more))
  ]
