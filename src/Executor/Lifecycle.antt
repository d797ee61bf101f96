-- ===== src/Executor/Lifecycle.antt =====
-- src/executor.cpp: starting and stopping. What is started is stopped in reverse.
use arun_work.Base.{
  ℕ, zero, suc, ◌+◌, ◌≡◌, ◌∙◌, refl, ap, List, [], ◌∷◌, ◌++◌, append-nil, Option, none, some, arith,
  Exception, what, Option-cases, inl, inr, length, codes, Bytes,
}
use native.Mathlib.Nat.{add-zero, zero-add}
use arun_work.Executor.State.{
  INode, Phase, building, configured, running, stopped, Report, Executor, require,
}
use arun_work.Executor.Calls.{start_from, start_all, stop_down, stop_all, destroy}
use arun_work.Base.Int.{ℤ}
use arun_work.Executor.Firsts.{IsWf, InSync-length}

module _ {Ref W : Type 0} (node : INode Ref W) where
  open node use {start, stop}

  -- The nodes stopped from the last to the first.
  abbrev pub stop_back : List Ref → W → W
  stop_back [] w = w
  stop_back (n ∷ ns) w = stop n (stop_back ns w)

  -- The nodes started from the first to the last; `none` if one throws.
  abbrev pub start_each : List Ref → W → Option W
  start_each [] w = some w
  start_each (n ∷ ns) w = elim (start n w).0 [ none ↦ start_each ns (start n w).1 | some e ↦ none ]

  stop_down-cons :
      (n : Ref) (ns : List Ref) (k : ℕ) (w : W)
      → stop_down node (n ∷ ns) (suc k) w ≡ stop n (stop_down node ns k w)
  unfolding stop_down
  stop_down-cons n ns zero w = refl
  stop_down-cons n ns (suc k) w = stop_down-cons n ns k _

  pub stop_down-stop_back :
      (ns ms : List Ref) (w : W) → stop_down node (ns ++ ms) (length ns) w ≡ stop_back ns w
  stop_down-stop_back [] ms w = unfold stop_down in refl
  stop_down-stop_back (n ∷ ns) ms w =
      stop_down-cons n (ns ++ ms) (length ns) w ∙ ap (stop n) (stop_down-stop_back ns ms w)

  injective : {a b : W} → some a ≡ some b → a ≡ b
  injective e = cc e

  no_world : {a : W} → ¬ (none ≡ some a)
  no_world e = cc e

  -- `start_from` passes the nodes that start.
  start_from-append :
      (all ns ms : List Ref) (rb rs : List Report) (started : ℕ) (w w' : W)
      → length rb ≡ length ns
      → start_each ns w ≡ some w'
      → start_from node all (ns ++ ms) (rb ++ rs) started w
        ≡ start_from node all ms rs (started + length ns) w'
  unfolding start_from
  start_from-append all [] ms [] rs started w w' l e =
      rw add-zero (ap (start_from node all ms rs started) (injective e))
  start_from-append all [] ms (r ∷ rb) rs started w w' l e = absurd (omega (arith, l))
  start_from-append all (n ∷ ns) ms [] rs started w w' l e = absurd (omega (arith, l))
  start_from-append all (n ∷ ns) ms (r ∷ rb) rs started w w' l e =
      elim (Option-cases (start n w).0) [
        | inl f ↦
            rw (f, start_from)
              (start_from-append all ns ms rb rs (started + 1) (start n w).1 w' (omega (arith, l))
                  (rw (f, start_each) at e)
                ∙ ap (λ k. start_from node all ms rs k w') (omega arith))
        | inr (_, f) ↦ absurd (no_world (rw (f, start_each) at e))
      ]

  require-eq-none : (p q : Phase) (called : Bytes) → p ≡ q → require p q called ≡ none
  unfolding require
  require-eq-none p building called e = rw e
  require-eq-none p configured called e = rw e
  require-eq-none p running called e = rw e
  require-eq-none p stopped called e = rw e

  -- Every node starts: the executor runs, and the nodes were started in order.
  pub start_all_ok :
      (firsts : List (Option ℤ)) (ex : Executor Ref) (w w' : W)
      → IsWf firsts ex
      → ex.phase ≡ configured
      → start_each ex.nodes w ≡ some w'
      → start_all node ex w ≡ (none, record ex { started = length ex.nodes; phase = running }, w')
  unfolding start_all
  start_all_ok firsts ex w w' wf p e =
      rw (require-eq-none ex.phase configured (codes "start_all") p, start_all)
        (rw (begun, start_all) (rw begun))
    where
      begun : start_from node ex.nodes ex.nodes ex.reports 0 w ≡ (none, length ex.nodes, w')
      begun =
          rw (append-nil ex.nodes, append-nil ex.reports, zero-add) at
            (start_from-append ex.nodes ex.nodes [] ex.reports [] 0 w w'
              (InSync-length ex.nodes ex.next_due ex.reports firsts wf).1 e)
          ∙ unfold start_from in refl

  module _ (ex : Executor Ref) (w w1 w2 : W) (before after : List Ref) (n : Ref)
      (rb ra : List Report) (r : Report) (e : Exception) (phase_eq : ex.phase ≡ configured)
      (nodes_eq : ex.nodes ≡ before ++ n ∷ after) (reports_eq : ex.reports ≡ rb ++ r ∷ ra)
      (same : length rb ≡ length before) (begun : start_each before w ≡ some w1)
      (thrown : start n w1 ≡ (some e, w2)) where
    -- `n` throws something else: it goes out as it is, the nodes before `n` are left running, and
    -- neither `stop_all` nor the destructor stops them.
    pub start_all_leaks :
        what e ≡ none
        → let (out, ex', w') = start_all node ex w in
          (out ≡ some e) × (w' ≡ w2) × ((stop_all node ex' w').1 ≡ w2) × (destroy node ex' w' ≡ w2)
    unfolding start_all start_from stop_all destroy
    start_all_leaks foreign =
        rw (require-eq-none ex.phase configured (codes "start_all") phase_eq, start_all)
          (rw (left_at, start_all) (rw left_at (refl, refl, rw phase_eq refl, rw phase_eq refl)))
      where
        left_at : start_from node ex.nodes ex.nodes ex.reports 0 w ≡ (some e, length before, w2)
        left_at =
            rw (nodes_eq, reports_eq)
              (start_from-append (before ++ n ∷ after) before (n ∷ after) rb (r ∷ ra) 0 w w1 same
                  begun
                ∙ rw (thrown, start_from) (rw (foreign, ap (λ p. p.1) thrown, zero-add) refl))
