-- ===== src/Executor/Phases.antt =====
-- src/executor.cpp: the phases go one way, and a stopped executor does nothing any more.
use arun_work.Base.{ℕ, ◌≡◌, refl, false, List, [], ◌∷◌, append-nil, some, codes, Exception, Bytes}
use arun_work.Executor.State.{
  INode, Phase, building, configured, running, stopped, same_phase, Executor, require, add,
}
use arun_work.Executor.Calls.{
  configure_all, start_all, step, stop_all, destroy, Call, adds, configures, starts, steps, stops,
  apply_call, run,
}
use arun_work.Executor.Lifecycle.{stop_back, stop_down-stop_back}

abbrev pub rank : Phase → ℕ
rank building = 0
rank configured = 1
rank running = 2
rank stopped = 3

module _ {Ref W : Type 0} (node : INode Ref W) where
  open node use {spec}

  require-stopped :
      (p q : Phase) (called : Bytes)
      → p ≡ stopped
      → same_phase stopped q ≡ false
      → (e : Exception) × (require p q called ≡ some e)
  unfolding require
  require-stopped p q called e d = rw e (rw d (_, refl))

  apply_call-stopped :
      (ex : Executor Ref) (w : W) (c : Call Ref)
      → ex.phase ≡ stopped
      → apply_call node ex w c ≡ (ex, w)
  unfolding apply_call add configure_all start_all step stop_all
  apply_call-stopped ex w (adds n) e =
      rw ((require-stopped ex.phase building (codes "add") e refl).1, add) refl
  apply_call-stopped ex w configures e =
      rw ((require-stopped ex.phase building (codes "configure_all") e refl).1, configure_all) refl
  apply_call-stopped ex w starts e =
      rw ((require-stopped ex.phase configured (codes "start_all") e refl).1, start_all) refl
  apply_call-stopped ex w (steps now) e =
      rw ((require-stopped ex.phase running (codes "step") e refl).1, step) refl
  apply_call-stopped ex w stops e = rw e refl

  -- Whatever is called on a stopped executor changes neither the executor nor the outside: no node
  -- is called again.
  pub stopped_is_final :
      (ex : Executor Ref) (w : W) (cs : List (Call Ref))
      → ex.phase ≡ stopped
      → run node ex w cs ≡ (ex, w)
  unfolding run
  stopped_is_final ex w [] e = refl
  stopped_is_final ex w (c ∷ cs) e =
      rw (apply_call-stopped ex w c e, run) (stopped_is_final ex w cs e)

  -- A running executor stops its nodes from the last to the first, once: the destructor after it
  -- does nothing.
  pub stop_all_reverses :
      (ex : Executor Ref) (w : W)
      → ex.phase ≡ running
      → let (ex', w') = stop_all node ex w in
        (w' ≡ stop_back node ex.nodes w) × (ex'.phase ≡ stopped) × (destroy node ex' w' ≡ w')
  unfolding stop_all destroy
  stop_all_reverses ex w e =
      rw e (rw (append-nil ex.nodes) at (stop_down-stop_back node ex.nodes [] w), refl, refl)
