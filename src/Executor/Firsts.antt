-- ===== src/Executor/Firsts.antt =====
-- src/executor.cpp: one due time, one report and one schedule for each node; and the times of the first
-- ticks, as the reports show them.
use arun_work.Base.{
  ℕ, suc, ◌+◌, Option, none, some, true, ◌==◌, if◌then◌else◌, ◌≡◌, refl, ap, false, List, [], ◌∷◌,
  ◌++◌, arith, length,
}
use arun_work.Base.Int.{ℤ}
use arun_work.Base.Words.{u64}
use arun_work.Executor.State.{Report, Executor}
use arun_work.Executor.Schedule.{IsScheduled, first_tick}

-- One due time and one report for each node, and each node on the schedule of its first tick.
abbrev pub InSync : {Ref : Type 0} → List Ref → List ℤ → List Report → List (Option ℤ) → Type 0
InSync [] [] [] [] = Unit {0}
InSync (n ∷ ns) (due ∷ dues) (r ∷ rs) (f ∷ fs) = IsScheduled f due r × InSync ns dues rs fs
InSync _ _ _ _ = ⊥

-- `firsts` are the times of the nodes' first ticks, `none` of a node that has not been ticked.
abbrev pub IsWf : {Ref : Type 0} → List (Option ℤ) → Executor Ref → Type 0
IsWf firsts ex = InSync ex.nodes ex.next_due ex.reports firsts

-- A node was ticked if its count of ticks has changed; a new node has not been ticked.
abbrev pub mark : ℤ → ℕ → ℕ → Option ℤ → Option ℤ
mark now before after first = if after == before then first else some (first_tick first now)

abbrev pub marks : ℤ → List Report → List Report → List (Option ℤ) → List (Option ℤ)
marks now (r ∷ rs) (r' ∷ rs') (f ∷ fs) = mark now r.ticks r'.ticks f ∷ marks now rs rs' fs
marks now [] (r' ∷ rs') [] = none ∷ marks now [] rs' []
marks now _ _ _ = []

pub unmarked : (now : ℤ) (n : ℕ) (first : Option ℤ) → mark now n n first ≡ first
unmarked now n first = let same : (n == n) ≡ true = ground arith in rw same refl

pub marked :
    (now : ℤ) (n : ℕ) (first : Option ℤ)
    → mark now n (u64 (n + 1)) first ≡ some (first_tick first now)
marked now n first = let other : (u64 (n + 1) == n) ≡ false = ground arith in rw other refl

module _ {Ref : Type 0} (now : ℤ) where
  pub InSync-kept :
      (ns : List Ref) (dues : List ℤ) (rs : List Report) (fs : List (Option ℤ))
      → InSync ns dues rs fs
      → InSync ns dues rs (marks now rs rs fs)
  InSync-kept [] [] [] [] h = tt
  InSync-kept (n ∷ ns) (due ∷ dues) (r ∷ rs) (f ∷ fs) h =
      (rw (unmarked now r.ticks f) h.0, InSync-kept ns dues rs fs h.1)
  InSync-kept [] [] [] (_ ∷ _) h = absurd h
  InSync-kept [] [] (_ ∷ _) _ h = absurd h
  InSync-kept [] (_ ∷ _) _ _ h = absurd h
  InSync-kept (_ ∷ _) [] _ _ h = absurd h
  InSync-kept (_ ∷ _) (_ ∷ _) [] _ h = absurd h
  InSync-kept (_ ∷ _) (_ ∷ _) (_ ∷ _) [] h = absurd h

  pub InSync-append :
      (ns : List Ref) (dues : List ℤ) (rs : List Report) (fs : List (Option ℤ)) (n : Ref) (due : ℤ)
      (r : Report)
      → InSync ns dues rs fs
      → IsScheduled none due r
      → InSync (ns ++ n ∷ []) (dues ++ due ∷ []) (rs ++ r ∷ []) (marks now rs (rs ++ r ∷ []) fs)
  InSync-append [] [] [] [] n due r h k = (k, tt)
  InSync-append (m ∷ ns) (d ∷ dues) (s ∷ rs) (f ∷ fs) n due r h k =
      (rw (unmarked now s.ticks f) h.0, InSync-append ns dues rs fs n due r h.1 k)
  InSync-append [] [] [] (_ ∷ _) n due r h k = absurd h
  InSync-append [] [] (_ ∷ _) _ n due r h k = absurd h
  InSync-append [] (_ ∷ _) _ _ n due r h k = absurd h
  InSync-append (_ ∷ _) [] _ _ n due r h k = absurd h
  InSync-append (_ ∷ _) (_ ∷ _) [] _ n due r h k = absurd h
  InSync-append (_ ∷ _) (_ ∷ _) (_ ∷ _) [] n due r h k = absurd h

pub InSync-length :
    {Ref : Type 0} (ns : List Ref) (dues : List ℤ) (rs : List Report) (fs : List (Option ℤ))
    → InSync ns dues rs fs
    → (length dues ≡ length ns) × (length rs ≡ length ns)
InSync-length [] [] [] [] h = (refl, refl)
InSync-length (n ∷ ns) (due ∷ dues) (r ∷ rs) (f ∷ fs) h =
    let (p, q) = InSync-length ns dues rs fs h.1 in (ap suc p, ap suc q)
InSync-length [] [] [] (_ ∷ _) h = absurd h
InSync-length [] [] (_ ∷ _) _ h = absurd h
InSync-length [] (_ ∷ _) _ _ h = absurd h
InSync-length (_ ∷ _) [] _ _ h = absurd h
InSync-length (_ ∷ _) (_ ∷ _) [] _ h = absurd h
InSync-length (_ ∷ _) (_ ∷ _) (_ ∷ _) [] h = absurd h
