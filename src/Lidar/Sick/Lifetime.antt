-- ===== src/Lidar/Sick/Lifetime.antt =====
-- src/sick_scan_source.cpp: sources that come and go. At every moment the driver's callback can find
-- the source it is meant for, and every handle is released.
use arun_work.Base.{
  ℕ, ◌≡◌, refl, [], ◌∷◌, Option, none, some, Bool, true, false, ◌==◌, Bytes, arith, Bool-cases,
  Option-cases, ==_iff, sym, ◌∙◌, inl, inr, if◌then◌else◌,
}
use arun_work.Base.Int.{ℤ, eq_ℤ}
use arun_work.Lidar.Sick.Driver.{
  Event, created, published, erased, callback_set, callback_cleared, initialised, closed, released,
  Registry, Trace, World, ISickScanApi, find, erase, note, publish_self, unregister_self, connect,
  register_callback, start_driver, disconnect,
}

-- Whether the driver calls back for this handle, by the events so far.
abbrev pub is_live : ℤ → ℕ → Trace → Bool
is_live success h [] = false
is_live success h ((callback_set k rc, r) ∷ t) =
    let before = is_live success h t in
    if k == h then (if eq_ℤ rc success then true else before) else before
is_live success h ((callback_cleared k, r) ∷ t) =
    let before = is_live success h t in if k == h then false else before
is_live success h ((created k, r) ∷ t) = is_live success h t
is_live success h ((published k, r) ∷ t) = is_live success h t
is_live success h ((erased k, r) ∷ t) = is_live success h t
is_live success h ((initialised k args rc, r) ∷ t) = is_live success h t
is_live success h ((closed k, r) ∷ t) = is_live success h t
is_live success h ((released k, r) ∷ t) = is_live success h t

abbrev pub is_registered : ℕ → Registry → Bool
is_registered h r = elim (find h r) [ none ↦ false | some self ↦ true ]

-- A message that arrives finds its source.
abbrev pub IsAnswered : ℤ → Registry → Trace → Type 0
IsAnswered success r t = (h : ℕ) → is_live success h t ≡ true → is_registered h r ≡ true

-- At every moment of the trace.
abbrev pub IsSafe : ℤ → Trace → Type 0
IsSafe success [] = Unit
IsSafe success ((e, r) ∷ t) = IsAnswered success r ((e, r) ∷ t) × IsSafe success t

abbrev pub IsSound : ℤ → World → Type 0
IsSound success w = IsAnswered success w.registry w.trace × IsSafe success w.trace

registered-erase_ne :
    (h k : ℕ) (r : Registry)
    → (k == h) ≡ false
    → is_registered h r ≡ true
    → is_registered h (erase k r) ≡ true
registered-erase_ne h k [] e reg = reg
registered-erase_ne h k ((j, self) ∷ r) e reg = grind (arith, registered-erase_ne h k r)

module _ (success : ℤ) where
  note-IsSound :
      (e : Event) (w : World)
      → IsAnswered success w.registry ((e, w.registry) ∷ w.trace)
      → IsSafe success w.trace
      → IsSound success (note e w)
  unfolding note
  note-IsSound e w now before = (now, (now, before))

  publish_self-IsSound :
      (h self : ℕ) (w : World) → IsSound success w → IsSound success (publish_self h self w)
  unfolding publish_self
  publish_self-IsSound h self w (now, before) =
      note-IsSound _ _ (λ k live. ground (arith, registered-erase_ne k h w.registry, now k live))
        before

  unregister_self-IsSound :
      (h : ℕ) (w : World)
      → is_live success h w.trace ≡ false
      → IsSound success w
      → IsSound success (unregister_self h w)
  unfolding unregister_self
  unregister_self-IsSound h w quiet (now, before) = note-IsSound _ _ others before
    where
      others : IsAnswered success (erase h w.registry) ((erased h, erase h w.registry) ∷ w.trace)
      others k live = elim (Bool-cases (h == k)) [
        | inl same ↦
            let e : h ≡ k = (==_iff h k).0 same in
            let off : is_live success k w.trace ≡ false = rw e at quiet in absurd (cc (live, off))
        | inr other ↦ registered-erase_ne k h w.registry other (now k live)
      ]

  -- An event that neither sets nor clears a callback.
  abbrev IsQuiet : Event → Type 0
  IsQuiet e =
      (h : ℕ) (r : Registry) (t : Trace) → is_live success h ((e, r) ∷ t) ≡ is_live success h t

  quiet-IsSound :
      (e : Event) (w : World) → IsQuiet e → IsSound success w → IsSound success (note e w)
  quiet-IsSound e w quiet (now, before) =
      note-IsSound e w (λ h live. now h (sym (quiet h w.registry w.trace) ∙ live)) before

  set-IsSound :
      (k : ℕ) (rc : ℤ) (w : World)
      → is_registered k w.registry ≡ true
      → IsSound success w
      → IsSound success (note (callback_set k rc) w)
  set-IsSound k rc w reg (now, before) = note-IsSound _ w known before
    where
      known : IsAnswered success w.registry ((callback_set k rc, w.registry) ∷ w.trace)
      known h live = elim (Bool-cases (k == h)) [
        | inl same ↦ rw (sym ((==_iff k h).0 same)) reg
        | inr other ↦ now h (rw other at live)
      ]

  clear-IsSound :
      (k : ℕ) (w : World) → IsSound success w → IsSound success (note (callback_cleared k) w)
  clear-IsSound k w (now, before) = note-IsSound _ w known before
    where
      known : IsAnswered success w.registry ((callback_cleared k, w.registry) ∷ w.trace)
      known h live = elim (Bool-cases (k == h)) [
        | inl same ↦ absurd (cc (rw same at live))
        | inr other ↦ now h (rw other at live)
      ]

  cleared-quiet :
      (k : ℕ) (w : World) → is_live success k (note (callback_cleared k) w).trace ≡ false
  unfolding note
  cleared-quiet k w = ground arith

  set-still :
      (k : ℕ) (rc : ℤ) (w : World)
      → eq_ℤ rc success ≡ false
      → is_live success k (note (callback_set k rc) w).trace ≡ is_live success k w.trace
  unfolding note
  set-still k rc w e = elim (Bool-cases (k == k)) [ inl s ↦ rw (s, e) refl | inr s ↦ rw s refl ]

  publish_self-registered :
      (h self : ℕ) (w : World) → is_registered h (publish_self h self w).registry ≡ true
  unfolding publish_self note
  publish_self-registered h self w = ground arith

  -- The way out of a constructor that fails, and the end of the destructor.
  release-IsSound :
      (h : ℕ) (w : World)
      → is_live success h w.trace ≡ false
      → IsSound success w
      → IsSound success (note (released h) (unregister_self h w))
  release-IsSound h w quiet sound =
      quiet-IsSound (released h) _ (λ _ _ _. refl) (unregister_self-IsSound h w quiet sound)

  pub disconnect-IsSound :
      (h : ℕ) (w : World) → IsSound success w → IsSound success (disconnect (some h) true w)
  unfolding disconnect
  disconnect-IsSound h w sound =
      quiet-IsSound (released h) _ (λ _ _ _. refl)
        (quiet-IsSound (closed h) _ (λ _ _ _. refl)
          (unregister_self-IsSound h _ (cleared-quiet h w) (clear-IsSound h w sound)))

-- The driver hands out no handle for which it still calls back.
abbrev pub IsFresh : ISickScanApi → Type 0
IsFresh driver = (t : Trace) (h : ℕ) → driver.create t ≡ some h → is_live driver.success h t ≡ false

module _ (driver : ISickScanApi) where
  start_driver-IsSound :
      (name args : Bytes) (h : ℕ) (w : World)
      → IsSound driver.success w
      → IsSound driver.success (start_driver driver name args h w).1
  unfolding start_driver
  start_driver-IsSound name args h w sound =
      let rc = driver.init w.trace h args in
      let started = quiet-IsSound driver.success (initialised h args rc) w (λ _ _ _. refl) sound in
      elim (Bool-cases (eq_ℤ rc driver.success)) [
        | inl e ↦ rw (e, start_driver) started
        | inr e ↦
            rw (e, start_driver)
              (release-IsSound driver.success h _ (cleared-quiet driver.success h _)
                (clear-IsSound driver.success h _ started))
      ]

  register_callback-IsSound :
      (name args : Bytes) (h : ℕ) (w : World)
      → is_registered h w.registry ≡ true
      → is_live driver.success h w.trace ≡ false
      → IsSound driver.success w
      → IsSound driver.success (register_callback driver name args h w).1
  unfolding register_callback
  register_callback-IsSound name args h w reg quiet sound =
      let rc = driver.set_callback w.trace h in
      let answered = set-IsSound driver.success h rc w reg sound in
      elim (Bool-cases (eq_ℤ rc driver.success)) [
        | inl e ↦ rw (e, register_callback) (start_driver-IsSound name args h _ answered)
        | inr e ↦ rw (e, register_callback) (release-IsSound driver.success h _ (still e) answered)
      ]
    where
      still :
          eq_ℤ (driver.set_callback w.trace h) driver.success ≡ false
          → is_live driver.success h (note (callback_set h (driver.set_callback w.trace h)) w).trace
            ≡ false
      still e = set-still driver.success h _ w e ∙ quiet

  pub connect-IsSound :
      (name args : Bytes) (self : ℕ) (w : World)
      → IsFresh driver
      → IsSound driver.success w
      → IsSound driver.success (connect driver name args self w).1
  unfolding connect note
  connect-IsSound name args self w fresh sound =
      let answered =
        λ (o : Option ℕ). quiet-IsSound driver.success (created o) w (λ _ _ _. refl) sound in
      elim (Option-cases (driver.create w.trace)) [
        | inl e ↦ rw (e, connect) (answered none)
        | inr (h, e) ↦
            rw (e, connect)
              (register_callback-IsSound name args h _
                (publish_self-registered driver.success h self _)
                (unfold publish_self note in fresh w.trace h e)
                (publish_self-IsSound driver.success h self _ (answered (some h))))
      ]
