-- ===== src/Lidar/Sick/Lives.antt =====
-- src/sick_scan_source.cpp: every interleaving of constructions and destructions of sources.
use arun_work.Base.{
  ℕ, suc, ◌+◌, ◌≡◌, refl, List, [], ◌∷◌, ◌++◌, some, true, Bytes, Exception, Result, ok, err, ◌==◌,
  if◌then◌else◌, arith,
}
use arun_work.Lidar.Sick.Driver.{
  created, released, Trace, World, ISickScanApi, note, publish_self, unregister_self, connect,
  register_callback, start_driver, disconnect,
}
use arun_work.Lidar.Sick.Lifetime.{IsSafe, IsSound, IsFresh, connect-IsSound, disconnect-IsSound}

-- The world, and the handles of the sources that exist.
pub record Sources : Type 0 where
  pub world : World
  pub handles : List ℕ

abbrev pub none_yet : Sources
none_yet = record { world = record { registry = []; trace = [] }; handles = [] }

abbrev pub join : Result Exception ℕ × World → List ℕ → Sources
join (ok h, after) handles = record { world = after; handles = h ∷ handles }
join (err e, after) handles = record { world = after; handles = handles }

-- A source is constructed, or the construction throws; a source is destroyed.
pub data Step (driver : ISickScanApi) : Sources → Sources → Type 0 where
  opened :
      (name args : Bytes) (self : ℕ) (s : Sources)
      → Step driver s (join (connect driver name args self s.world) s.handles)
  ended :
      (w : World) (before : List ℕ) (h : ℕ) (after : List ℕ)
      → Step driver
          (record { world = w; handles = before ++ h ∷ after })
          (record { world = disconnect (some h) true w; handles = before ++ after })

pub data Reach (driver : ISickScanApi) (s : Sources) : Sources → Type 0 where
  here : Reach driver s s
  next : {t u : Sources} → Reach driver s t → Step driver t u → Reach driver s u

-- The handles that the driver has given, and those that it was given back.
abbrev pub taken : Trace → List ℕ
taken [] = []
taken ((created (some h), r) ∷ t) = h ∷ taken t
taken (_ ∷ t) = taken t

abbrev pub given_back : Trace → List ℕ
given_back [] = []
given_back ((released h, r) ∷ t) = h ∷ given_back t
given_back (_ ∷ t) = given_back t

-- How often a handle occurs.
abbrev pub times : ℕ → List ℕ → ℕ
times h [] = 0
times h (k ∷ ks) = if k == h then suc (times h ks) else times h ks

times-append : (h : ℕ) (ks ls : List ℕ) → times h (ks ++ ls) ≡ times h ks + times h ls
times-append h [] ls = omega arith
times-append h (k ∷ ks) ls = ground (arith, times-append h ks ls)

world-join : (a : Result Exception ℕ × World) (handles : List ℕ) → (join a handles).world ≡ a.1
world-join (ok h, after) handles = refl
world-join (err e, after) handles = refl

Step-IsSound :
    {driver : ISickScanApi} {s t : Sources}
    → IsFresh driver
    → Step driver s t
    → IsSound driver.success s.world
    → IsSound driver.success t.world
Step-IsSound fresh (opened name args self s) sound =
    rw (world-join (connect _ name args self s.world) s.handles)
      (connect-IsSound _ name args self s.world fresh sound)
Step-IsSound fresh (ended w before h after) sound = disconnect-IsSound _ h w sound

-- At every moment of every run of constructions, failed ones among them, and destructions of
-- sources: if the driver calls back for a handle, the registry has it. It is assumed that the driver
-- creates no handle for which it still calls back.
pub Reach-IsSafe :
    {driver : ISickScanApi} {s : Sources}
    → IsFresh driver
    → Reach driver none_yet s
    → IsSafe driver.success s.world.trace
Reach-IsSafe {driver} fresh reach = (sound reach).1
  where
    sound : {t : Sources} → Reach driver none_yet t → IsSound driver.success t.world
    sound here = (λ h live. absurd (cc live), tt)
    sound (next before step) = Step-IsSound fresh step (sound before)

-- The handle is taken as often as it is given back or some source's.
abbrev IsBalanced : ℕ → Sources → Type 0
IsBalanced h s =
    times h (taken s.world.trace) ≡ times h (given_back s.world.trace) + times h s.handles

connect-IsBalanced :
    (driver : ISickScanApi) (name args : Bytes) (self h : ℕ) (s : Sources)
    → IsBalanced h s
    → IsBalanced h (join (connect driver name args self s.world) s.handles)
unfolding connect register_callback start_driver note publish_self unregister_self
connect-IsBalanced driver name args self h s balance = ground arith

-- Behind every run of constructions, failed ones among them, and destructions of sources: every
-- handle was taken from the driver exactly as often as it was given back and is the handle of a source
-- that exists, so that with no source left each handle taken is released, as often as it was taken.
pub Reach-taken :
    {driver : ISickScanApi} {s : Sources} (h : ℕ)
    → Reach driver none_yet s
    → times h (taken s.world.trace) ≡ times h (given_back s.world.trace) + times h s.handles
unfolding disconnect note unregister_self
Reach-taken h here = refl
Reach-taken {driver} h (next before (opened name args self s)) =
    connect-IsBalanced driver name args self h s (Reach-taken h before)
Reach-taken h (next reach (ended w before k after)) =
    ground
      (arith, Reach-taken h reach, times-append h before (k ∷ after), times-append h before after)
