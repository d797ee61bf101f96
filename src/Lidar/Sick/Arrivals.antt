-- ===== src/Lidar/Sick/Arrivals.antt =====
-- src/sick_scan_source.cpp and src/sick_cloud_source.cpp: which source the driver's callback hands a
-- message to.
use arun_work.Base.{
  ℕ, ◌≡◌, refl, [], ◌∷◌, Option, none, some, Bool, ◌==◌, Bytes, Result, ok, ◌>>=◌, arith,
  if◌then◌else◌,
}
use arun_work.Lidar.Sick.Message.{SickScanPointCloudMsg, Undefined}
use arun_work.Lidar.Sick.Driver.{
  Registry, World, ISickScanApi, find, erase, note, publish_self, unregister_self, connect,
  register_callback, start_driver, disconnect,
}
use arun_work.Lidar.Sick.Source.{Impl, Conversion, enqueue_msg, on_polar_cloud}

find-erase : (h : ℕ) (r : Registry) → find h (erase h r) ≡ none
find-erase h [] = refl
find-erase h ((k, self) ∷ r) = ground (arith, find-erase h r)

connect-find :
    (driver : ISickScanApi) (name args : Bytes) (self h : ℕ) (w : World)
    → (connect driver name args self w).0 ≡ ok h
    → find h (connect driver name args self w).1.registry ≡ some self
unfolding connect register_callback start_driver note publish_self unregister_self
connect-find driver name args self h w e = ground (arith, e)

disconnect-find :
    (h : ℕ) (registered : Bool) (w : World)
    → find h (disconnect (some h) registered w).registry ≡ none
unfolding disconnect note unregister_self
disconnect-find h registered w = find-erase h _

module _ {Config A : Type 0} (convert : Conversion Config A) where
  -- The message goes to one source, and the others stay as they are.
  abbrev pub handed :
      ℕ → SickScanPointCloudMsg → (ℕ → Impl Config A) → Result Undefined (ℕ → Impl Config A)
  handed self msg sources = do
    after ← enqueue_msg convert msg (sources self)
    ok (λ other. if other == self then after else sources other)

  -- Behind a constructor that returned, a message on its handle is handed to its source and no other.
  pub on_polar_cloud-handed :
      (driver : ISickScanApi) (name args : Bytes) (self h : ℕ) (w : World)
      (msg : SickScanPointCloudMsg) (sources : ℕ → Impl Config A)
      → (connect driver name args self w).0 ≡ ok h
      → on_polar_cloud convert h (some msg) (connect driver name args self w).1.registry sources
        ≡ handed self msg sources
  unfolding on_polar_cloud
  on_polar_cloud-handed driver name args self h w msg sources e =
      rw (connect-find driver name args self h w e, on_polar_cloud) refl

  -- Behind the destructor, a message that still arrives on the handle is dropped.
  pub on_polar_cloud-dropped :
      (h : ℕ) (registered : Bool) (w : World) (msg : Option SickScanPointCloudMsg)
      (sources : ℕ → Impl Config A)
      → on_polar_cloud convert h msg (disconnect (some h) registered w).registry sources
        ≡ ok sources
  unfolding on_polar_cloud
  on_polar_cloud-dropped h registered w none sources = refl
  on_polar_cloud-dropped h registered w (some msg) sources =
      rw (disconnect-find h registered w, on_polar_cloud) refl
