-- ===== src/Programs/Broadcast/Counted.antt =====
-- apps/scan_publisher_main.cpp, apps/cloud_publisher_main.cpp and apps/camera_publisher_demo.cpp: what
-- the sensor gave is published or counted as dropped.
use arun_work.Base.{
  ℕ, suc, ◌+◌, ◌≡◌, ◌∙◌, List, [], ◌∷◌, Option, none, some, Bool, true, false, Bytes, codes, ◌⊎◌,
  inl, inr, arith,
}
use arun_work.Base.Words.{u64}
use arun_work.Transport.{IZmq}
use arun_work.Transport.Counts.{publish-counts}
use arun_work.Lidar.Scan.{Scan, PointCloud, LidarScan, LidarPointCloud}
use arun_work.Lidar.Replies.{IProtobuf}
use arun_work.Lidar.Feed.{ScanPublisher, CloudPublisher, publish_scan, publish_cloud}
use arun_work.Programs.Broadcast.{
  Broadcast, broadcast, publish_scans, publish_clouds, Camera, camera_round, camera_loop,
}

-- What was polled, counted.
abbrev pub one_if_some : {A : Type 0} → Option A → ℕ
one_if_some none = 0
one_if_some (some a) = 1

-- A publisher answers `true`, or it answers `false` and counts one more as dropped.
abbrev pub IsCounting : {A P : Type 0} → (A → P → Bool × P) → (P → ℕ) → Type 0
IsCounting {A} {P} send dropped =
    (a : A) (p : P)
    → (((send a p).0 ≡ true) × (dropped (send a p).1 ≡ dropped p))
      ⊎ (((send a p).0 ≡ false) × (dropped (send a p).1 ≡ u64 (dropped p + 1)))

module _ {A P : Type 0} (send : A → P → Bool × P) (dropped : P → ℕ)
    (counts : IsCounting send dropped) where
  broadcast-counts :
      (every : ℕ) (polled : Option A) (s : Broadcast P)
      → let s' = broadcast send every polled s in
        u64 (s'.published + dropped s'.publisher)
        ≡ u64 (s.published + dropped s.publisher + one_if_some polled)
  unfolding broadcast
  broadcast-counts every none s = omega arith
  broadcast-counts every (some a) s = elim (counts a s.publisher) [
    | inl (took, same) ↦ rw (took) (omega (arith, same))
    | inr (lost, more) ↦ rw (lost) (omega (arith, more))
  ]

module _ {Float Sock : Type 0} (zmq : IZmq Sock) (protobuf : IProtobuf (LidarScan Float)) where
  abbrev pub polled_scans : List (Option (Scan Float)) → ℕ
  polled_scans [] = 0
  polled_scans (polled ∷ rest) = one_if_some polled + polled_scans rest

  publish_scan-IsCounting :
      IsCounting (publish_scan zmq protobuf) (λ (p : ScanPublisher Float Sock). p.publisher.dropped)
  unfolding publish_scan
  publish_scan-IsCounting scan p = publish-counts zmq p.topic _ p.publisher

  -- Whatever ZeroMQ answers: of the scans that the program has polled, each is counted as published or
  -- as dropped, modulo 2 ^ 64, and none as both.
  pub publish_scans-counts :
      (answers : List (Option (Scan Float))) (s : Broadcast (ScanPublisher Float Sock))
      → let s' = publish_scans zmq protobuf answers s in
        u64 (s'.published + s'.publisher.publisher.dropped)
        ≡ u64 (s.published + s.publisher.publisher.dropped + polled_scans answers)
  unfolding publish_scans
  publish_scans-counts [] s = omega arith
  publish_scans-counts (polled ∷ rest) s =
      publish_scans-counts rest (broadcast (publish_scan zmq protobuf) 25 polled s)
      ∙ omega (
        arith,
        broadcast-counts (publish_scan zmq protobuf) (λ p. p.publisher.dropped)
            publish_scan-IsCounting 25 polled s,
      )

module _ {Float Sock : Type 0} (zmq : IZmq Sock)
    (protobuf : IProtobuf (LidarPointCloud Float)) where
  -- The clouds polled in the rounds before Ctrl+C.
  abbrev pub polled_clouds : List (Bool × Option (PointCloud Float)) → ℕ
  polled_clouds [] = 0
  polled_clouds ((true, polled) ∷ rest) = 0
  polled_clouds ((false, polled) ∷ rest) = one_if_some polled + polled_clouds rest

  publish_cloud-IsCounting :
      IsCounting
        (publish_cloud zmq protobuf)
        (λ (p : CloudPublisher Float Sock). p.publisher.dropped)
  unfolding publish_cloud
  publish_cloud-IsCounting cloud p = publish-counts zmq p.topic _ p.publisher

  -- So it is with the clouds, up to the round in which Ctrl+C is seen.
  publish_clouds-counts :
      (answers : List (Bool × Option (PointCloud Float)))
      (s : Broadcast (CloudPublisher Float Sock))
      → let (ended, s') = publish_clouds zmq protobuf answers s in
        u64 (s'.published + s'.publisher.publisher.dropped)
        ≡ u64 (s.published + s.publisher.publisher.dropped + polled_clouds answers)
  unfolding publish_clouds
  publish_clouds-counts [] s = omega arith
  publish_clouds-counts ((true, polled) ∷ rest) s = omega arith
  publish_clouds-counts ((false, polled) ∷ rest) s =
      publish_clouds-counts rest (broadcast (publish_cloud zmq protobuf) 20 polled s)
      ∙ omega (
        arith,
        broadcast-counts (publish_cloud zmq protobuf) (λ p. p.publisher.dropped)
            publish_cloud-IsCounting 20 polled s,
      )

module _ {Frame Sock : Type 0} (zmq : IZmq Sock) (encode : Frame → Bytes) where
  -- The rounds before Ctrl+C.
  abbrev pub camera_rounds : List (Bool × Option Frame) → ℕ
  camera_rounds [] = 0
  camera_rounds ((true, frame) ∷ rest) = 0
  camera_rounds ((false, frame) ∷ rest) = suc (camera_rounds rest)

  camera_round-counts :
      (frame : Option Frame) (c : Camera Sock)
      → let c' = camera_round zmq encode frame c in
        u64 (c'.published_count + c'.publisher.dropped + c'.empty_frame_count)
        ≡ u64 (c.published_count + c.publisher.dropped + c.empty_frame_count + 1)
  unfolding camera_round
  camera_round-counts none c = omega arith
  camera_round-counts (some frame) c =
      elim (publish-counts zmq (codes "camera.frame") (encode frame) c.publisher) [
        | inl (took, same) ↦ rw took (omega (arith, same))
        | inr (lost, more) ↦ rw lost (omega (arith, more))
      ]

  -- Each round of the camera's loop is counted once: as a frame published, as one dropped, or as one
  -- that was empty.
  camera_loop-counts :
      (answers : List (Bool × Option Frame)) (c : Camera Sock)
      → let (ended, c') = camera_loop zmq encode answers c in
        u64 (c'.published_count + c'.publisher.dropped + c'.empty_frame_count)
        ≡ u64
            (c.published_count + c.publisher.dropped + c.empty_frame_count + camera_rounds answers)
  unfolding camera_loop
  camera_loop-counts [] c = omega arith
  camera_loop-counts ((true, frame) ∷ rest) c = omega arith
  camera_loop-counts ((false, frame) ∷ rest) c =
      camera_loop-counts rest (camera_round zmq encode frame c)
      ∙ omega (arith, camera_round-counts frame c)
