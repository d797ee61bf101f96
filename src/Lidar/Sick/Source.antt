-- ===== src/Lidar/Sick/Source.antt =====
-- src/sick_scan_source.cpp and src/sick_cloud_source.cpp: the two sources, from their construction
-- to their end. They differ in the configuration and in what a message becomes.
use arun_work.Base.{
  ℕ, [], ◌++◌, Option, none, some, Bool, true, ◌==◌, Bytes, codes, Exception, Result, ok, err,
  ◌>>=◌, if◌then◌else◌,
}
use arun_work.Base.Int.{ℤ, pos, eq_ℤ}
use arun_work.Base.Decimal.{to_string}
use arun_work.Lidar.Scan.{Scan, PointCloud}
use arun_work.Lidar.Sick.{BoundedQueue, enqueue, poll_scan}
use arun_work.Lidar.Sick.Message.{SickScanPointCloudMsg, IFloat, Undefined}
use arun_work.Lidar.Sick.Scans.{ScanConfig, to_scan, default_scan}
use arun_work.Lidar.Sick.Clouds.{CloudConfig, to_cloud, default_cloud}
use arun_work.Lidar.Sick.Driver.{
  ISickScanApi, Registry, World, check_config, connect, disconnect, find,
}

-- `Impl`, with its configuration and the type of what it queues.
pub record Impl (Config A : Type 0) : Type 0 where
  pub cfg : Config
  pub handle : Option ℕ
  pub callback_registered : Bool
  pub queue : BoundedQueue A
  pub last_stamp_ns : ℤ

-- A message's conversion for a configuration and the stamp before.
abbrev pub Conversion : Type 0 → Type 0 → Type 0
Conversion Config A = Config → SickScanPointCloudMsg → ℤ → Result Undefined (Option (A × ℤ))

module _ {Config A : Type 0} where
  -- The members behind a construction that came to its end.
  abbrev pub connected : Config → ℕ → ℕ → Impl Config A
  connected cfg capacity h = record {
    cfg = cfg;
    handle = some h;
    callback_registered = true;
    queue = record { capacity = capacity; queue = []; dropped = 0 };
    last_stamp_ns = pos 0;
  }

  unfoldable pub destroy : Impl Config A → World → World
  destroy s w = disconnect s.handle s.callback_registered w

  -- The member function `enqueue`.
  unfoldable pub enqueue_msg :
      Conversion Config A → SickScanPointCloudMsg → Impl Config A → Result Undefined (Impl Config A)
  enqueue_msg convert msg s = do
    converted ← convert s.cfg msg s.last_stamp_ns
    ok (elim converted [
      | none ↦ s
      | some (a, stamp_ns) ↦ record s { queue = enqueue a s.queue; last_stamp_ns = stamp_ns }
    ])

  -- `on_polar_cloud`, on the sources by their numbers; `none` is a null message.
  unfoldable pub on_polar_cloud :
      Conversion Config A
      → ℕ
      → Option SickScanPointCloudMsg
      → Registry
      → (ℕ → Impl Config A)
      → Result Undefined (ℕ → Impl Config A)
  on_polar_cloud convert api_handle msg registry sources = elim msg [
    | none ↦ ok sources
    | some m ↦ elim (find api_handle registry) [
      | none ↦ ok sources
      | some self ↦ do
        after ← enqueue_msg convert m (sources self)
        ok (λ other. if other == self then after else sources other)
    ]
  ]

module _ {Float : Type 0} (float : IFloat Float) where
  abbrev pub scan_conversion : Conversion (ScanConfig Float) (Scan Float)
  scan_conversion cfg msg last_stamp_ns = to_scan float cfg msg last_stamp_ns (default_scan float)

  abbrev pub cloud_conversion : Conversion (CloudConfig Float) (PointCloud Float)
  cloud_conversion cfg msg last_stamp_ns =
      to_cloud float cfg msg last_stamp_ns (default_cloud float)

  -- The cloud source's `enqueue` and `on_polar_cloud`.
  unfoldable pub enqueue_cloud :
      SickScanPointCloudMsg
      → Impl (CloudConfig Float) (PointCloud Float)
      → Result Undefined (Impl (CloudConfig Float) (PointCloud Float))
  enqueue_cloud msg s = enqueue_msg cloud_conversion msg s

  unfoldable pub on_cloud_message :
      ℕ
      → Option SickScanPointCloudMsg
      → Registry
      → (ℕ → Impl (CloudConfig Float) (PointCloud Float))
      → Result Undefined (ℕ → Impl (CloudConfig Float) (PointCloud Float))
  on_cloud_message api_handle msg registry sources =
      on_polar_cloud cloud_conversion api_handle msg registry sources

module _ {Float : Type 0} where
  unfoldable pub poll_cloud :
      Impl (CloudConfig Float) (PointCloud Float)
      → Option (PointCloud Float) × Impl (CloudConfig Float) (PointCloud Float)
  poll_cloud s = let (first, rest) = poll_scan s.queue in (first, record s { queue = rest })

  unfoldable pub scan_launch_args : ScanConfig Float → Bytes
  scan_launch_args cfg =
      cfg.launch_file
      ++ codes " hostname:="
      ++ cfg.hostname
      ++ codes " udp_receiver_ip:="
      ++ cfg.udp_receiver_ip
      ++ codes " custom_pointclouds:="
      ++ cfg.cloud_name

  unfoldable pub destroy_cloud : Impl (CloudConfig Float) (PointCloud Float) → World → World
  destroy_cloud s w = destroy s w

  -- The ports are left to the launch file when they are 0.
  unfoldable pub cloud_launch_args : CloudConfig Float → Bytes
  cloud_launch_args cfg =
      cfg.launch_file
      ++ codes " hostname:="
      ++ cfg.hostname
      ++ codes " udp_receiver_ip:="
      ++ cfg.udp_receiver_ip
      ++ codes " custom_pointclouds:="
      ++ cfg.cloud_name
      ++ port (codes " udp_port:=") cfg.udp_port
      ++ port (codes " imu_udp_port:=") cfg.imu_udp_port
    where
      port : Bytes → ℤ → Bytes
      port name n = if eq_ℤ n (pos 0) then [] else name ++ to_string n

module _ {Float : Type 0} (driver : ISickScanApi) where
  -- The constructor of the scan source.
  unfoldable pub open_scan_source :
      ScanConfig Float → ℕ → World → Result Exception (Impl (ScanConfig Float) (Scan Float)) × World
  open_scan_source cfg self w =
      elim (check_config (codes "SickScanSource")
        (codes "sick_scan_xd's launch/sick_picoscan.launch") cfg.hostname cfg.udp_receiver_ip
        cfg.launch_file cfg.queue_capacity) [
          | err e ↦ (err e, w)
          | ok _ ↦
              let (handle, after) =
                connect driver (codes "SickScanSource") (scan_launch_args cfg) self w in
              (handle >>= λ h. ok (connected cfg cfg.queue_capacity h), after)
        ]

  -- The constructor of the cloud source.
  unfoldable pub open_cloud_source :
      CloudConfig Float
      → ℕ
      → World
      → Result Exception (Impl (CloudConfig Float) (PointCloud Float)) × World
  open_cloud_source cfg self w =
      elim (check_config (codes "SickCloudSource")
        (codes "sick_scan_xd's launch/sick_multiscan.launch (or sick_picoscan.launch)") cfg.hostname
        cfg.udp_receiver_ip cfg.launch_file cfg.queue_capacity) [
          | err e ↦ (err e, w)
          | ok _ ↦
              let (handle, after) =
                connect driver (codes "SickCloudSource") (cloud_launch_args cfg) self w in
              (handle >>= λ h. ok (connected cfg cfg.queue_capacity h), after)
        ]
