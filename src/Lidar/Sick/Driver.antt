-- ===== src/Lidar/Sick/Driver.antt =====
-- src/sick_scan_source.cpp: a source's connection to the vendor's driver, and the registry through
-- which the driver's callback finds the source. The driver is a parameter, whose answers may depend
-- on all that happened before; a source is named by a number that stands for its address.
use arun_work.Base.{
  ℕ, List, [], ◌∷◌, ◌++◌, Option, none, some, Bool, true, false, ◌==◌, Bytes, codes, Exception,
  runtime_error, Result, ok, err, ◌>>◌, if◌then◌else◌,
}
use arun_work.Base.Int.{ℤ, eq_ℤ}
use arun_work.Base.Decimal.{to_string}

-- `std::map<SickScanApiHandle, Impl*>`
abbrev pub Registry : Type 0
Registry = List (ℕ × ℕ)

abbrev pub find : ℕ → Registry → Option ℕ
find h [] = none
find h ((k, self) ∷ rest) = if k == h then some self else find h rest

abbrev pub erase : ℕ → Registry → Registry
erase h [] = []
erase h ((k, self) ∷ rest) = let kept = erase h rest in if k == h then kept else (k, self) ∷ kept

-- What the code does, in the order of time: its calls of the driver with the answers, and its writes
-- to the registry.
pub data Event : Type 0 where
  created : Option ℕ → Event
  published erased : ℕ → Event
  callback_set : ℕ → ℤ → Event
  callback_cleared : ℕ → Event
  initialised : ℕ → Bytes → ℤ → Event
  closed released : ℕ → Event

-- Each event with the registry behind it, the last one first.
abbrev pub Trace : Type 0
Trace = List (Event × Registry)

pub record World : Type 0 where
  pub registry : Registry
  pub trace : Trace

-- The answers of `SickScanApiCreate`, `SickScanApiRegisterPolarPointCloudMsg` and
-- `SickScanApiInitByLaunchfile`, and the constant `SICK_SCAN_API_SUCCESS`.
pub record ISickScanApi : Type 0 where
  pub success : ℤ
  pub create : Trace → Option ℕ
  pub set_callback : Trace → ℕ → ℤ
  pub init : Trace → ℕ → Bytes → ℤ

unfoldable pub note : Event → World → World
note event w = record w { trace = (event, w.registry) ∷ w.trace }

unfoldable pub publish_self : ℕ → ℕ → World → World
publish_self h self w = note (published h) (record w { registry = (h, self) ∷ erase h w.registry })

unfoldable pub unregister_self : ℕ → World → World
unregister_self h w = note (erased h) (record w { registry = erase h w.registry })

-- The constructor's checks of its configuration; `launch_help` ends the message on a missing launch
-- file.
unfoldable pub check_config :
    Bytes → Bytes → Bytes → Bytes → Bytes → ℕ → Result Exception (Unit {0})
check_config name launch_help hostname udp_receiver_ip launch_file queue_capacity = do
  given hostname (codes "hostname is empty")
  given udp_receiver_ip (
      codes
        "udp_receiver_ip is empty -- it must be THIS machine's IP address on the sensor's subnet (find it with: ip -4 addr show). The sensor pushes scan data to that address over UDP; without it the start handshake fails.")
  given launch_file (codes "launch_file is empty -- it must be the path to " ++ launch_help)
  if queue_capacity == 0 then refuse (codes "queue_capacity must be at least 1") else ok tt
  where
    refuse : Bytes → Result Exception (Unit {0})
    refuse reason = err (runtime_error (name ++ codes ": Config::" ++ reason))

    given : Bytes → Bytes → Result Exception (Unit {0})
    given [] reason = refuse reason
    given (c ∷ s) reason = ok tt

module _ (driver : ISickScanApi) where
  abbrev pub succeeded : ℤ → Bool
  succeeded rc = eq_ℤ rc driver.success

  -- The end of the constructor, behind the callback's registration.
  unfoldable pub start_driver : Bytes → Bytes → ℕ → World → Result Exception ℕ × World
  start_driver name launch_args h w =
      let rc = driver.init w.trace h launch_args in
      let started = note (initialised h launch_args rc) w in
      elim (succeeded rc) [
        | true ↦ (ok h, started)
        | false ↦ (
          err (
              runtime_error (
                name
                ++ codes ": SickScanApiInitByLaunchfile failed (rc="
                ++ to_string rc
                ++ codes ") for args: "
                ++ launch_args)),
          note (released h) (unregister_self h (note (callback_cleared h) started)),
        )
      ]

  unfoldable pub register_callback : Bytes → Bytes → ℕ → World → Result Exception ℕ × World
  register_callback name launch_args h w =
      let rc = driver.set_callback w.trace h in
      let answered = note (callback_set h rc) w in
      elim (succeeded rc) [
        | true ↦ start_driver name launch_args h answered
        | false ↦ (
          err (runtime_error (name ++ codes ": SickScanApiRegisterPolarPointCloudMsg failed")),
          note (released h) (unregister_self h answered),
        )
      ]

  -- The constructor behind its checks, for the source `self`.
  unfoldable pub connect : Bytes → Bytes → ℕ → World → Result Exception ℕ × World
  connect name launch_args self w =
      let handle = driver.create w.trace in
      let answered = note (created handle) w in
      elim handle [
        | none ↦ (err (runtime_error (name ++ codes ": SickScanApiCreate returned null")), answered)
        | some h ↦ register_callback name launch_args h (publish_self h self answered)
      ]

-- The destructor.
unfoldable pub disconnect : Option ℕ → Bool → World → World
disconnect handle callback_registered w = elim handle [
  | none ↦ w
  | some h ↦
      let silent = if callback_registered then note (callback_cleared h) w else w in
      note (released h) (note (closed h) (unregister_self h silent))
]
