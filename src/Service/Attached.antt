-- ===== src/Service/Attached.antt =====
-- apps/scan_publisher_recorder_main.cpp: the loop polls only a source that exists.
use arun_work.Base.{◌≡◌, List, [], ◌∷◌, Bool, true, false, arith}
use arun_work.Transport.{IZmq}
use arun_work.Lidar.Scan.{LidarScan}
use arun_work.Lidar.Replies.{IProtobuf}
use arun_work.Lidar.Log.{IIndex}
use arun_work.Service.{
  Service, Answer, Phase, polling, reconnecting, finished, aborted, failed, time_out, reconnect,
  handle_scan, iterate, run,
}

-- `source` holds a source in the one loop, and none in the other.
abbrev pub HasSource : Phase → Bool → Type 0
HasSource polling connected = connected ≡ true
HasSource reconnecting connected = connected ≡ false
HasSource finished connected = Unit
HasSource aborted connected = Unit
HasSource (failed e) connected = Unit

module _ {Float Db Sock : Type 0} where
  abbrev pub IsAttached : Service Float Db Sock → Type 0
  IsAttached s = HasSource s.phase s.connected

module _ {Float Db Sock : Type 0} (protobuf : IProtobuf (LidarScan Float)) (index : IIndex Db)
    (zmq : IZmq Sock) where
  iterate-IsAttached :
      (a : Answer Float) (s : Service Float Db Sock)
      → IsAttached s
      → IsAttached (iterate protobuf index zmq a s)
  unfolding iterate time_out reconnect handle_scan
  iterate-IsAttached a s h = ground (arith, h)

  -- Over any run, whatever the sensor, the disk, the index, the subscribers and Ctrl+C do: the service
  -- has a source whenever it is about to poll, and none whenever it is about to make one, if this was
  -- so at first.
  pub run-IsAttached :
      (answers : List (Answer Float)) (s : Service Float Db Sock)
      → IsAttached s
      → IsAttached (run protobuf index zmq answers s)
  unfolding run
  run-IsAttached [] s h = h
  run-IsAttached (a ∷ rest) s h =
      run-IsAttached rest (iterate protobuf index zmq a s) (iterate-IsAttached a s h)
