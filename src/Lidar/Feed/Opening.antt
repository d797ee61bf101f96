-- ===== src/Lidar/Feed/Opening.antt =====
-- src/publisher.cpp, src/subscriber.cpp, src/cloud_publisher.cpp and src/cloud_subscriber.cpp: the
-- constructors. `fresh` is a new message of protobuf.
use arun_work.Base.{Bytes, Exception, Result, ok, ◌>>=◌}
use arun_work.Transport.Sockets.{IContext, make_publisher, make_subscriber, add_prefix}
use arun_work.Lidar.Scan.{LidarScan, LidarPointCloud}
use arun_work.Lidar.Feed.{ScanPublisher, CloudPublisher, Subscriber}

module _ {Float Sock : Type 0} (ctx : IContext Sock) where
  unfoldable pub open_scan_publisher :
      LidarScan Float → Bytes → Bytes → Result Exception (ScanPublisher Float Sock)
  open_scan_publisher fresh endpoint topic = do
    publisher ← make_publisher ctx endpoint
    ok (record { topic = topic; publisher = publisher; wire = fresh })

  unfoldable pub open_cloud_publisher :
      LidarPointCloud Float → Bytes → Bytes → Result Exception (CloudPublisher Float Sock)
  open_cloud_publisher fresh endpoint topic = do
    publisher ← make_publisher ctx endpoint
    ok (record { topic = topic; publisher = publisher; wire = fresh })

module _ {Sock : Type 0} (ctx : IContext Sock) where
  -- A subscriber for scans, or one for clouds: it listens to its topic from the start.
  unfoldable pub open_subscriber : Bytes → Bytes → Result Exception (Subscriber Sock)
  open_subscriber endpoint topic = do
    sock ← make_subscriber ctx endpoint
    sock ← add_prefix ctx topic sock
    ok (record { sock = sock; malformed = 0 })
