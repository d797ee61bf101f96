-- ===== src/Lidar/Query/Serving.antt =====
-- src/query_server.cpp: what a server does with a request when the recording cannot be read.
use arun_work.Base.{◌+◌, ◌≡◌, refl, some, Bytes, Exception, err}
use arun_work.Base.Int.{ℤ}
use arun_work.Base.Words.{u64}
use arun_work.Transport.{IZmq, receive_request, serve_one}
use arun_work.Lidar.Scan.{LidarScan}
use arun_work.Lidar.Replies.{IProtobuf}
use arun_work.Lidar.Log.{IIndex}
use arun_work.Lidar.Query.{ScanQueryServer, find_scans, handle, serve}

module _ {Float Db Sock : Type 0} (protobuf : IProtobuf (LidarScan Float)) (fresh : LidarScan Float)
    (index : IIndex Db) (zmq : IZmq Sock) where
  -- A request was taken from the socket and the reader throws on it: the exception leaves `serve_one`,
  -- the socket is as the receive left it, so that no reply was sent, and the request counts as served.
  pub serve-throws :
      (timeout : ℤ) (file command : Bytes) (sock : Sock) (s : ScanQueryServer Db) (e : Exception)
      → (receive_request zmq timeout sock).0 ≡ some command
      → (find_scans protobuf index file s.reader command).0 ≡ err e
      → let (out, sock', s') = serve protobuf fresh index zmq timeout file sock s in
        (out ≡ err e)
        × (sock' ≡ (receive_request zmq timeout sock).1)
        × (s'.served_count ≡ u64 (s.served_count + 1))
  unfolding serve serve_one handle
  serve-throws timeout file command sock s e arrived thrown =
      rw (arrived, serve_one) (rw (thrown, handle) (refl, refl, refl))
