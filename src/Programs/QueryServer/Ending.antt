-- ===== src/Programs/QueryServer/Ending.antt =====
-- apps/scan_query_server_main.cpp: the process ends at the first record that cannot be read.
use arun_work.Base.{◌≡◌, ◌∙◌, refl, List, [], ◌∷◌, some, Bytes, Exception, what, err}
use arun_work.Base.Int.{pos}
use arun_work.Transport.{IZmq}
use arun_work.Lidar.Scan.{LidarScan}
use arun_work.Lidar.Replies.{IProtobuf}
use arun_work.Lidar.Log.{IIndex}
use arun_work.Lidar.Query.{find_scans, serve}
use arun_work.Lidar.Query.Serving.{serve-throws}
use arun_work.Programs.QueryServer.Endless.{received}
use arun_work.Programs.QueryServer.{
  Stage, serving, failed, Serving, Turn, seen, turn, turns, server_status,
}

module _ {Float Db Sock : Type 0} (protobuf : IProtobuf (LidarScan Float)) (fresh : LidarScan Float)
    (index : IIndex Db) (zmq : IZmq Sock) where
  turn-failed :
      (e : Exception) (t : Turn Db Sock) (s : Serving Db Sock)
      → s.stage ≡ failed e
      → turn protobuf fresh index zmq t s ≡ s
  unfolding turn
  turn-failed e t s h = by_stage s.stage h
    where
      by_stage :
          (stage : Stage)
          → stage ≡ failed e
          → turn protobuf fresh index zmq t (record s { stage = stage })
            ≡ record s { stage = stage }
      by_stage serving h = absurd (cc h)
      by_stage (failed e') h = refl

  stays_failed :
      (e : Exception) (ts : List (Turn Db Sock)) (s : Serving Db Sock)
      → s.stage ≡ failed e
      → turns protobuf fresh index zmq ts s ≡ s
  unfolding turns
  stays_failed e [] s h = refl
  stays_failed e (t ∷ ts) s h = rw (turn-failed e t s h) (stays_failed e ts s h)

  turn-throws :
      (t : Turn Db Sock) (s : Serving Db Sock) (e : Exception)
      → s.stage ≡ serving
      → (serve protobuf fresh index zmq
          (pos 1000)
          t.file
          (t.arrivals s.sock)
          (seen protobuf fresh index zmq t s.server)).0
        ≡ err e
      → let s' = turn protobuf fresh index zmq t s in
        (s'.stage ≡ failed e)
        × (s'.sock
            ≡ (serve protobuf fresh index zmq
                (pos 1000)
                t.file
                (t.arrivals s.sock)
                (seen protobuf fresh index zmq t s.server)).1)
  unfolding turn
  turn-throws t s e up out = rw (up, turn) (rw (out, turn) (refl, refl))

  -- A request is taken and the reader throws on it a standard exception: the process ends with status
  -- 1, whatever the rounds behind it were to meet; the socket is as the receive left it, so that this
  -- request gets no reply and the later ones are never taken.
  pub turns-throws :
      (t : Turn Db Sock) (ts : List (Turn Db Sock)) (s : Serving Db Sock) (command : Bytes)
      (e : Exception) (message : Bytes)
      → s.stage ≡ serving
      → (received protobuf fresh index zmq t s).0 ≡ some command
      → (find_scans protobuf index t.file
          (seen protobuf fresh index zmq t s.server).reader
          command).0
        ≡ err e
      → what e ≡ some message
      → let s' = turns protobuf fresh index zmq (t ∷ ts) s in
        (server_status protobuf fresh index zmq s'.stage ≡ some 1)
        × (s'.sock ≡ (received protobuf fresh index zmq t s).1)
  unfolding turns server_status
  turns-throws t ts s command e message up asked thrown standard =
      let (out, sock, count) =
        serve-throws protobuf fresh index zmq (pos 1000) t.file command (t.arrivals s.sock)
          (seen protobuf fresh index zmq t s.server) e asked thrown in
      let (down, left) = turn-throws t s e up out in
      rw (stays_failed e ts (turn protobuf fresh index zmq t s) down)
        (rw (down, server_status) (rw standard refl), left ∙ sock)
