-- ===== src/Programs/QueryServer.antt =====
-- apps/scan_query_server_main.cpp: requests are answered until an exception ends the process. What it
-- prints is left out; the log, the index and the socket change between the rounds.
pub mod Ending
pub mod Endless
use arun_work.Base.{
  ℕ, ◌+◌, ◌-◌, ◌^◌, List, [], ◌∷◌, Option, none, some, Bool, true, false, ◌&&◌, leb, if◌then◌else◌,
  Bytes, codes, Exception, what, Result, ok, err, ◌>>=◌,
}
use arun_work.Base.Int.{pos}
use arun_work.Base.Words.{u64}
use arun_work.Transport.{IZmq}
use arun_work.Transport.Sockets.{IContext, make_replier}
use arun_work.Lidar.Scan.{LidarScan}
use arun_work.Lidar.Replies.{IProtobuf}
use arun_work.Lidar.Log.{IIndex}
use arun_work.Lidar.Log.Reader.{ScanReader}
use arun_work.Lidar.Query.{ScanQueryServer, serve}

pub data Stage : Type 0 where
  serving : Stage
  failed : Exception → Stage

pub record Serving (Db Sock : Type 0) : Type 0 where
  pub stage : Stage
  pub sock : Sock
  pub server : ScanQueryServer Db
  pub last_reported : ℕ

-- What a round of the loop meets: the log, what the index's connection sees, and what has come to the
-- socket since the round before.
pub record Turn (Db Sock : Type 0) : Type 0 where
  pub file : Bytes
  pub db : Db
  pub arrivals : Sock → Sock

-- `ScanQueryServer`'s constructor: the reader is opened, and then the socket is bound.
unfoldable pub open_server :
    {Db Sock : Type 0}
    → IContext Sock
    → (Bytes → Bytes → Result Exception (ScanReader Db))
    → Bytes
    → Bytes
    → Bytes
    → Result Exception (Serving Db Sock)
open_server ctx open_reader log_path db_path endpoint = do
  reader ← open_reader log_path db_path
  sock ← make_replier ctx endpoint
  ok (record {
    stage = serving;
    sock = sock;
    server = record { reader = reader; served_count = 0 };
    last_reported = 0;
  })

module _ {Float Db Sock : Type 0} (protobuf : IProtobuf (LidarScan Float)) (fresh : LidarScan Float)
    (index : IIndex Db) (zmq : IZmq Sock) where
  abbrev pub seen : Turn Db Sock → ScanQueryServer Db → ScanQueryServer Db
  seen t server = record server { reader = record (server.reader) { db = t.db } }

  -- One round of the loop.
  unfoldable pub turn : Turn Db Sock → Serving Db Sock → Serving Db Sock
  turn t s = elim s.stage [
    | failed e ↦ s
    | serving ↦
        let (out, sock, server) =
          serve protobuf fresh index zmq (pos 1000) t.file (t.arrivals s.sock) (seen t s.server) in
        elim out [
          | err e ↦ record s { stage = failed e; sock = sock; server = server }
          | ok served ↦ record s {
            sock = sock;
            server = server;
            last_reported =
                if served && leb 10 (u64 (server.served_count + 2 ^ 64 - s.last_reported))
                then server.served_count
                else s.last_reported;
          }
        ]
  ]

  unfoldable pub turns : List (Turn Db Sock) → Serving Db Sock → Serving Db Sock
  turns [] s = s
  turns (t ∷ ts) s = turns ts (turn t s)

  -- The exit status; `none` while the process runs, and if an exception that is no `std::exception`
  -- ends it.
  unfoldable pub server_status : Stage → Option ℕ
  server_status serving = none
  server_status (failed e) = elim (what e) [ none ↦ none | some message ↦ some 1 ]

  abbrev pub endpoint_of : List Bytes → Bytes
  endpoint_of [] = codes "tcp://*:5560"
  endpoint_of (arg ∷ args) = arg

  -- The arguments are those behind the program's name.
  unfoldable pub server_main :
      IContext Sock
      → (Bytes → Bytes → Result Exception (ScanReader Db))
      → List (Turn Db Sock)
      → List Bytes
      → Option ℕ
  server_main ctx open_reader ts (log_path ∷ db_path ∷ rest) =
      elim (open_server ctx open_reader log_path db_path (endpoint_of rest)) [
        | err e ↦ server_status (failed e)
        | ok s ↦ server_status (turns ts s).stage
      ]
  server_main ctx open_reader ts _ = some 1
