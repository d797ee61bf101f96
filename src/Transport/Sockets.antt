-- ===== src/Transport/Sockets.antt =====
-- src/transport.cpp: how the four kinds of sockets are made. ZeroMQ's context, which makes sockets and
-- sets them up, is a parameter; each of its calls may throw, and a socket that is half set up is then
-- closed.
use arun_work.Base.{Bytes, Exception, Result, ok, ◌>>=◌}
use arun_work.Base.Int.{ℤ, pos}
use arun_work.Transport.{Publisher}

-- `zmq::socket_type`, as far as it is used.
pub data SocketType : Type 0 where
  pub_socket sub_socket req_socket rep_socket : SocketType

-- `zmq::sockopt`, as far as it is used.
pub data SockOpt : Type 0 where
  sndhwm rcvhwm linger : ℤ → SockOpt
  subscribe unsubscribe : Bytes → SockOpt

pub record IContext (Sock : Type 0) : Type 0 where
  pub socket : SocketType → Result Exception Sock
  pub set : SockOpt → Sock → Result Exception Sock
  pub bind : Bytes → Sock → Result Exception Sock
  pub connect : Bytes → Sock → Result Exception Sock

-- `kHighWaterMark` and `kLingerMs`
abbrev pub high_water_mark : ℤ
high_water_mark = pos 1000

abbrev pub linger_ms : ℤ
linger_ms = pos 0

module _ {Sock : Type 0} (ctx : IContext Sock) where
  open ctx use {socket, set, bind, connect}

  unfoldable pub make_publisher : Bytes → Result Exception (Publisher Sock)
  make_publisher endpoint = do
    sock ← socket pub_socket
    sock ← set (sndhwm high_water_mark) sock
    sock ← set (linger linger_ms) sock
    sock ← bind endpoint sock
    ok (record { sock = sock; dropped = 0 })

  unfoldable pub make_subscriber : Bytes → Result Exception Sock
  make_subscriber endpoint = do
    sock ← socket sub_socket
    sock ← set (rcvhwm high_water_mark) sock
    sock ← set (linger linger_ms) sock
    connect endpoint sock

  -- `Subscriber::subscribe` and `unsubscribe`
  unfoldable pub add_prefix : Bytes → Sock → Result Exception Sock
  add_prefix prefix sock = set (subscribe prefix) sock

  unfoldable pub remove_prefix : Bytes → Sock → Result Exception Sock
  remove_prefix prefix sock = set (unsubscribe prefix) sock

  unfoldable pub make_req_socket : Bytes → Result Exception Sock
  make_req_socket endpoint = do
    sock ← socket req_socket
    sock ← set (linger linger_ms) sock
    connect endpoint sock

  unfoldable pub make_replier : Bytes → Result Exception Sock
  make_replier endpoint = do
    sock ← socket rep_socket
    sock ← set (linger linger_ms) sock
    bind endpoint sock
