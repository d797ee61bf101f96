-- ===== src/Service/Watchdog.antt =====
-- apps/scan_publisher_recorder_main.cpp: when the watchdog gives a connection up, and how the service
-- goes on.
use arun_work.Base.{ℕ, ◌+◌, ◌≡◌, none, some, true, false, Bytes, Exception, what, ok, err}
use arun_work.Base.Words.{u64}
use arun_work.Service.{
  Service, Answer, returned, polling, reconnecting, threshold, connect_with_stop_check,
}

module _ {Float : Type 0} where
  -- An iteration whose poll times out.
  abbrev pub IsSilent : Answer Float → Type 0
  IsSilent a = (a.sigint ≡ false) × (a.scan ≡ none)

  -- An attempt to connect that fails with a standard exception, and one that succeeds.
  abbrev pub IsRefusal : Answer Float → Type 0
  IsRefusal a =
      (a.sigint ≡ false)
      × ((e : Exception) × (message : Bytes) × (connect_with_stop_check false a.checks
            ≡ (returned (err e), false))
          × (what e ≡ some message))

  abbrev pub IsSuccess : Answer Float → Type 0
  IsSuccess a =
      (a.sigint ≡ false) × (connect_with_stop_check false a.checks ≡ (returned (ok tt), false))

module _ {Float Db Sock : Type 0} where
  -- The service while it polls, and while it has no source.
  abbrev quiet : ℕ → Service Float Db Sock → Service Float Db Sock
  quiet timeouts s = record s {
    phase = polling;
    stop_requested = false;
    consecutive_timeouts = timeouts;
  }

  abbrev detached : Service Float Db Sock → Service Float Db Sock
  detached s = record s {
    phase = reconnecting;
    stop_requested = false;
    connected = false;
    consecutive_timeouts = threshold s;
  }

  -- The service behind a reconnection.
  abbrev pub revived : Service Float Db Sock → Service Float Db Sock
  revived s = record s {
    phase = polling;
    stop_requested = false;
    connected = true;
    reconnects = u64 (s.reconnects + 1);
    consecutive_timeouts = 0;
  }
