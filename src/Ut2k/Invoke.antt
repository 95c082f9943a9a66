-- ===== src/Ut2k/Invoke.antt =====
-- src/Engines/UT2K/UTMSServerListEngine.go: `Invoke`, the conversation with the master server together
-- with the monitor. The addresses go to `BeginQuery` in the order in which the conversation finds them,
-- and nothing of it depends on the monitor. The engine ends at the monitor once, with its context.
pub mod Pending
use os_serverlist_sync.Base.{ℕ, false, List, [], Option, Result, ok, ◌>>=◌}
use os_serverlist_sync.Base.Bytes.{Bytes}
use os_serverlist_sync.Base.Conn.{Read}
use os_serverlist_sync.Base.Net.{AddrPort}
use os_serverlist_sync.ListEngine as ListEngine
use os_serverlist_sync.Monitor.{Monitor, Send}
use os_serverlist_sync.Ut2k.MasterServer.{
  UtmsServerListEngineParams, UtmsServerListEngine, read_message,
}

-- The engine behind the dial.
abbrev pub start : List Read → UtmsServerListEngine
start conn = record {
  buffer = [];
  current_offset = 0;
  got_fatal_error = false;
  challenge = [];
  connection = conn;
  sent = [];
  queried = [];
}

unfoldable pub session :
    (Bytes → Bytes) → UtmsServerListEngineParams → List Read → Result (List AddrPort)
session md5_hex params conn = read_message md5_hex params (start conn) >>= λ se. ok se.queried

abbrev pub invoke :
    (Bytes → Bytes)
    → UtmsServerListEngineParams
    → (ℕ → ℕ)
    → Option (List Read)
    → (list_engine engine : ℕ) → Monitor
    → Result (Monitor × List Send)
invoke md5_hex params = ListEngine.invoke (session md5_hex params)
