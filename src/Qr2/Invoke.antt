-- ===== src/Qr2/Invoke.antt =====
-- src/Engines/QR2/SBV2ServerListEngine.go: `Invoke`, the session with the monitor. The addresses go to
-- `BeginQuery` in the order in which the session finds them, and nothing of the session depends on it.
pub mod Pending
use os_serverlist_sync.Base.{
  ℕ, false, List, [], Bool, Option, none, some, if◌then◌else◌, Result, ok, ◌>>=◌,
}
use os_serverlist_sync.Base.Conn.{Read}
use os_serverlist_sync.Base.Net.{AddrPort}
use os_serverlist_sync.ListEngine as ListEngine
use os_serverlist_sync.Monitor.{Monitor, Send, end_server_list_engine}
use os_serverlist_sync.Qr2.ServerList.{write_list_request}
use os_serverlist_sync.Qr2.Stream.{Cipher, ServerListEngineParams, ServerListEngine}

-- The engine behind the dial.
abbrev pub start : (C : Cipher) → List Read → ServerListEngine C.Key
start C conn = record {
  connection = conn;
  enctype_x = none;
  got_fatal_error = false;
  challenge = [];
  sent = [];
  queried = [];
}

unfoldable pub session : (C : Cipher) → ServerListEngineParams → List Read → Result (List AddrPort)
session C params conn = write_list_request C params (start C conn) >>= λ r. ok r.1.queried

-- Whether `writeListRequest` calls `EndServerListEngine`, behind a fatal error.
unfoldable pub ends_early : (C : Cipher) → ServerListEngineParams → List Read → Result Bool
ends_early C params conn =
    write_list_request C params (start C conn) >>= λ r. ok r.1.got_fatal_error

-- The end of the context calls `EndServerListEngine` behind the one of `writeListRequest`.
unfoldable pub invoke :
    (C : Cipher)
    → ServerListEngineParams
    → (ℕ → ℕ)
    → Option (List Read)
    → (list_engine engine : ℕ) → Monitor
    → Result (Monitor × List Send)
invoke C params clock dialled list_engine engine m = do
  early ← elim dialled [ none ↦ ok false | some conn ↦ ends_early C params conn ]
  (m', sends) ← ListEngine.invoke (session C params) clock dialled list_engine engine m
  ok (if early then end_server_list_engine m' list_engine else m', sends)
