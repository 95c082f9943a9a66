-- ===== src/ListEngine.antt =====
-- What all list engines do with an address that they have found:
-- `if monitor.BeginQuery(se, se.queryEngine, addr) { se.queryEngine.Query(addr) }`, in
-- src/Engines/*/*ServerListEngine.go, the two API engines, the text file and the Redis input.
pub mod Keys
pub mod Run
pub mod Session
pub mod Once
use os_serverlist_sync.Base.{
  ℕ, ◌+◌, Bool, List, [], ◌∷◌, Option, none, some, if◌then◌else◌, Result, ok, ◌>>=◌,
}
use os_serverlist_sync.Base.Conn.{Read}
use os_serverlist_sync.Base.Net.{AddrPort}
use os_serverlist_sync.Monitor.{
  Monitor, Send, begin_server_list_engine, end_server_list_engine, begin_query,
}

-- The addresses in the order in which they are found, each with the reading of the clock at its
-- `BeginQuery`; with the calls of `Query`.
unfoldable pub enqueue_all : ℕ → ℕ → List (AddrPort × ℕ) → Monitor → Result (Monitor × List Send)
enqueue_all list_engine engine [] m = ok (m, [])
enqueue_all list_engine engine ((address, now) ∷ rest) m = do
  (m', fresh) ← begin_query m list_engine engine address now
  (m'', sends) ← enqueue_all list_engine engine rest m'
  ok (m'', if fresh then record { engine = engine; address = address } ∷ sends else sends)

-- A `time.Now()` for each `BeginQuery`.
abbrev pub stamp : (ℕ → ℕ) → ℕ → List AddrPort → List (AddrPort × ℕ)
stamp clock k [] = []
stamp clock k (address ∷ rest) = (address, clock k) ∷ stamp clock (k + 1) rest

-- `Invoke` of an engine that finds these addresses and ends, undisturbed: `BeginServerListEngine`,
-- the addresses, and at the end of its context `EndServerListEngine`.
unfoldable pub run : ℕ → ℕ → List (AddrPort × ℕ) → Monitor → Result (Monitor × List Send)
run list_engine engine found m = do
  (m', sends) ← enqueue_all list_engine engine found (begin_server_list_engine m list_engine)
  ok (end_server_list_engine m' list_engine, sends)

-- The same where `net.DialTimeout` fails: the goroutine calls `EndServerListEngine`, and so does the end
-- of the context.
unfoldable pub refuse : ℕ → Monitor → Monitor
refuse list_engine m =
    end_server_list_engine
      (end_server_list_engine (begin_server_list_engine m list_engine) list_engine) list_engine

-- `Invoke` of an engine that dials its master server, with the session of the engine: the addresses that
-- it finds on a connection. There is no connection where the dial fails.
unfoldable pub invoke :
    (List Read → Result (List AddrPort))
    → (ℕ → ℕ)
    → Option (List Read)
    → (list_engine engine : ℕ) → Monitor
    → Result (Monitor × List Send)
invoke session clock none list_engine engine m = ok (refuse list_engine m, [])
invoke session clock (some conn) list_engine engine m = do
  addresses ← session conn
  run list_engine engine (stamp clock 0 addresses) m
