-- ===== src/Goa/Invoke.antt =====
-- src/Engines/GOA/GOA0ServerListEngine.go: `Invoke`, the conversation with the master server together with
-- the monitor. The addresses go to `BeginQuery` in the order in which the conversation finds them, and
-- nothing of it depends on the monitor.
pub mod Pending
use os_serverlist_sync.Base.{
  ℕ, Bool, true, false, List, [], ◌∷◌, ◌++◌, Option, none, some, if◌then◌else◌, take, drop, length,
  Result, ok, ◌>>=◌,
}
use os_serverlist_sync.Base.Bytes.{Bytes, codes, bytes_eq}
use os_serverlist_sync.Base.Conn.{Read, got, eof, failed, is_empty}
use os_serverlist_sync.Base.Net.{AddrPort}
use os_serverlist_sync.Goa.ServerList.{ServerListEngineParams, think}
use os_serverlist_sync.ListEngine as ListEngine
use os_serverlist_sync.Monitor.{Monitor, Send, end_server_list_engine}

unfoldable pub session :
    (Bytes → Bytes)
    → (Bytes → Option AddrPort)
    → ServerListEngineParams
    → List Read
    → Result (List AddrPort)
session gsmsalg parse_addr_port params conn = think gsmsalg parse_addr_port params conn >>= λ found.
    ok (elim found [ none ↦ [] | some written ↦ written.1 ])

-- Whether `ReadCompressedResponse` ends with a failed `Read`, and so calls `EndServerListEngine`.
unfoldable pub breaks_off : Bytes → List Read → Bool
breaks_off buffer [] = false
breaks_off buffer (failed ∷ rest) = true
breaks_off buffer (eof ∷ rest) = false
breaks_off buffer (got input ∷ rest) =
    let buffer' = take 6 input ++ drop (length (take 6 input)) buffer in
    let more = breaks_off buffer' rest in
    if is_empty input then false else if bytes_eq buffer' (codes "\\final") then false else more

-- The same of a whole conversation, of which the first `Read` brings the greeting.
unfoldable pub ends_early :
    (Bytes → Bytes) → (Bytes → Option AddrPort) → ServerListEngineParams → List Read → Result Bool
ends_early gsmsalg parse_addr_port params conn =
    think gsmsalg parse_addr_port params conn >>= λ found. ok (elim found [
      | none ↦ false
      | some _ ↦
          if params.no_compressed_list
          then false
          else breaks_off (0 ∷ 0 ∷ 0 ∷ 0 ∷ 0 ∷ 0 ∷ []) (drop 1 conn)
    ])

-- The end of the context calls `EndServerListEngine` behind the one of `ReadCompressedResponse`.
unfoldable pub invoke :
    (Bytes → Bytes)
    → (Bytes → Option AddrPort)
    → ServerListEngineParams
    → (ℕ → ℕ)
    → Option (List Read)
    → (list_engine engine : ℕ) → Monitor
    → Result (Monitor × List Send)
invoke gsmsalg parse_addr_port params clock dialled list_engine engine m = do
  early ← elim dialled [
    | none ↦ ok false
    | some conn ↦ ends_early gsmsalg parse_addr_port params conn
  ]
  (m', sends) ←
      ListEngine.invoke (session gsmsalg parse_addr_port params) clock dialled list_engine engine m
  ok (if early then end_server_list_engine m' list_engine else m', sends)
