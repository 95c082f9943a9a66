-- ===== src/ListEngine/Session.antt =====
-- The session of an engine with its master server, and the monitor.
use os_serverlist_sync.Base.{
  ℕ, ◌+◌, ◌||◌, List, [], ◌∷◌, none, some, map, ◌≡◌, refl, ap, ◌∙◌, arith, All, ◌≢◌, Result, ok,
}
use os_serverlist_sync.Base.Conn.{Read}
use os_serverlist_sync.Base.Net.{AddrPort}
use os_serverlist_sync.ListEngine.{stamp, refuse, invoke}
use os_serverlist_sync.ListEngine.Keys.{Server, found, names, news}
use os_serverlist_sync.ListEngine.Run.{run-pending}
use os_serverlist_sync.Monitor.{
  Monitor, Send, begin_server_list_engine, end_loop, end_server_list_engine,
}
use os_serverlist_sync.Monitor.Matching.{IsValid}
use os_serverlist_sync.Monitor.Queries.{at4, pending}

-- IPv4 addresses with ports, and the same with the readings of the clock.
abbrev pub at_all : List (ℕ × ℕ) → List AddrPort
at_all = map (λ a. at4 a.0 a.1)

abbrev pub servers_at : (ℕ → ℕ) → ℕ → List (ℕ × ℕ) → List Server
servers_at clock k [] = []
servers_at clock k ((ip, port) ∷ rest) =
    record { ip = ip; port = port; now = clock k } ∷ servers_at clock (k + 1) rest

found-servers_at :
    (clock : ℕ → ℕ) (k : ℕ) (addresses : List (ℕ × ℕ))
    → found (servers_at clock k addresses) ≡ stamp clock k (at_all addresses)
found-servers_at clock k [] = refl
found-servers_at clock k ((ip, port) ∷ rest) =
    ap (◌∷◌ (at4 ip port, clock k)) (found-servers_at clock (k + 1) rest)

-- Behind `Invoke`, the monitor is valid and has the same engines running, it waits for the servers of the
-- list and what it waited for before, and `Query` was called once for each new one, in order.
pub record Listed (clock : ℕ → ℕ) (engine : ℕ) (addresses : List (ℕ × ℕ)) (m m' : Monitor)
    (sends : List Send) : Type 0 where
  pub valid : IsValid m'
  pub server_engine_list : m'.server_engine_list ≡ m.server_engine_list
  pub waits :
      (engine' ip port : ℕ)
      → pending m' engine' ip port
        ≡ (pending m engine' ip port || names engine engine' ip port (servers_at clock 0 addresses))
  pub calls : sends ≡ news engine (servers_at clock 0 addresses) (pending m engine)

pub invoke-session :
    (session : List Read → Result (List AddrPort)) (clock : ℕ → ℕ) (conn : List Read)
    → (addresses : List (ℕ × ℕ)) (list_engine engine : ℕ) (m : Monitor)
    → session conn ≡ ok (at_all addresses)
    → IsValid m
    → (m' : Monitor) × (sends : List Send) × (invoke session clock (some conn) list_engine engine m
        ≡ ok (m', sends))
      × Listed clock engine addresses m m' sends
unfolding invoke
invoke-session session clock conn addresses list_engine engine m e v =
    let ss = servers_at clock 0 addresses in
    let (m', sends, r, v', same, p, n) = run-pending list_engine engine ss m v in
    (
      m',
      sends,
      rw (e, ← found-servers_at clock 0 addresses) r,
      record { valid = v'; server_engine_list = same; waits = p; calls = n },
    )

pub end_loop-absent : (engine : ℕ) (l : List ℕ) → All (λ e. e ≢ engine) l → end_loop engine l ≡ l
unfolding end_loop
end_loop-absent engine [] h = refl
end_loop-absent engine (e ∷ l) h = ground (arith, h.0, end_loop-absent engine l h.1)

-- An engine that is not running already leaves the monitor as it was where its dial fails, though
-- `EndServerListEngine` is called twice.
pub invoke-refused :
    (session : List Read → Result (List AddrPort)) (clock : ℕ → ℕ) (list_engine engine : ℕ)
    (m : Monitor)
    → All (λ e. e ≢ list_engine) m.server_engine_list
    → invoke session clock none list_engine engine m ≡ ok (m, [])
unfolding invoke refuse begin_server_list_engine end_server_list_engine end_loop
invoke-refused session clock list_engine engine m h =
    let first : end_loop list_engine (list_engine ∷ m.server_engine_list) ≡ m.server_engine_list =
      ground arith in
    let both : end_loop list_engine (end_loop list_engine (list_engine ∷ m.server_engine_list))
        ≡ m.server_engine_list =
      ap (end_loop list_engine) first ∙ end_loop-absent list_engine m.server_engine_list h in
    λ i. ok (record m { server_engine_list = both i }, [])
