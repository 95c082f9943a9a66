-- ===== src/Monitor.antt =====
-- src/Engine/SyncStatusMonitor.go: which server-list engines are still running, and which queries
-- wait for an answer. The interface values `IServerListEngine` and `IQueryEngine` are compared by
-- identity only, so they are numbers here. The monitor is passed by value, but its two lists are
-- pointers, so all copies share one state: the record below. Times are in nanoseconds.
pub mod Matching
pub mod Queries
pub mod Engines
pub mod Abandon
pub mod Rounds
pub mod Trace
pub mod Mapped
pub mod Refines
use os_serverlist_sync.Base.{
  ℕ, ◌+◌, ◌-◌, ◌*◌, Bool, true, false, ◌&&◌, List, [], ◌∷◌, Option, none, some, ltb, ◌==◌,
  if◌then◌else◌, length, any, Result, ok, ◌>>=◌,
}
use os_serverlist_sync.Base.Net.{v4, AddrPort, as4, addr_eq}

pub record QueryItem : Type 0 where
  pub address : AddrPort
  pub engine : ℕ
  pub list_engine : ℕ
  pub last_performed : ℕ
  pub num_attempts : ℕ

abbrev pub max_attempts : ℕ
max_attempts = 5

abbrev pub retry_seconds : ℕ
retry_seconds = 30

-- time.Duration(RETRY_SECONDS) * time.Second
abbrev pub max_wait : ℕ
max_wait = retry_seconds * 1_000_000_000

pub record Monitor : Type 0 where
  pub server_engine_list : List ℕ
  pub query_list : List QueryItem

abbrev pub init : Monitor
init = record { server_engine_list = []; query_list = [] }

unfoldable pub begin_server_list_engine : Monitor → ℕ → Monitor
begin_server_list_engine m engine = record m { server_engine_list = engine ∷ m.server_engine_list }

-- `list.Remove` clears the links of the element, so `element.Next()` is nil behind it and the loop
-- ends: it removes the first element that fits.
unfoldable pub end_loop : ℕ → List ℕ → List ℕ
end_loop engine [] = []
end_loop engine (c ∷ rest) = if c == engine then rest else c ∷ end_loop engine rest

unfoldable pub end_server_list_engine : Monitor → ℕ → Monitor
end_server_list_engine m engine = record m {
  server_engine_list = end_loop engine m.server_engine_list;
}

unfoldable pub engine_has_pending_queries : Monitor → ℕ → Bool
engine_has_pending_queries m list_engine = any (λ c. c.list_engine == list_engine) m.query_list

-- The test of both loops: `c.engine == engine`, `c.address.Addr().Compare(ip4Addr) == 0` and
-- `c.address.Port() == address.Port()`.
unfoldable pub is_same_query : ℕ → ℕ → ℕ → QueryItem → Bool
is_same_query engine ip port c =
    c.engine == engine && addr_eq c.address.addr (v4 ip) && c.address.port == port

-- `now` is the reading of `time.Now()`.
unfoldable pub begin_query : Monitor → ℕ → ℕ → AddrPort → ℕ → Result (Monitor × Bool)
begin_query m list_engine engine address now = do
  ip ← as4 address.addr
  ok (
      if any (is_same_query engine ip address.port) m.query_list then (m, false) else (
        record m {
          query_list =
              record {
                address = address;
                engine = engine;
                list_engine = list_engine;
                last_performed = now;
                num_attempts = 1;
              }
              ∷ m.query_list;
        },
        true,
      ))

-- The loop of `CompleteQuery`: `slEngine`, and the list without the first item that fits.
unfoldable pub complete_loop : ℕ → ℕ → ℕ → List QueryItem → Option ℕ × List QueryItem
complete_loop engine ip port [] = (none, [])
complete_loop engine ip port (c ∷ rest) =
    let (found, rest') = complete_loop engine ip port rest in
    if is_same_query engine ip port c then (some c.list_engine, rest) else (found, c ∷ rest')

-- `if slEngine != nil { if !m.engineHasPendingQueries(slEngine) { m.EndServerListEngine(slEngine) } }`
unfoldable pub end_idle : Option ℕ → Monitor → Monitor
unfolding engine_has_pending_queries end_server_list_engine
end_idle none m = m
end_idle (some sl) m = if engine_has_pending_queries m sl then m else end_server_list_engine m sl

unfoldable pub complete_query : Monitor → ℕ → AddrPort → Result Monitor
unfolding end_idle
complete_query m engine address = do
  ip ← as4 address.addr
  let (sl_engine, rest) = complete_loop engine ip address.port m.query_list
  ok (end_idle sl_engine (record m { query_list = rest }))

unfoldable pub all_engines_complete : Monitor → Bool
all_engines_complete m = length m.server_engine_list == 0 && length m.query_list == 0

-- A call `c.engine.Query(c.address)`.
pub record Send : Type 0 where
  pub engine : ℕ
  pub address : AddrPort

-- What the first loop of `Think` leaves: the items, in place, the calls it made, and `toComplete`.
pub record Sweep : Type 0 where
  pub items : List QueryItem
  pub sends : List Send
  pub to_complete : List QueryItem

-- The first loop. `clock k` is what the k-th `time.Now()` of this `Think` returns; `now` is the
-- first. A negative difference of times is not above the limit, and neither is a truncated one.
unfoldable pub sweep : (ℕ → ℕ) → ℕ → List QueryItem → Sweep
sweep clock k [] = record { items = []; sends = []; to_complete = [] }
sweep clock k (c ∷ cs) =
    let late = sweep clock (k + 1) cs in
    let rest = sweep clock k cs in
    if ltb max_attempts c.num_attempts
    then record rest { items = c ∷ rest.items; to_complete = c ∷ rest.to_complete }
    else if ltb max_wait (clock 0 - c.last_performed)
    then record late {
      items = record c { last_performed = clock k; num_attempts = c.num_attempts + 1 } ∷ late.items;
      sends = record { engine = c.engine; address = c.address } ∷ late.sends;
    }
    else record rest { items = c ∷ rest.items }

-- The second loop: `for _, c := range toComplete { m.CompleteQuery(c.engine, c.address) }`.
unfoldable pub complete_all : List QueryItem → Monitor → Result Monitor
complete_all [] m = ok m
complete_all (c ∷ cs) m = do m' ← complete_query m c.engine c.address; complete_all cs m'

unfoldable pub think : (ℕ → ℕ) → Monitor → Result (Monitor × List Send)
think clock m = do
  let s = sweep clock 1 m.query_list
  m' ← complete_all s.to_complete (record m { query_list = s.items })
  ok (m', s.sends)
