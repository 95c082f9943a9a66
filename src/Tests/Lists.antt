-- ===== src/Tests/Lists.antt =====
-- The text file, the API engines, the calls of the monitor and the configuration at concrete inputs.
use os_serverlist_sync.Base.{
  ℕ, false, ◌||◌, List, [], ◌∷◌, map, Option, none, some, ◌↔◌, ◌≡◌, arith, if◌then◌else◌, ok, panic,
  not_ipv4, ◌>>=◌,
}
use os_serverlist_sync.Api.{entries, ServerEntry, game_server_lister_invoke}
use os_serverlist_sync.Api.Run.{NamesForeign, game_server_lister_invoke-panic_iff}
use os_serverlist_sync.Base.Bytes.{Bytes, codes, bytes_eq}
use os_serverlist_sync.Base.Int.{pos}
use os_serverlist_sync.Base.Net.{Addr, v6}
use os_serverlist_sync.Config.{
  Block, EngineConfigurationPlain, switch, ms_cases, query_cases, output_cases, unmarshal,
}
use os_serverlist_sync.Config.Names.{taken, taken_or_none, unmarshal_lem}
use os_serverlist_sync.ListEngine as Lists
use os_serverlist_sync.ListEngine.Session.{invoke-refused}
use os_serverlist_sync.ListEngine.Keys.{Server, names, news}
use os_serverlist_sync.Monitor.{Monitor, Send, init}
use os_serverlist_sync.Monitor.Matching.{IsValid}
use os_serverlist_sync.Monitor.Queries.{at4, pending}
use os_serverlist_sync.Monitor.Refines.{
  Call, begins, asks, answers, ends, run_calls, run_keys, run_calls-refines,
}
use os_serverlist_sync.TextFile.{file_addresses, invoke}
use os_serverlist_sync.TextFile.Lines.{Line, server, unresolved, remark, lines_bytes}
use os_serverlist_sync.TextFile.Run.{invoke-pending}

init-IsValid : IsValid init
init-IsValid = record { has_ip = tt; distinct = tt; attempts = tt }

-- One host is known.
abbrev resolve : Bytes → Option ℕ
resolve host = if bytes_eq host (codes "a.net") then some 0x01020304 else none

abbrev lines : List Line
lines =
    server (codes "a.net") 0x01020304 7778
    ∷ remark (codes "# servers")
    ∷ unresolved (codes "b.net") (codes "7777")
    ∷ []

invoke-pending_example :
    (m : Monitor) × (sends : List Send) × (ss : List Server) × (invoke resolve
        (λ k. k)
        (lines_bytes lines)
        7
        1
        init
      ≡ ok (m, sends))
    × IsValid m
    × (m.server_engine_list ≡ [])
    × (map (λ s. at4 s.ip s.port) ss ≡ file_addresses resolve (lines_bytes lines))
    × ((engine ip port : ℕ)
        → pending m engine ip port ≡ (pending init engine ip port || names 1 engine ip port ss))
    × (sends ≡ news 1 ss (pending init 1))
invoke-pending_example = invoke-pending resolve (λ k. k) (lines_bytes lines) 7 1 init init-IsValid

-- An entry with the address ::1.
abbrev parse_addr : Bytes → Option Addr
parse_addr s = if bytes_eq s (codes "::1") then some (v6 1 0) else none

abbrev entry : ServerEntry
entry = record { ip = codes "::1"; query_port = pos 7778 }

game_server_lister_invoke-panic_iff_example :
    (game_server_lister_invoke parse_addr (λ k. k) (entries (entry ∷ [])) 7 1 init ≡ panic not_ipv4)
    ↔ NamesForeign parse_addr (entry ∷ [])
game_server_lister_invoke-panic_iff_example =
    game_server_lister_invoke-panic_iff parse_addr (λ k. k) (entry ∷ []) 7 1 init

abbrev calls : List Call
calls =
    begins 7
    ∷ asks 7 1 5 7778 0
    ∷ asks 7 1 5 7778 1
    ∷ answers 1 5 7778
    ∷ asks 7 1 5 7778 2
    ∷ ends 7
    ∷ []

run_calls-refines_example :
    (m : Monitor) × (run_calls calls init ≡ ok (m, (run_keys calls (pending init)).1))
    × IsValid m
    × (pending m ≡ (run_keys calls (pending init)).0)
run_calls-refines_example = run_calls-refines calls init init-IsValid

abbrev block : Bytes → Block
block name = record { name = name; is_null = false }

abbrev plain : EngineConfigurationPlain
plain = record {
  ms_engine = block (codes "ut2k");
  query_engine = block (codes "ut2k");
  output_engine = block (codes "OSRedisOutput");
}

unmarshal_lem_example : unmarshal plain ≡ (
    taken (switch (codes "ut2k") ms_cases) false >>= λ list.
    taken (switch (codes "ut2k") query_cases) false >>= λ query.
    taken_or_none (switch (codes "OSRedisOutput") output_cases) false >>= λ output.
    ok (record { query_engine = query; server_list_engine = list; query_output_handler = output }))
unmarshal_lem_example = unmarshal_lem plain

-- Another engine runs, and nothing answers at the master server's address.
invoke-refused_example :
    Lists.invoke (λ conn. ok []) (λ k. k) none 7 1 (record init { server_engine_list = 8 ∷ [] })
    ≡ ok (record init { server_engine_list = 8 ∷ [] }, [])
invoke-refused_example =
    invoke-refused (λ conn. ok []) (λ k. k) 7 1 (record init { server_engine_list = 8 ∷ [] })
      (ground arith, tt)
