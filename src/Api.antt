-- ===== src/Api.antt =====
-- src/Engines/SAMP/OpenMpApiEngine.go and src/Engines/GameServerListerApi/GameServerListerApiEngine.go:
-- a list of servers in JSON over HTTP. What HTTP and `json.Unmarshal` give is an argument, as are
-- `netip.ParseAddrPort` and `netip.ParseAddr`.
pub mod Run
use mathlib.Core.List.{filter_map}
use mathlib.Core.Option
use os_serverlist_sync.Base.{ℕ, List, [], Option, Result}
use os_serverlist_sync.Base.Bytes.{Bytes}
use os_serverlist_sync.Base.Int.{ℤ, uint16}
use os_serverlist_sync.Base.Net.{Addr, AddrPort}
use os_serverlist_sync.ListEngine.{stamp, run}
use os_serverlist_sync.Monitor.{Monitor, Send}

-- No request, no answer, no body; or the entries. An error of `json.Unmarshal` is not looked at.
pub data Download (E : Type 0) : Type 0 where
  no_request no_answer no_body : Download E
  entries : List E → Download E

-- The loop over the entries, whose errors pass an entry over; none after an error of HTTP.
unfoldable pub entry_addresses : {E : Type 0} → (E → Option AddrPort) → Download E → List AddrPort
entry_addresses parse no_request = []
entry_addresses parse no_answer = []
entry_addresses parse no_body = []
entry_addresses parse (entries es) = filter_map parse es

-- The body of `Invoke` in both engines.
unfoldable pub invoke :
    {E : Type 0}
    → (E → Option AddrPort)
    → (ℕ → ℕ)
    → Download E
    → (list_engine engine : ℕ) → Monitor
    → Result (Monitor × List Send)
invoke parse clock download list_engine engine m =
    run list_engine engine (stamp clock 0 (entry_addresses parse download)) m

-- OpenMpApiEngine.go has the string of `ParseAddrPort`; GameServerListerApiEngine.go has the address
-- and the port apart.
pub record ServerEntry : Type 0 where
  pub ip : Bytes
  pub query_port : ℤ

unfoldable pub entry_address : (Bytes → Option Addr) → ServerEntry → Option AddrPort
entry_address parse_addr entry =
    Option.map (λ a. record { addr = a; port = uint16 entry.query_port }) (parse_addr entry.ip)

abbrev pub open_mp_invoke :
    (Bytes → Option AddrPort)
    → (ℕ → ℕ)
    → Download Bytes
    → (list_engine engine : ℕ) → Monitor
    → Result (Monitor × List Send)
open_mp_invoke parse_addr_port = invoke parse_addr_port

abbrev pub game_server_lister_invoke :
    (Bytes → Option Addr)
    → (ℕ → ℕ)
    → Download ServerEntry
    → (list_engine engine : ℕ) → Monitor
    → Result (Monitor × List Send)
game_server_lister_invoke parse_addr = invoke (entry_address parse_addr)
