-- ===== src/TextFile.antt =====
-- src/Engines/TextFileServerListEngine.go: a file of lines `host:port`. The lines are what the scanner
-- gives, and `resolve` is the lookup of a host name, its first IPv4 address if there is one.
pub mod Lines
pub mod Run
use mathlib.Core.List.{filter_map}
use mathlib.Core.Option
use os_serverlist_sync.Base.{ℕ, ◌+◌, List, Option, take, drop, Result}
use os_serverlist_sync.Base.Atoi.{atoi}
use os_serverlist_sync.Base.Bytes.{Bytes, codes}
use os_serverlist_sync.Base.Int.{uint16}
use os_serverlist_sync.Base.Net.{v4, AddrPort}
use os_serverlist_sync.Base.Text.{index_of}
use os_serverlist_sync.ListEngine.{stamp, run}
use os_serverlist_sync.Monitor.{Monitor, Send}

-- One round of the loop: the address that goes to `BeginQuery`. An error of `Atoi` is not looked at.
unfoldable pub line_address : (Bytes → Option ℕ) → Bytes → Option AddrPort
line_address resolve input = Option.bind (index_of input (codes ":")) λ delim.
    Option.map (λ ip. record { addr = v4 ip; port = uint16 (atoi (drop (delim + 1) input)).0 })
      (resolve (take delim input))

-- The loop.
abbrev pub file_addresses : (Bytes → Option ℕ) → List Bytes → List AddrPort
file_addresses resolve = filter_map (line_address resolve)

-- `Invoke`, where the file opens and is read to its end.
unfoldable pub invoke :
    (Bytes → Option ℕ)
    → (ℕ → ℕ)
    → List Bytes
    → (list_engine engine : ℕ) → Monitor
    → Result (Monitor × List Send)
invoke resolve clock lines list_engine engine m =
    run list_engine engine (stamp clock 0 (file_addresses resolve lines)) m
