-- ===== src/Redis/Input.antt =====
-- src/Engines/OpenSpy/OpenSpyRedisInputHandler.go: the servers that are in Redis are queried again.
-- `z_scan cursor` is the answer to ZSCAN with a cursor, `h_mget key` that to HMGET for the fields
-- `wan_ip`, `wan_port` and `injected` of a key, and `parse_addr_port` is `netip.ParseAddrPort`.
pub mod Scan
pub mod Refresh
pub mod Pending
use os_serverlist_sync.Base.{
  ℕ, zero, suc, ◌+◌, Bool, true, false, not, ◌||◌, List, [], ◌∷◌, ◌++◌, Option, none, some, ◌==◌,
  if◌then◌else◌, Result, ok, ◌>>=◌,
}
use os_serverlist_sync.Base.Atoi.{atoi}
use os_serverlist_sync.Base.Bytes.{Bytes, codes, bytes_eq}
use os_serverlist_sync.Base.Int.{ℤ, pos, negsuc, itoa_int}
use os_serverlist_sync.Base.Net.{AddrPort}
use os_serverlist_sync.ListEngine.{stamp, run}
use os_serverlist_sync.Monitor.{Monitor, Send}

abbrev pub Fields : Type 0
Fields = Option Bytes × Option Bytes × Option Bytes

-- n + 1 on Go's `int`
unfoldable pub succ : ℤ → ℤ
succ (pos n) = if n == 9223372036854775807 then negsuc 9223372036854775807 else pos (n + 1)
succ (negsuc zero) = pos 0
succ (negsuc (suc n)) = negsuc n

-- "lame hack due to the way ut2004 data is stored"
abbrev pub query_port : Bytes → ℤ → ℤ
query_port gamename port =
    if bytes_eq gamename (codes "ut2004") || bytes_eq gamename (codes "ut2003")
    then succ port
    else port

-- What becomes of a key: it is passed over, it goes to `itemsToDelete`, or its address is queried.
pub data Verdict : Type 0 where
  passed stale : Verdict
  queried : AddrPort → Verdict

abbrev pub parsed : Option AddrPort → Verdict
parsed none = passed
parsed (some a) = queried a

unfoldable pub check_server : (Bytes → Option AddrPort) → Bytes → Option Fields → Verdict
check_server parse_addr_port gamename none = passed
check_server parse_addr_port gamename (some (some ip, some port, some injected)) =
    let (wan_port, fine) = atoi port in
    if not fine
    then passed
    else if not (bytes_eq injected (codes "1"))
    then passed
    else parsed (parse_addr_port (ip ++ (codes ":" ++ itoa_int (query_port gamename wan_port))))
check_server parse_addr_port gamename (some _) = stale

-- `itemsToDelete`, and the addresses that go to `BeginQuery`.
pub record Found : Type 0 where
  pub items_to_delete : List Bytes
  pub addresses : List AddrPort

abbrev pub nothing : Found
nothing = record { items_to_delete = []; addresses = [] }

abbrev pub add : Bytes → Verdict → Found → Found
add key passed f = f
add key stale f = record f { items_to_delete = key ∷ f.items_to_delete }
add key (queried a) f = record f { addresses = a ∷ f.addresses }

-- `if err != nil { break }`
abbrev pub unless_error : Option (List Bytes × ℕ) → (List Bytes → ℕ → Found) → Found
unless_error none next = nothing
unless_error (some (keys, cursor)) next = next keys cursor

module _ (parse_addr_port : Bytes → Option AddrPort) (gamename : Bytes)
    (h_mget : Bytes → Option Fields) where
  -- The loop over an answer of ZSCAN, which has a score behind each key; then comes `rest`.
  unfoldable pub keys_loop : List Bytes → Found → Found
  keys_loop [] rest = rest
  keys_loop (key ∷ []) rest = add key (check_server parse_addr_port gamename (h_mget key)) rest
  keys_loop (key ∷ score ∷ keys) rest =
      add key (check_server parse_addr_port gamename (h_mget key)) (keys_loop keys rest)

  -- The loop over the cursors, which ends at an error and at the cursor 0.
  unfoldable pub scan_loop : (ℕ → Option (List Bytes × ℕ)) → ℕ → ℕ → Found
  scan_loop z_scan zero cursor = nothing
  scan_loop z_scan (suc fuel) cursor = unless_error (z_scan cursor) λ keys next.
      let rest = scan_loop z_scan fuel next in keys_loop keys (if next == 0 then nothing else rest)

  -- `Invoke`: the monitor, the calls of `Query`, and the arguments of ZREM if it is sent.
  unfoldable pub invoke :
      (ℕ → Option (List Bytes × ℕ))
      → (fuel : ℕ) → (ℕ → ℕ)
      → (list_engine engine : ℕ) → Monitor
      → Result (Monitor × List Send × Option (List Bytes))
  invoke z_scan fuel clock list_engine engine m =
      let f = scan_loop z_scan fuel 0 in
      run list_engine engine (stamp clock 0 f.addresses) m >>= λ r.
      ok (r.0, r.1, elim f.items_to_delete [ [] ↦ none | _ ∷ _ ↦ some f.items_to_delete ])
