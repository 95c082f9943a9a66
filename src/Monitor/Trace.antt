-- ===== src/Monitor/Trace.antt =====
-- The monitor under any interleaving of its callers: the goroutines of the list engines, the
-- listeners of the query engines and the ticker. One call is one step; the source takes no lock, so
-- two calls that overlap in time are outside of this relation.
use os_serverlist_sync.Base.{ℕ, Bool, List, ◌≡◌, subst, sym, ap, ◌∙◌, arith, ok, ok-injective}
use os_serverlist_sync.Base.Net.{v4, AddrPort}
use os_serverlist_sync.Monitor.{
  Monitor, init, begin_server_list_engine, end_server_list_engine, begin_query, complete_query,
  Send, think,
}
use os_serverlist_sync.Monitor.Matching.{IsValid}
use os_serverlist_sync.Monitor.Queries.{at4, begin_query-IsValid, complete_query-IsValid}
use os_serverlist_sync.Monitor.Abandon.{think_lem}

-- One call, where the addresses that are given to `BeginQuery` and `CompleteQuery` meet `P`.
pub data Step (P : AddrPort → Type 0) : Monitor → Monitor → Type 0 where
  begin_engine : (m : Monitor) (sl : ℕ) → Step P m (begin_server_list_engine m sl)
  end_engine : (m : Monitor) (sl : ℕ) → Step P m (end_server_list_engine m sl)
  ask :
      {m m' : Monitor} (list_engine engine : ℕ) (address : AddrPort) (now : ℕ) (fresh : Bool)
      → P address
      → begin_query m list_engine engine address now ≡ ok (m', fresh)
      → Step P m m'
  answer :
      {m m' : Monitor} (engine : ℕ) (address : AddrPort)
      → P address
      → complete_query m engine address ≡ ok m'
      → Step P m m'
  tick :
      {m m' : Monitor} (clock : ℕ → ℕ) (sends : List Send)
      → think clock m ≡ ok (m', sends)
      → Step P m m'

pub data Reach (P : AddrPort → Type 0) (m : Monitor) : Monitor → Type 0 where
  here : Reach P m m
  next : {m' m'' : Monitor} → Reach P m m' → Step P m' m'' → Reach P m m''

abbrev pub IsIpv4 : AddrPort → Type 0
IsIpv4 a = (ip : ℕ) × (a.addr ≡ v4 ip)

at4-eta : (a : AddrPort) (ip : ℕ) → a.addr ≡ v4 ip → a ≡ at4 ip a.port
at4-eta a ip e = ground arith

pub Step-IsValid : {m m' : Monitor} → Step IsIpv4 m m' → IsValid m → IsValid m'
Step-IsValid (begin_engine m sl) v =
    unfold begin_server_list_engine in
    record { has_ip = v.has_ip; distinct = v.distinct; attempts = v.attempts }
Step-IsValid (end_engine m sl) v =
    unfold end_server_list_engine in
    record { has_ip = v.has_ip; distinct = v.distinct; attempts = v.attempts }
Step-IsValid (ask {m} list_engine engine a now fresh (ip, e) h) v =
    begin_query-IsValid m list_engine engine ip a.port now v (rw (at4-eta a ip e) at h)
Step-IsValid (answer {m} engine a (ip, e) h) v =
    complete_query-IsValid m engine ip a.port v (rw (at4-eta a ip e) at h)
Step-IsValid (tick {m} clock sends h) v =
    let (m1, e1, left, v1) = think_lem clock m v in
    subst IsValid (ap (λ x. x.0) (ok-injective (sym e1 ∙ h))) v1

-- After any calls in any order from `Init` on, if all addresses given to `BeginQuery` and
-- `CompleteQuery` are IPv4: no two pending queries are
-- for one server and query engine, and each has been sent one to six times.
pub Reach-IsValid : {m : Monitor} → Reach IsIpv4 init m → IsValid m
Reach-IsValid here = record { has_ip = tt; distinct = tt; attempts = tt }
Reach-IsValid (next r s) = Step-IsValid s (Reach-IsValid r)
