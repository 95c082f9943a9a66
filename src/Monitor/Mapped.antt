-- ===== src/Monitor/Mapped.antt =====
-- IPv6 addresses: `BeginQuery` stores the address as it came, and compares with its IPv4 form.
use os_serverlist_sync.Base.{
  ℕ, ◌+◌, ◌&&◌, ◌==◌, Bool, true, false, List, [], ◌∷◌, ◌⊎◌, inl, inr, ◌↔◌, ◌≡◌, refl, arith, any,
  remove_first, ok, panic, length, ◌<◌, >>=-eq-ok, >>=-panic_iff, ok-injective, not_ipv4, ap, ◌∙◌,
}
use os_serverlist_sync.Base.Net.{Addr, invalid, v4, v6, AddrPort, as4, addr_eq, is_mapped}
use os_serverlist_sync.Monitor.{
  QueryItem, Monitor, begin_server_list_engine, end_server_list_engine, is_same_query, begin_query,
  complete_loop, complete_query, all_engines_complete, Send, sweep, complete_all, think,
}
use os_serverlist_sync.Monitor.Matching.{complete_loop-remove_first}
use os_serverlist_sync.Monitor.Queries.{query_list-end_idle}
use os_serverlist_sync.Monitor.Trace.{
  Step, Reach, begin_engine, end_engine, ask, answer, tick, here, next,
}

-- Whether a query of the engine to this IPv6 address and port stands in the list.
abbrev pub stands : (engine bits zone port : ℕ) → List QueryItem → Bool
stands engine bits zone port =
    any (λ c. c.engine == engine && addr_eq c.address.addr (v6 bits zone) && c.address.port == port)

abbrev pub AnyAddress : AddrPort → Type 0
AnyAddress _ = Unit

module _ (of bits zone at : ℕ) where
  abbrev holds_v6 : List QueryItem → Bool
  holds_v6 = stands of bits zone at

  holds_v6-remove_first :
      (engine ip port : ℕ) (l : List QueryItem)
      → holds_v6 l ≡ true
      → holds_v6 (remove_first (is_same_query engine ip port) l) ≡ true
  unfolding is_same_query addr_eq
  holds_v6-remove_first engine ip port [] h = h
  holds_v6-remove_first engine ip port (c ∷ cs) h =
      ground (arith, holds_v6-remove_first engine ip port cs)

  complete_query-holds_v6 :
      (m : Monitor) (engine : ℕ) (a : AddrPort) {m' : Monitor}
      → complete_query m engine a ≡ ok m'
      → holds_v6 m.query_list ≡ true
      → holds_v6 m'.query_list ≡ true
  unfolding complete_query
  complete_query-holds_v6 m engine a h p =
      let (ip, e, r) = >>=-eq-ok (as4 a.addr) _ h in
      let l = complete_loop engine ip a.port m.query_list in
      rw (← ok-injective r) (
        rw (query_list-end_idle, complete_loop-remove_first)
          (holds_v6-remove_first engine ip a.port m.query_list p))

  complete_all-holds_v6 :
      (cs : List QueryItem) (m : Monitor) {m' : Monitor}
      → complete_all cs m ≡ ok m'
      → holds_v6 m.query_list ≡ true
      → holds_v6 m'.query_list ≡ true
  unfolding complete_all
  complete_all-holds_v6 [] m h p = rw (← ok-injective h) p
  complete_all-holds_v6 (c ∷ cs) m h p =
      let (m1, e, r) = >>=-eq-ok (complete_query m c.engine c.address) _ h in
      complete_all-holds_v6 cs m1 r (complete_query-holds_v6 m c.engine c.address e p)

  sweep-holds_v6 :
      (clock : ℕ → ℕ) (k : ℕ) (l : List QueryItem) → holds_v6 (sweep clock k l).items ≡ holds_v6 l
  unfolding sweep
  sweep-holds_v6 clock k [] = refl
  sweep-holds_v6 clock k (c ∷ cs) =
      ground (arith, sweep-holds_v6 clock k cs, sweep-holds_v6 clock (k + 1) cs)

  think-holds_v6 :
      (clock : ℕ → ℕ) (m : Monitor) {m' : Monitor} {sends : List Send}
      → think clock m ≡ ok (m', sends)
      → holds_v6 m.query_list ≡ true
      → holds_v6 m'.query_list ≡ true
  unfolding think
  think-holds_v6 clock m h p =
      let s = sweep clock 1 m.query_list in
      let (m1, e, r) =
        >>=-eq-ok (complete_all s.to_complete (record m { query_list = s.items })) _ h in
      rw (← ap (λ x. x.0) (ok-injective r))
        (complete_all-holds_v6 s.to_complete _ e (sweep-holds_v6 clock 1 m.query_list ∙ p))

  begin_query-holds_v6 :
      (m : Monitor) (list_engine engine : ℕ) (a : AddrPort) (now : ℕ) {m' : Monitor} {fresh : Bool}
      → begin_query m list_engine engine a now ≡ ok (m', fresh)
      → holds_v6 m.query_list ≡ true
      → holds_v6 m'.query_list ≡ true
  unfolding begin_query
  begin_query-holds_v6 m list_engine engine a now h p =
      let (ip, e, r) = >>=-eq-ok (as4 a.addr) _ h in ground arith

  Step-holds_v6 :
      {m m' : Monitor}
      → Step AnyAddress m m'
      → holds_v6 m.query_list ≡ true
      → holds_v6 m'.query_list ≡ true
  Step-holds_v6 (begin_engine m sl) h = unfold begin_server_list_engine in h
  Step-holds_v6 (end_engine m sl) h = unfold end_server_list_engine in h
  Step-holds_v6 (ask {m} {m'} list_engine engine a now fresh _ e) h =
      begin_query-holds_v6 m list_engine engine a now e h
  Step-holds_v6 (answer {m} engine a _ e) h = complete_query-holds_v6 m engine a e h
  Step-holds_v6 (tick {m} clock sends e) h = think-holds_v6 clock m e h

  Reach-holds_v6 :
      {m m' : Monitor}
      → Reach AnyAddress m m'
      → holds_v6 m.query_list ≡ true
      → holds_v6 m'.query_list ≡ true
  Reach-holds_v6 here h = h
  Reach-holds_v6 (next r s) h = Step-holds_v6 s (Reach-holds_v6 r h)

stands-length :
    (engine bits zone port : ℕ) (l : List QueryItem)
    → stands engine bits zone port l ≡ true
    → 0 < length l
stands-length engine bits zone port [] h = cc
stands-length engine bits zone port (c ∷ cs) h = omega arith

never_complete :
    (engine bits zone port : ℕ) (m : Monitor)
    → stands engine bits zone port m.query_list ≡ true
    → all_engines_complete m ≡ false
unfolding all_engines_complete
never_complete engine bits zone port m h =
    ground (arith, stands-length engine bits zone port m.query_list h)

begins_v6 :
    (m : Monitor) (list_engine engine bits zone port now : ℕ) {m' : Monitor}
    → begin_query m list_engine engine (record { addr = v6 bits zone; port = port }) now
      ≡ ok (m', true)
    → stands engine bits zone port m'.query_list ≡ true
unfolding begin_query addr_eq
begins_v6 m list_engine engine bits zone port now h =
    let (ip, e, r) = >>=-eq-ok (as4 (v6 bits zone)) _ h in ground arith

-- Once a query to an IPv6 address has been begun (it must be an IPv4-mapped one, or `BeginQuery`
-- panics), no answer and no `Think` ever takes it off the list: whatever calls of the monitor's methods
-- follow, it still stands there, and the monitor does not report that all is complete.
pub begin_query-mapped_stays :
    (m : Monitor) (list_engine engine bits zone port now : ℕ) {m' m'' : Monitor}
    → begin_query m list_engine engine (record { addr = v6 bits zone; port = port }) now
      ≡ ok (m', true)
    → Reach AnyAddress m' m''
    → (stands engine bits zone port m''.query_list ≡ true) × (all_engines_complete m'' ≡ false)
begin_query-mapped_stays m list_engine engine bits zone port now {m'} {m''} h r =
    let there =
      Reach-holds_v6 engine bits zone port r
        (begins_v6 m list_engine engine bits zone port now h) in
    (there, never_complete engine bits zone port m'' there)

-- No IPv4 address, and no IPv4-mapped one.
abbrev pub IsForeign : Addr → Type 0
IsForeign a =
    (a ≡ invalid) ⊎ ((bits : ℕ) × (zone : ℕ) × (a ≡ v6 bits zone) × (is_mapped bits ≡ false))

as4_panics_iff : (a : Addr) → (as4 a ≡ panic not_ipv4) ↔ IsForeign a
unfolding as4
as4_panics_iff invalid = (λ _. inl refl, λ _. refl)
as4_panics_iff (v4 ip) = ground arith
as4_panics_iff (v6 bits zone) = (λ h. inr (bits, zone, refl, ground arith), λ h. ground arith)

-- `BeginQuery` and `CompleteQuery` panic exactly on an address that is neither IPv4 nor IPv4-mapped.
pub begin_complete_panic_iff :
    (m : Monitor) (list_engine engine : ℕ) (a : AddrPort) (now : ℕ)
    → ((begin_query m list_engine engine a now ≡ panic not_ipv4) ↔ IsForeign a.addr)
      × ((complete_query m engine a ≡ panic not_ipv4) ↔ IsForeign a.addr)
unfolding begin_query complete_query
begin_complete_panic_iff m list_engine engine a now =
    let (to, from) = as4_panics_iff a.addr in
    let (b, b') = >>=-panic_iff (as4 a.addr) _ not_ipv4 in
    let (c, c') = >>=-panic_iff (as4 a.addr) _ not_ipv4 in
    ((λ h. to (b h), λ h. b' (from h)), (λ h. to (c h), λ h. c' (from h)))
