-- ===== src/Redis/Input/Pending.antt =====
-- The refresh of a game: what the output handler has stored is asked again.
use mathlib.Core.List.{filter_map}
use os_serverlist_sync.Base.{
  ℕ, ◌+◌, ◌<◌, List, [], ◌∷◌, ◌++◌, Option, none, some, map, ◌≡◌, refl, sym, ap, ◌∙◌, All, length,
  if◌then◌else◌, ok,
}
use os_serverlist_sync.Base.Bytes.{Bytes, codes, itoa}
use os_serverlist_sync.Base.Int.{pos}
use os_serverlist_sync.Base.Net.{AddrPort}
use os_serverlist_sync.Base.Props.{Props}
use os_serverlist_sync.ListEngine as ListEngine
use os_serverlist_sync.ListEngine.{stamp, run}
use os_serverlist_sync.ListEngine.Session.{at_all, Listed, invoke-session}
use os_serverlist_sync.Monitor.{Monitor, Send}
use os_serverlist_sync.Monitor.Matching.{IsValid}
use os_serverlist_sync.Monitor.Queries.{at4}
use os_serverlist_sync.Redis.{insert_all, Redis}
use os_serverlist_sync.Redis.Input.{Fields, add, queried, invoke}
use os_serverlist_sync.Redis.Input.Refresh.{is_ut, fields_of, check_server-standard}
use os_serverlist_sync.Redis.Input.Scan.{
  Answers, all_members, verdict, sorted, add-sorted, scan_loop-Answers,
}
use os_serverlist_sync.Redis.Output.{OpenSpyRedisOutputHandler, standard}

-- A server in Redis: its key, its address as a number and as text, its port, and what its hash held
-- before.
pub record Stored : Type 0 where
  pub key : Bytes
  pub ip : ℕ
  pub ip_string : Bytes
  pub port : ℕ
  pub before : Props

-- The port for queries.
abbrev pub port_of : Bytes → ℕ → ℕ
port_of gamename port = if is_ut gamename then port + 1 else port

abbrev pub addresses_of : Bytes → List Stored → List (ℕ × ℕ)
addresses_of gamename = map (λ s. (s.ip, port_of gamename s.port))

module _ (R : Redis) (oh : OpenSpyRedisOutputHandler) (parse_addr_port : Bytes → Option AddrPort)
    (gamename : Bytes) (h_mget : Bytes → Option Fields) where
  -- The output handler has written its standard keys, and `netip.ParseAddrPort` reads the address.
  pub record IsStored (s : Stored) : Type 0 where
    pub fields :
        h_mget s.key
        ≡ some (
            fields_of (
              insert_all (standard R oh (record { ip = s.ip_string; port = pos s.port })) s.before))
    pub port_fits : s.port < 9223372036854775807
    pub parses :
        parse_addr_port (s.ip_string ++ (codes ":" ++ itoa (port_of gamename s.port)))
        ≡ some (at4 s.ip (port_of gamename s.port))

  verdict-stored :
      (s : Stored)
      → IsStored s
      → verdict parse_addr_port gamename h_mget s.key ≡ queried (at4 s.ip (port_of gamename s.port))
  verdict-stored s h =
      let read =
        check_server-standard R oh parse_addr_port gamename s.ip_string s.port s.before
          h.port_fits in
      rw (h.fields, read, h.parses) refl

  sorted-stored :
      (ss : List Stored)
      → All IsStored ss
      → sorted parse_addr_port gamename h_mget (map (λ s. s.key) ss)
        ≡ record { items_to_delete = []; addresses = at_all (addresses_of gamename ss) }
  unfolding filter_map
  sorted-stored [] h = refl
  sorted-stored (s ∷ ss) h =
      let ih = sorted-stored ss h.1 in
      sym
        (add-sorted parse_addr_port gamename h_mget s.key (map (λ s. s.key) ss) (h_mget s.key) refl)
      ∙ (rw (verdict-stored s h.0)
          (ap (add s.key (queried (at4 s.ip (port_of gamename s.port)))) ih))

  -- A refresh with a valid monitor: if the scan comes back to the cursor 0, or is broken off by an error,
  -- after fewer answers than there is fuel, and for each of its keys the output handler has written the
  -- standard keys of an IPv4 source whose address `netip.ParseAddrPort` reads, then `Invoke` does not
  -- panic and the monitor stays valid, the running engines are those that ran before, a query is pending
  -- exactly if it was before or its server is in Redis, with one more on the port for the games ut2004
  -- and ut2003, `Query` was called once for each of them that was not pending, in order, and no key is
  -- taken out of Redis.
  pub invoke-stored :
      (z_scan : ℕ → Option (List Bytes × ℕ)) (fuel : ℕ) (answers : List (List Bytes))
      (clock : ℕ → ℕ)
      → (ss : List Stored) (list_engine engine : ℕ) (m : Monitor) → Answers z_scan 0 answers
      → length answers < fuel
      → all_members answers ≡ map (λ s. s.key) ss
      → All IsStored ss
      → IsValid m
      → (m' : Monitor) × (sends : List Send) × (invoke parse_addr_port gamename h_mget z_scan fuel
            clock list_engine engine m
          ≡ ok (m', sends, none))
        × Listed clock engine (addresses_of gamename ss) m m' sends
  unfolding invoke ListEngine.invoke
  invoke-stored z_scan fuel answers clock ss list_engine engine m h enough keys stored v =
      let found =
        scan_loop-Answers parse_addr_port gamename h_mget z_scan 0 fuel answers h enough
        ∙ (ap (sorted parse_addr_port gamename h_mget) keys ∙ sorted-stored ss stored) in
      let addresses = addresses_of gamename ss in
      let (m', sends, e, l) =
        invoke-session (λ conn. ok (at_all addresses)) clock [] addresses list_engine engine m refl
          v in
      (m', sends, rw (found, e) refl, l)
