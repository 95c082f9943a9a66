-- ===== src/Goa/Invoke/Pending.antt =====
-- What is pending behind a conversation for a compressed list, whole or broken off.
use os_serverlist_sync.Base.{
  ℕ, Bool, true, false, List, [], ◌∷◌, Option, some, map, ◌≡◌, ◌≢◌, refl, ap, All, length, ok,
}
use os_serverlist_sync.Base.Bytes.{Bytes, bytes_eq}
use os_serverlist_sync.Base.Conn.{Read, got, failed}
use os_serverlist_sync.Base.Net.{AddrPort}
use os_serverlist_sync.Goa.Invoke.{session, breaks_off, ends_early, invoke}
use os_serverlist_sync.Goa.ServerList.{
  ServerListEngineParams, challenge_of, reply_buffer, read_compressed, think,
}
use os_serverlist_sync.Goa.ServerList.Records.{
  Listed, IsListed, listed_bytes, address, list_reads, drop-six, record_address-listed,
  read_compressed-records,
}
use os_serverlist_sync.ListEngine.Session as Session
use os_serverlist_sync.ListEngine.Session.{at_all, invoke-session, end_loop-absent}
use os_serverlist_sync.Monitor.{Monitor, Send, end_loop, end_server_list_engine}
use os_serverlist_sync.Monitor.Matching.{IsValid}

abbrev pub addresses_of : List Listed → List (ℕ × ℕ)
addresses_of = map (λ l. (l.ip, l.port))

at_all-address : (ls : List Listed) → at_all (addresses_of ls) ≡ map address ls
at_all-address [] = refl
at_all-address (l ∷ ls) = ap (◌∷◌ (address l)) (at_all-address ls)

breaks_off-records :
    (buffer : Bytes) (ls : List Listed) (end : List Read)
    → length buffer ≡ 6
    → All IsListed ls
    → breaks_off buffer (list_reads ls end) ≡ false
unfolding breaks_off
breaks_off-records buffer [] end size h = rw (drop-six buffer size) (unfold bytes_eq in refl)
breaks_off-records buffer (l ∷ ls) end size ((_, _, other), h) =
    rw (drop-six buffer size, other) (breaks_off-records (listed_bytes l) ls end refl h)

-- The reads that bring these records, and then one that fails.
abbrev pub broken_reads : List Listed → List Read → List Read
broken_reads [] end = failed ∷ end
broken_reads (l ∷ ls) end = got (listed_bytes l) ∷ broken_reads ls end

read_compressed-broken :
    (buffer : Bytes) (ls : List Listed) (end : List Read)
    → length buffer ≡ 6
    → All IsListed ls
    → read_compressed buffer (broken_reads ls end) ≡ map address ls
unfolding read_compressed
read_compressed-broken buffer [] end size h = refl
read_compressed-broken buffer (l ∷ ls) end size ((ip, port, other), h) =
    rw (drop-six buffer size, other, record_address-listed l ip port)
      (ap (◌∷◌ (address l)) (read_compressed-broken (listed_bytes l) ls end refl h))

breaks_off-broken :
    (buffer : Bytes) (ls : List Listed) (end : List Read)
    → length buffer ≡ 6
    → All IsListed ls
    → breaks_off buffer (broken_reads ls end) ≡ true
unfolding breaks_off
breaks_off-broken buffer [] end size h = refl
breaks_off-broken buffer (l ∷ ls) end size ((_, _, other), h) =
    rw (drop-six buffer size, other) (breaks_off-broken (listed_bytes l) ls end refl h)

-- A second `EndServerListEngine` of an engine that is not running.
end_again :
    {clock : ℕ → ℕ} {engine : ℕ} {addresses : List (ℕ × ℕ)} {m m' : Monitor} {sends : List Send}
    → (list_engine : ℕ) → All (λ e. e ≢ list_engine) m.server_engine_list
    → Session.Listed clock engine addresses m m' sends
    → end_server_list_engine m' list_engine ≡ m'
unfolding end_server_list_engine
end_again {m = m} {m' = m'} list_engine absent l =
    let gone : end_loop list_engine m'.server_engine_list ≡ m'.server_engine_list =
      rw (l.server_engine_list) (end_loop-absent list_engine m.server_engine_list absent) in
    λ i. record m' { server_engine_list = gone i }

module _ (gsmsalg : Bytes → Bytes) (parse_addr_port : Bytes → Option AddrPort)
    (params : ServerListEngineParams) (clock : ℕ → ℕ) (greeting challenge : Bytes)
    (ls : List Listed) (end : List Read) (list_engine engine : ℕ) (m : Monitor) where
  session-compressed :
      (rest : List Read)
      → params.no_compressed_list ≡ false
      → challenge_of params (reply_buffer greeting) ≡ ok (some challenge)
      → read_compressed (0 ∷ 0 ∷ 0 ∷ 0 ∷ 0 ∷ 0 ∷ []) rest ≡ map address ls
      → session gsmsalg parse_addr_port params (got greeting ∷ rest) ≡ ok (at_all (addresses_of ls))
  unfolding session think
  session-compressed rest packed found e = rw (found, packed, e, at_all-address ls) refl

  ends_early-compressed :
      (rest : List Read) (early : Bool)
      → params.no_compressed_list ≡ false
      → challenge_of params (reply_buffer greeting) ≡ ok (some challenge)
      → breaks_off (0 ∷ 0 ∷ 0 ∷ 0 ∷ 0 ∷ 0 ∷ []) rest ≡ early
      → ends_early gsmsalg parse_addr_port params (got greeting ∷ rest) ≡ ok early
  unfolding ends_early think
  ends_early-compressed rest early packed found e = rw (found, packed, e) refl

  -- A conversation with a valid monitor for a compressed list: if the greeting holds a challenge, and the
  -- master server then sends its servers in records of six bytes, each read by one `Read`, with numbers
  -- that fit, none of them the text `\final`, and then `\final`, then `Invoke` does not panic and the
  -- monitor stays valid, the running engines are those that ran before, a query is pending exactly if it
  -- was before or its server is in the list, and `Query` was called once for each server of the list that
  -- was not pending, in order.
  pub invoke-addresses :
      params.no_compressed_list ≡ false
      → challenge_of params (reply_buffer greeting) ≡ ok (some challenge)
      → All IsListed ls
      → IsValid m
      → (m' : Monitor) × (sends : List Send) × (invoke gsmsalg parse_addr_port params clock
            (some (got greeting ∷ list_reads ls end))
            list_engine
            engine
            m
          ≡ ok (m', sends))
        × Session.Listed clock engine (addresses_of ls) m m' sends
  unfolding invoke
  invoke-addresses packed found h valid =
      let rest = list_reads ls end in
      let reads = read_compressed-records _ ls end refl h in
      let early =
        ends_early-compressed rest false packed found (breaks_off-records _ ls end refl h) in
      let (m', sends, e, l) =
        invoke-session (session gsmsalg parse_addr_port params) clock (got greeting ∷ rest)
          (addresses_of ls) list_engine engine m (session-compressed rest packed found reads)
          valid in
      (m', sends, rw (early, e) refl, l)

  -- A connection that breaks off: the same where a `Read` fails behind some of the records, for a list
  -- engine that is not running already, though `EndServerListEngine` is called twice.
  pub invoke-broken :
      params.no_compressed_list ≡ false
      → challenge_of params (reply_buffer greeting) ≡ ok (some challenge)
      → All IsListed ls
      → All (λ e. e ≢ list_engine) m.server_engine_list
      → IsValid m
      → (m' : Monitor) × (sends : List Send) × (invoke gsmsalg parse_addr_port params clock
            (some (got greeting ∷ broken_reads ls end))
            list_engine
            engine
            m
          ≡ ok (m', sends))
        × Session.Listed clock engine (addresses_of ls) m m' sends
  unfolding invoke
  invoke-broken packed found h absent valid =
      let rest = broken_reads ls end in
      let reads = read_compressed-broken _ ls end refl h in
      let early =
        ends_early-compressed rest true packed found (breaks_off-broken _ ls end refl h) in
      let (m', sends, e, l) =
        invoke-session (session gsmsalg parse_addr_port params) clock (got greeting ∷ rest)
          (addresses_of ls) list_engine engine m (session-compressed rest packed found reads)
          valid in
      (m', sends, rw (early, e, end_again list_engine absent l) refl, l)
