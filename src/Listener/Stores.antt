-- ===== src/Listener/Stores.antt =====
-- An answer is stored, and its query completed.
use os_serverlist_sync.Base.{ℕ, false, List, ◌∷◌, some, ◌≡◌, refl, ◌∙◌, if◌then◌else◌, ok}
use os_serverlist_sync.Base.Bytes.{Bytes}
use os_serverlist_sync.Base.Net.{Addr, UdpAddr, AddrPort, as4}
use os_serverlist_sync.Base.Props.{Props}
use os_serverlist_sync.Listener.{Step, Packet, datagram, listen, Answer, source_of, respond}
use os_serverlist_sync.Monitor.{Monitor, complete_query}
use os_serverlist_sync.Monitor.Matching.{IsValid}
use os_serverlist_sync.Monitor.Queries.{at4, pending, same_key, pending-complete_query}
use os_serverlist_sync.Monitor.Trace.{Step-IsValid, answer}
use os_serverlist_sync.Redis.{text, after_h_set, Redis, IsRedis}
use os_serverlist_sync.Redis.Output.{
  OpenSpyRedisOutputHandler, Source, ipmap_name, custkeys_name, server_key, get_server_key, inject,
  standard,
}
use os_serverlist_sync.Redis.Output.Stores.{AreApart, on_server_info_response-writes}

-- `CompleteQuery` of any address that has an IPv4 form.
pub pending-complete_any :
    (m : Monitor) (engine : ℕ) (a : AddrPort) (ip : ℕ)
    → as4 a.addr ≡ ok ip
    → IsValid m
    → (m' : Monitor) × (complete_query m engine a ≡ ok m')
      × IsValid m'
      × ((engine' ip' port' : ℕ)
          → pending m' engine' ip' port' ≡ (
              if same_key engine ip a.port engine' ip' port'
              then false
              else pending m engine' ip' port'))
pending-complete_any m engine a ip e v =
    let (m', c, p) = pending-complete_query m engine ip a.port v in
    let same : complete_query m engine a ≡ complete_query m engine (at4 ip a.port) =
      unfold complete_query as4 in (rw e refl) in
    (m', same ∙ c, Step-IsValid (answer engine (at4 ip a.port) (ip, refl) c) v, p)

module _ (R : Redis) (law : IsRedis R) (oh : OpenSpyRedisOutputHandler) (ip_string : Addr → Bytes)
    (engine : ℕ) where
  abbrev Src : Answer → Source
  Src a = source_of R oh ip_string engine a.source

  -- What an answer leaves: the server is found in Redis under its address, its properties are those of
  -- the answer with the injected ones, and only its query is not pending any more.
  pub record Responded (a : Answer) (props : Props) (key : Bytes) (ip : ℕ) (m : Monitor) (d : R.Db)
      (m' : Monitor) (d' : R.Db) : Type 0 where
    pub valid : IsValid m'
    pub completed :
        (engine' ip' port' : ℕ)
        → pending m' engine' ip' port' ≡ (
            if same_key engine ip a.completed.port engine' ip' port'
            then false
            else pending m engine' ip' port')
    pub found : law.value (ipmap_name (Src a)) d' ≡ some (text key)
    pub standard_keys : law.value key d' ≡ after_h_set (standard R oh (Src a)) (law.value key d)
    pub custom_keys :
        law.value (custkeys_name key) d' ≡ after_h_set props (law.value (custkeys_name key) d)

  pub respond-stores :
      (a : Answer) (props : Props) (key : Bytes) (ip : ℕ) (m : Monitor) (d d0 : R.Db)
      → get_server_key R oh (Src a) d ≡ (server_key key, d0)
      → inject R oh oh.inject_keys a.props ≡ ok props
      → AreApart oh (Src a) key
      → as4 a.completed.addr ≡ ok ip
      → IsValid m
      → (m' : Monitor) × (d' : R.Db) × (respond R oh ip_string engine a (m, d) ≡ ok (some (m', d')))
        × Responded a props key ip m d0 m' d'
  unfolding respond
  respond-stores a props key ip m d d0 found injected h is_ip v =
      let (m', e, v', p) = pending-complete_any m engine a.completed ip is_ip v in
      let (d', s, own, cust, name, _, _, _, _, _) =
        on_server_info_response-writes R law oh (Src a) a.props props key d d0 found injected h in
      (
        m',
        d',
        rw (s, e) refl,
        record { valid = v'; completed = p; found = name; standard_keys = own; custom_keys = cust },
      )

  -- A datagram with an answer, with more to come.
  pub listen-responds :
      (step : Step) (b buf buf' : Bytes) (u : UdpAddr) (packets : List Packet) (a : Answer)
      → (props : Props) (key : Bytes) (ip : ℕ) (m : Monitor) (d d0 : R.Db)
      → step buf b u ≡ ok (buf', some a)
      → get_server_key R oh (Src a) d ≡ (server_key key, d0)
      → inject R oh oh.inject_keys a.props ≡ ok props
      → AreApart oh (Src a) key
      → as4 a.completed.addr ≡ ok ip
      → IsValid m
      → (m' : Monitor) × (d' : R.Db) × (listen R oh ip_string engine step
            (datagram b u ∷ packets)
            buf
            (m, d)
          ≡ listen R oh ip_string engine step packets buf' (m', d'))
        × Responded a props key ip m d0 m' d'
  unfolding listen
  listen-responds step b buf buf' u packets a props key ip m d d0 answers found injected h is_ip v =
      let (m', d', e, r) = respond-stores a props key ip m d d0 found injected h is_ip v in
      (m', d', rw (answers, e) refl, r)
