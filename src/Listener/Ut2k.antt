-- ===== src/Listener/Ut2k.antt =====
-- The listener of the UT2K engine, from the datagram to Redis and the monitor.
use os_serverlist_sync.Base.{
  ℕ, ◌<◌, ◌^◌, false, List, ◌∷◌, ◌≡◌, refl, ap, ◌∙◌, arith, true, length, ok,
}
use os_serverlist_sync.Base.Int.{pos}
use os_serverlist_sync.Listener.{Packet, datagram, source_of, listen}
use os_serverlist_sync.Listener.Stores.{Responded, listen-responds}
use os_serverlist_sync.Monitor.{Monitor}
use os_serverlist_sync.Monitor.Matching.{IsValid}
use os_serverlist_sync.Redis.{Redis, IsRedis}
use os_serverlist_sync.Redis.Output.{OpenSpyRedisOutputHandler, server_key, get_server_key, inject}
use os_serverlist_sync.Redis.Output.Stores.{AreApart}
use os_serverlist_sync.Base.Bytes.{Bytes}
use os_serverlist_sync.Base.Net.{Addr, UdpAddr, v4, as4}
use os_serverlist_sync.Base.Props.{Props}
use os_serverlist_sync.Monitor.Queries.{at4, pending, same_key}
use os_serverlist_sync.Ut2k.Query.{answer_from, listen_step}
use os_serverlist_sync.Ut2k.Query.Completion.{port_below, completed-answer_from, key_below}
use os_serverlist_sync.Ut2k.Query.Listen.{listen_step-answer}
use os_serverlist_sync.Ut2k.Query.Response.{Info, IsInfo, answer_bytes, info_props}

-- A server at its query port.
abbrev pub at_port : ℕ → ℕ → UdpAddr
at_port ip port = record { ip = v4 ip; port = pos port }

module _ (R : Redis) (law : IsRedis R) (oh : OpenSpyRedisOutputHandler) (ip_string : Addr → Bytes)
    (engine : ℕ) where
  -- An answer of a server to the UT2K engine, of the configured version, shorter than the receive
  -- buffer, with a version and numbers of players of 32 bits and texts that can be read back, from
  -- an IPv4 address, to a valid monitor: the address with the port below leads to the server's key
  -- in Redis, HSET has written the standard fields to that, and what the server told, together with
  -- the injected keys, over the fields that its custom keys had, unless they hold no hash, and the
  -- listener goes on; but the query that was answered is pending as it was, and the one to the port
  -- below is not pending any more. (The injected keys are strings, and the keys in Redis differ.)
  pub listen-answer :
      (version : ℕ) (i : Info) (buf : Bytes) (ip port : ℕ) (packets : List Packet)
      → (props : Props) (key : Bytes) (m : Monitor) (d d0 : R.Db)
      → let a = answer_from (at_port ip port) (info_props version i) in
        version < 2 ^ 32
        → IsInfo i
        → length (answer_bytes version i) < length buf
        → port < 65536
        → get_server_key R oh (source_of R oh ip_string engine a.source) d ≡ (server_key key, d0)
        → inject R oh oh.inject_keys (info_props version i) ≡ ok props
        → AreApart oh (source_of R oh ip_string engine a.source) key
        → IsValid m
        → (m' : Monitor) × (d' : R.Db) × (buf' : Bytes) × (listen R oh ip_string engine
              (listen_step version)
              (datagram (answer_bytes version i) (at_port ip port) ∷ packets)
              buf
              (m, d)
            ≡ listen R oh ip_string engine (listen_step version) packets buf' (m', d'))
          × Responded R law oh ip_string engine a props key ip m d0 m' d'
          × (pending m' engine ip port ≡ pending m engine ip port)
          × (pending m' engine ip (port_below port) ≡ false)
  unfolding answer_from as4
  listen-answer version i buf ip port packets props key m d d0 fits info short port_fits found
        injected h v =
      let a = answer_from (at_port ip port) (info_props version i) in
      let (buf', read) = listen_step-answer version i (at_port ip port) buf fits info short in
      let wrong : a.completed ≡ at4 ip (port_below port) =
        completed-answer_from ip port (info_props version i) port_fits in
      let is_ip : as4 a.completed.addr ≡ ok ip = ap (λ x. as4 x.addr) wrong in
      let (m', d', e, r) =
        listen-responds R law oh ip_string engine (listen_step version) (answer_bytes version i) buf
          buf' (at_port ip port) packets a props key ip m d d0 read found injected h is_ip v in
      let other : same_key engine ip a.completed.port engine ip port ≡ false =
        ap (λ x. same_key engine ip x.port engine ip port) wrong ∙ key_below engine ip port in
      let below : same_key engine ip a.completed.port engine ip (port_below port) ≡ true =
        ap (λ x. same_key engine ip x.port engine ip (port_below port)) wrong ∙ ground arith in
      (
        m',
        d',
        buf',
        e,
        r,
        r.completed engine ip port ∙ rw other refl,
        r.completed engine ip (port_below port) ∙ rw below refl,
      )
