-- ===== src/Listener/Samp.antt =====
-- The listener of the SAMP engine, from the datagram to Redis and the monitor.
use os_serverlist_sync.Base.{ℕ, ◌≤◌, List, ◌∷◌, ◌++◌, ◌≡◌, length, ok}
use os_serverlist_sync.Listener.{Answer, Packet, datagram, source_of, listen}
use os_serverlist_sync.Listener.Stores.{Responded, listen-responds}
use os_serverlist_sync.Monitor.{Monitor}
use os_serverlist_sync.Monitor.Matching.{IsValid}
use os_serverlist_sync.Redis.{Redis, IsRedis}
use os_serverlist_sync.Redis.Output.{OpenSpyRedisOutputHandler, server_key, get_server_key, inject}
use os_serverlist_sync.Redis.Output.Stores.{AreApart}
use os_serverlist_sync.Base.Bytes.{Bytes}
use os_serverlist_sync.Base.Net.{Addr, UdpAddr, as4, addr_port}
use os_serverlist_sync.Base.Props.{Props}
use os_serverlist_sync.Samp.Query.{listen_step}
use os_serverlist_sync.Samp.Query.Answers.{
  Info, IsInfo, info_bytes, info_props, magic, received, listen_step-info,
}

abbrev pub answer : UdpAddr → Info → Answer
answer addr i = record { source = addr; props = info_props addr.port i; completed = addr_port addr }

module _ (R : Redis) (law : IsRedis R) (oh : OpenSpyRedisOutputHandler) (ip_string : Addr → Bytes)
    (engine : ℕ) where
  -- An answer of a server to the SAMP engine that fits the receive buffer, with seven bytes behind
  -- the magic ones and lengths and numbers that fit their fields, from an address with an IPv4
  -- form, to a valid monitor: the address leads to the server's key in Redis, HSET has written the
  -- standard fields to that, and what the server told, together with the injected keys, over the
  -- fields that its custom keys had, unless they hold no hash, the query to the address is not
  -- pending any more, and any other query is as it was; then the listener goes on with the next
  -- datagram. (The injected keys are strings, and the keys in Redis differ.)
  pub listen-info :
      (buf echo : Bytes) (i : Info) (addr : UdpAddr) (packets : List Packet)
      → (props : Props) (key : Bytes) (ip : ℕ) (m : Monitor) (d d0 : R.Db) → length echo ≡ 7
      → IsInfo i
      → length (magic (echo ++ info_bytes i)) ≤ length buf
      → get_server_key R oh (source_of R oh ip_string engine addr) d ≡ (server_key key, d0)
      → inject R oh oh.inject_keys (info_props addr.port i) ≡ ok props
      → AreApart oh (source_of R oh ip_string engine addr) key
      → as4 addr.ip ≡ ok ip
      → IsValid m
      → (m' : Monitor) × (d' : R.Db) × (listen R oh ip_string engine listen_step
            (datagram (magic (echo ++ info_bytes i)) addr ∷ packets)
            buf
            (m, d)
          ≡ listen R oh ip_string engine listen_step packets
              (received buf (magic (echo ++ info_bytes i)))
              (m', d'))
        × Responded R law oh ip_string engine (answer addr i) props key ip m d0 m' d'
  unfolding addr_port
  listen-info buf echo i addr packets props key ip m d d0 seven fits size found injected h is_ip v =
      listen-responds R law oh ip_string engine listen_step (magic (echo ++ info_bytes i)) buf _
        addr packets (answer addr i) props key ip m d d0
        (listen_step-info buf echo i addr seven fits size) found injected h is_ip v
