-- ===== src/Listener/Goa.antt =====
-- The listener of the GOA engine, from the datagram to Redis and the monitor.
use os_serverlist_sync.Base.{ℕ, ◌≤◌, List, [], ◌∷◌, some, ◌≡◌, refl, All, length, ok, ◌>>=◌}
use os_serverlist_sync.Listener.{Answer, Step, Packet, datagram, source_of, listen}
use os_serverlist_sync.Listener.Stores.{Responded, listen-responds}
use os_serverlist_sync.Monitor.{Monitor}
use os_serverlist_sync.Monitor.Matching.{IsValid}
use os_serverlist_sync.Redis.{Redis, IsRedis}
use os_serverlist_sync.Redis.Output.{OpenSpyRedisOutputHandler, server_key, get_server_key, inject}
use os_serverlist_sync.Redis.Output.Stores.{AreApart}
use os_serverlist_sync.Base.Bytes.{Bytes}
use os_serverlist_sync.Base.Net.{Addr, UdpAddr, as4, addr_port}
use os_serverlist_sync.Base.Props.{Props}
use os_serverlist_sync.Goa.Query.{listen_step}
use os_serverlist_sync.Goa.Query.Pairs.{IsPair, pairs_bytes, insert_all, listen_step-properties}

-- A round of the loop looks at nothing that an earlier datagram left in the buffer.
abbrev pub round : Step
round buf b addr = listen_step (length buf) b addr >>= λ a. ok (buf, some a)

abbrev pub answer : UdpAddr → List (Bytes × Bytes) → Answer
answer addr ps = record { source = addr; props = insert_all ps []; completed = addr_port addr }

module _ (R : Redis) (law : IsRedis R) (oh : OpenSpyRedisOutputHandler) (ip_string : Addr → Bytes)
    (engine : ℕ) where
  -- An answer of a server to the GOA engine, of any keys and values that hold no backslash, no key
  -- `final` or `queryid`, that fits the receive buffer, from an address with an IPv4 form, to a
  -- valid monitor: the address leads to the server's key in Redis, HSET has written the standard
  -- fields to that, HSET writes the keys and values of the answer, together with the injected keys,
  -- over the fields that the server's custom keys had, which does nothing where there are none to
  -- write or the custom keys hold no hash, the query to the address is not pending any more, and
  -- any other query is as it was; then the listener goes on with the next datagram. (The injected
  -- keys are strings, and the keys in Redis differ.)
  pub listen-properties :
      (buf : Bytes) (ps : List (Bytes × Bytes)) (addr : UdpAddr) (packets : List Packet)
      → (props : Props) (key : Bytes) (ip : ℕ) (m : Monitor) (d d0 : R.Db) → All IsPair ps
      → length (pairs_bytes ps) ≤ length buf
      → get_server_key R oh (source_of R oh ip_string engine addr) d ≡ (server_key key, d0)
      → inject R oh oh.inject_keys (insert_all ps []) ≡ ok props
      → AreApart oh (source_of R oh ip_string engine addr) key
      → as4 addr.ip ≡ ok ip
      → IsValid m
      → (m' : Monitor) × (d' : R.Db) × (listen R oh ip_string engine round
            (datagram (pairs_bytes ps) addr ∷ packets)
            buf
            (m, d)
          ≡ listen R oh ip_string engine round packets buf (m', d'))
        × Responded R law oh ip_string engine (answer addr ps) props key ip m d0 m' d'
  unfolding addr_port
  listen-properties buf ps addr packets props key ip m d d0 pairs fits found injected h is_ip v =
      let read = listen_step-properties (length buf) ps addr pairs fits in
      listen-responds R law oh ip_string engine round (pairs_bytes ps) buf buf addr packets
        (answer addr ps) props key ip m d d0 (rw read refl) found injected h is_ip v
