-- ===== src/Listener/Qr2.antt =====
-- The listener of the QR2 engine, from the datagram to Redis and the monitor.
use os_serverlist_sync.Base.{ℕ, ◌≤◌, List, ◌∷◌, ◌++◌, [], ◌≡◌, All, length, ok}
use os_serverlist_sync.Base.Bytes.{Bytes}
use os_serverlist_sync.Base.Net.{Addr, UdpAddr, as4, addr_port}
use os_serverlist_sync.Base.Props.{Props}
use os_serverlist_sync.Listener.{Answer, Packet, datagram, source_of, listen}
use os_serverlist_sync.Listener.Stores.{Responded, listen-responds}
use os_serverlist_sync.Monitor.{Monitor}
use os_serverlist_sync.Monitor.Matching.{IsValid}
use os_serverlist_sync.Qr2.Query.{listen_step}
use os_serverlist_sync.Qr2.Query.Pairs.{IsPair, pairs_bytes, insert_all, listen_step-pairs}
use os_serverlist_sync.Qr2.Query.Total.{received}
use os_serverlist_sync.Redis.{Redis, IsRedis}
use os_serverlist_sync.Redis.Output.{OpenSpyRedisOutputHandler, server_key, get_server_key, inject}
use os_serverlist_sync.Redis.Output.Stores.{AreApart}

abbrev pub answer : UdpAddr → List (Bytes × Bytes) → Answer
answer addr ps = record { source = addr; props = insert_all ps []; completed = addr_port addr }

-- An answer of a server to the QR2 engine, with five bytes in front and any keys and values that
-- hold no NUL, no key empty, that fits the receive buffer, from an address with an IPv4 form, to a
-- valid monitor: the address leads to the server's key in Redis, HSET has written the standard
-- fields to that, HSET writes the keys and values of the answer, together with the injected keys,
-- over the fields that the server's custom keys had, which does nothing where there are none to
-- write or the custom keys hold no hash, the query to the address is not pending any more, and any
-- other query is as it was; then the listener goes on with the next datagram. (The injected keys
-- are strings, and the keys in Redis differ.)
pub listen-pairs :
    (R : Redis) (law : IsRedis R) (oh : OpenSpyRedisOutputHandler) (ip_string : Addr → Bytes)
    (engine : ℕ)
    → (buf head : Bytes) (ps : List (Bytes × Bytes)) (addr : UdpAddr) (packets : List Packet)
    → (props : Props) (key : Bytes) (ip : ℕ) (m : Monitor) (d d0 : R.Db) → length head ≡ 5
    → All IsPair ps
    → length (head ++ pairs_bytes ps) ≤ length buf
    → get_server_key R oh (source_of R oh ip_string engine addr) d ≡ (server_key key, d0)
    → inject R oh oh.inject_keys (insert_all ps []) ≡ ok props
    → AreApart oh (source_of R oh ip_string engine addr) key
    → as4 addr.ip ≡ ok ip
    → IsValid m
    → (m' : Monitor) × (d' : R.Db) × (listen R oh ip_string engine listen_step
          (datagram (head ++ pairs_bytes ps) addr ∷ packets)
          buf
          (m, d)
        ≡ listen R oh ip_string engine listen_step packets
            (received buf (head ++ pairs_bytes ps))
            (m', d'))
      × Responded R law oh ip_string engine (answer addr ps) props key ip m d0 m' d'
unfolding addr_port
listen-pairs R law oh ip_string engine buf head ps addr packets props key ip m d d0 five pairs fits
      found injected h is_ip v =
    listen-responds R law oh ip_string engine listen_step (head ++ pairs_bytes ps) buf _ addr
      packets (answer addr ps) props key ip m d d0
      (listen_step-pairs buf head ps addr five pairs fits) found injected h is_ip v
