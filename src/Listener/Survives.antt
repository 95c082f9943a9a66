-- ===== src/Listener/Survives.antt =====
-- The listener of the QR2 engine against any datagrams.
use os_serverlist_sync.Base.{
  ℕ, ◌<◌, true, false, List, ◌∷◌, [], some, inl, inr, ◌≡◌, ◌≢◌, ◌==◌, refl, arith, All, length, ok,
  Bool-cases, take, length-take, length-overlay,
}
use os_serverlist_sync.Base.Bytes.{Bytes, codes}
use os_serverlist_sync.Base.Net.{Addr, as4, addr_port}
use os_serverlist_sync.Base.Props.{Props}
use os_serverlist_sync.Listener.{Answer, Packet, failed, datagram, source_of, respond, listen}
use os_serverlist_sync.Listener.Stores.{pending-complete_any}
use os_serverlist_sync.Monitor.{Monitor}
use os_serverlist_sync.Monitor.Matching.{IsValid}
use os_serverlist_sync.Monitor.Queries.{pending}
use os_serverlist_sync.Qr2.Query.{listen_step}
use os_serverlist_sync.Qr2.Query.Total.{received, listen_step-total}
use os_serverlist_sync.Redis.{Redis}
use os_serverlist_sync.Redis.Output.{
  OpenSpyRedisOutputHandler, not_set, Source, ServerKey, fatal, not_injected, server_key,
  get_server_key, standard, ipmap_name, answered, store_rest, store, on_server_info_response,
  or_zero,
}

-- Every datagram comes from an address with an IPv4 form.
abbrev pub HasIpv4 : Packet → Type 0
HasIpv4 failed = Unit
HasIpv4 (datagram b u) = (ip : ℕ) × (as4 u.ip ≡ ok ip)

length-received : (buf b : Bytes) → length (received buf b) ≡ length buf
length-received buf b =
    length-overlay (take (length buf) b) buf (omega (arith, length-take (length buf) b))

module _ (R : Redis) (oh : OpenSpyRedisOutputHandler) (ip_string : Addr → Bytes) (engine : ℕ)
    (plain : oh.inject_keys ≡ not_set)
    (counts : (k : Bytes) (d : R.Db) → (n : ℕ) × ((R.incr k d).0 ≡ some n)) where
  store-returns :
      (source : Source) (props : Props) (key : Bytes) (d : R.Db)
      → (d' : R.Db) × (store R oh source props key d ≡ ok d')
  unfolding store
  store-returns source props key d =
      (store_rest R oh source key props (R.h_set key (standard R oh source) d), rw plain refl)

  answered-returns :
      (source : Source) (props : Props) (k : ServerKey) (d : R.Db)
      → k ≢ fatal
      → (d' : R.Db) × (answered R oh source props (k, d) ≡ ok (some d'))
  answered-returns source props fatal d h = absurd (h refl)
  answered-returns source props not_injected d h = (d, refl)
  answered-returns source props (server_key key) d h =
      let (d', e) = store-returns source props key d in (d', rw e refl)

  get_server_key-known : (source : Source) (d : R.Db) → (get_server_key R oh source d).0 ≢ fatal
  unfolding get_server_key
  get_server_key-known source d =
      let (n, e) = counts (codes "QRID") d in
      elim (Bool-cases (or_zero 0 (R.exists (ipmap_name source) d) == 0)) [
        | inl new ↦ rw (new, e) (λ h. cc)
        | inr old ↦
            elim (Bool-cases (
              or_zero false
                (R.h_exists (or_zero [] (R.get (ipmap_name source) d)) (codes "injected") d))) [
                  | inl own ↦ rw (old, own) (λ h. cc)
                  | inr other ↦ rw (old, other) (λ h. cc)
                ]
      ]

  on_server_info_response-returns :
      (source : Source) (props : Props) (d : R.Db)
      → (d' : R.Db) × (on_server_info_response R oh source props d ≡ ok (some d'))
  unfolding on_server_info_response
  on_server_info_response-returns source props d =
      answered-returns source props (get_server_key R oh source d).0
        (get_server_key R oh source d).1 (get_server_key-known source d)

  -- The monitor holds no query that it did not hold before.
  abbrev Fewer : Monitor → Monitor → Type 0
  Fewer m m' = (e ip port : ℕ) → pending m' e ip port ≡ true → pending m e ip port ≡ true

  respond-returns :
      (a : Answer) (ip : ℕ) (m : Monitor) (d : R.Db)
      → as4 a.completed.addr ≡ ok ip
      → IsValid m
      → (m' : Monitor) × (d' : R.Db) × (respond R oh ip_string engine a (m, d) ≡ ok (some (m', d')))
        × IsValid m'
        × Fewer m m'
  unfolding respond
  respond-returns a ip m d is_ip v =
      let (m', e, v', p) = pending-complete_any m engine a.completed ip is_ip v in
      let (d', s) =
        on_server_info_response-returns (source_of R oh ip_string engine a.source) a.props d in
      (m', d', rw (s, e) refl, v', λ e i q h. ground (arith, p e i q, h))

  -- Whatever datagrams come, from addresses with an IPv4 form and of any size and content, the QR2 engine
  -- with a buffer of six bytes or more does not panic or exit, the monitor stays valid and waits for
  -- no query that it did not wait for before; if nothing is injected and INCR does not fail.
  pub listen-survives :
      (packets : List Packet) (buf : Bytes) (m : Monitor) (d : R.Db)
      → All HasIpv4 packets
      → 5 < length buf
      → IsValid m
      → (m' : Monitor) × (d' : R.Db) × (listen R oh ip_string engine listen_step packets buf (m, d)
          ≡ ok (some (m', d')))
        × IsValid m'
        × ((e ip port : ℕ) → pending m' e ip port ≡ true → pending m e ip port ≡ true)
  unfolding listen addr_port
  listen-survives [] buf m d h size v = (m, d, refl, v, λ e i p x. x)
  listen-survives (failed ∷ packets) buf m d h size v = (m, d, refl, v, λ e i p x. x)
  listen-survives (datagram b u ∷ packets) buf m d ((ip, is_ip), h) size v =
      let size' : 5 < length (received buf b) = omega (arith, size, length-received buf b) in
      elim (listen_step-total buf b u size) [
        | inl (_, skipped) ↦
            let (m', d', e, v', p) = listen-survives packets (received buf b) m d h size' v in
            (m', d', rw skipped e, v', p)
        | inr (_, props, read) ↦
            let a : Answer = record { source = u; props = props; completed = addr_port u } in
            let (m1, d1, e1, v1, p1) = respond-returns a ip m d is_ip v in
            let (m', d', e, v', p) = listen-survives packets (received buf b) m1 d1 h size' v1 in
            (m', d', rw (read, e1) e, v', λ e i q x. p1 e i q (p e i q x))
      ]
