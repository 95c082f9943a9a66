-- ===== src/Redis/Output.antt =====
-- src/Engines/OpenSpy/OpenSpyRedisOutputHandler.go: an answer of a server goes to Redis. A panic, or
-- `log.Fatal`, ends the process.
pub mod Stores
pub mod Again
use os_serverlist_sync.Base.{
  ℕ, ◌*◌, Bool, true, false, List, [], ◌∷◌, ◌++◌, Option, none, some, ◌==◌, if◌then◌else◌, Result,
  ok, panic, bad_assertion, ◌>>=◌,
}
use os_serverlist_sync.Base.Bytes.{Bytes, codes, itoa}
use os_serverlist_sync.Base.Int.{ℤ, itoa_int}
use os_serverlist_sync.Base.Props.{Props, insert}
use os_serverlist_sync.Redis.{Redis}

-- `InjectKeys` of the configuration: not there, an object whose values are strings or not, or
-- something else.
pub data InjectKeys : Type 0 where
  not_set not_an_object : InjectKeys
  keys : List (Bytes × Option Bytes) → InjectKeys

pub record OpenSpyRedisOutputHandler : Type 0 where
  pub gamename : Bytes
  pub inject_keys : InjectKeys
  pub game_id : ℤ

-- `*net.UDPAddr`: what `IP.String()` gives, and the port.
pub record Source : Type 0 where
  pub ip : Bytes
  pub port : ℤ

-- `SERVER_EXPIRE_TIME_SECS`, as the durations have it.
abbrev pub server_expire_time : ℕ
server_expire_time = 900 * 1_000_000_000

abbrev pub ipmap_name : Source → Bytes
ipmap_name source = codes "IPMAP_" ++ (source.ip ++ (codes "-" ++ itoa_int source.port))

abbrev pub custkeys_name : Bytes → Bytes
custkeys_name key = key ++ codes "custkeys"

abbrev pub injected_key : OpenSpyRedisOutputHandler → ℕ → Bytes
injected_key oh id = oh.gamename ++ (codes "_injected:" ++ (itoa id ++ codes ":"))

-- What `getServerKey` returns, if it does.
pub data ServerKey : Type 0 where
  fatal not_injected : ServerKey
  server_key : Bytes → ServerKey

-- The result of a command whose error is not looked at.
abbrev pub or_zero {ℓ} : {A : Type ℓ} → A → Option A → A
or_zero zero none = zero
or_zero zero (some a) = a

module _ (R : Redis) (oh : OpenSpyRedisOutputHandler) where
  -- The key of a new server.
  abbrev pub new_key : Option ℕ → ServerKey
  new_key none = fatal
  new_key (some id) = server_key (injected_key oh id)

  unfoldable pub get_server_key : Source → R.Db → ServerKey × R.Db
  get_server_key source d =
      let name = ipmap_name source in
      let (result, d') = R.incr (codes "QRID") d in
      let key = or_zero [] (R.get name d) in
      if or_zero 0 (R.exists name d) == 0 then (new_key result, d') else (
        (if or_zero false (R.h_exists key (codes "injected") d)
            then server_key key
            else not_injected),
        d,
      )

  -- The loop over `InjectKeys`, `serverProperties[k] = v.(string)`.
  abbrev pub inject_loop : List (Bytes × Option Bytes) → Props → Result Props
  inject_loop [] props = ok props
  inject_loop ((k, none) ∷ rest) props = panic bad_assertion
  inject_loop ((k, some v) ∷ rest) props = inject_loop rest (insert k v props)

  abbrev pub inject : InjectKeys → Props → Result Props
  inject not_set props = ok props
  inject not_an_object props = panic bad_assertion
  inject (keys l) props = inject_loop l props

  -- The standard keys.
  abbrev pub standard : Source → Props
  standard source =
      (codes "wan_ip", source.ip)
      ∷ (codes "wan_port", itoa_int source.port)
      ∷ (codes "gameid", itoa_int oh.game_id)
      ∷ (codes "allow_unsolicited_udp", codes "1")
      ∷ (codes "injected", codes "1")
      ∷ []

  -- The commands behind the injection.
  unfoldable pub store_rest : Source → Bytes → Props → R.Db → R.Db
  store_rest source key props d1 =
      let d2 = R.h_set (custkeys_name key) props d1 in
      let d3 = R.expire key server_expire_time d2 in
      let d4 = R.expire (custkeys_name key) server_expire_time d3 in
      let d5 = R.set (ipmap_name source) key server_expire_time d4 in
      let d6 = R.expire (ipmap_name source) server_expire_time d5 in R.z_incr_by oh.gamename key d6

  -- The commands for a server with this key.
  unfoldable pub store : Source → Props → Bytes → R.Db → Result R.Db
  store source props key d = do
    let d1 = R.h_set key (standard source) d
    props' ← inject oh.inject_keys props
    ok (store_rest source key props' d1)

  -- `none` where the process exits.
  abbrev pub answered : Source → Props → ServerKey × R.Db → Result (Option R.Db)
  answered source props (fatal, d) = ok none
  answered source props (not_injected, d) = ok (some d)
  answered source props (server_key key, d) = do d' ← store source props key d; ok (some d')

  unfoldable pub on_server_info_response : Source → Props → R.Db → Result (Option R.Db)
  on_server_info_response source props d = answered source props (get_server_key source d)
