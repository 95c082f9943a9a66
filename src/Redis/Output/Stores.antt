-- ===== src/Redis/Output/Stores.antt =====
-- What an answer leaves in Redis, and that the next answer finds the same key.
use os_serverlist_sync.Base.{
  ℕ, ◌<◌, drop, false, [], ◌∷◌, ◌⊎◌, Option, none, some, inl, inr, ◌≡◌, ◌≢◌, refl, sym, ap, ◌∙◌,
  arith, Bool-cases, if◌then◌else◌, length, length-append, ok,
}
use os_serverlist_sync.Base.Bytes.{Bytes, codes, bytes_eq, bytes_eq_iff, bytes_eq_refl}
use os_serverlist_sync.Base.Props.{Props, lookup, insert, lookup-insert}
use os_serverlist_sync.Redis.{
  Value, text, hash, scores, insert_all, after_h_set, after_expire, after_z_incr_by, Redis, IsRedis,
}
use os_serverlist_sync.Redis.Output.{
  OpenSpyRedisOutputHandler, Source, server_expire_time, ipmap_name, custkeys_name, server_key,
  get_server_key, inject, standard, store_rest, store, on_server_info_response,
}

bytes_eq-apart : (s t : Bytes) → s ≢ t → bytes_eq s t ≡ false
bytes_eq-apart s t h = elim (Bool-cases (bytes_eq s t)) [
  | inl e ↦ absurd (h ((bytes_eq_iff s t).0 e))
  | inr e ↦ e
]

apart : (s t : Bytes) → s ≢ t → (bytes_eq s t ≡ false) × (bytes_eq t s ≡ false)
apart s t h = (bytes_eq-apart s t h, bytes_eq-apart t s (λ e. h (sym e)))

-- There is no key, or it is a hash.
abbrev pub IsHash : Option Value → Type 0
IsHash v = (v ≡ none) ⊎ ((m : Props) × (v ≡ some (hash m)))

abbrev pub field : Bytes → Option Value → Option Bytes
field f (some (hash m)) = lookup f m
field f _ = none

-- What a field holds when these have been written in turn.
abbrev pub written : Props → Bytes → Option Bytes → Option Bytes
written [] f old = old
written ((k, v) ∷ fields) f old = written fields f (if bytes_eq k f then some v else old)

-- A hash that holds these fields, and else what the value before held.
abbrev pub HasFields : Props → Option Value → Option Value → Type 0
HasFields fields old new =
    (m : Props) × (new ≡ some (hash m))
    × ((f : Bytes) → lookup f m ≡ written fields f (field f old))

lookup-insert_all :
    (fields m : Props) (f : Bytes) → lookup f (insert_all fields m) ≡ written fields f (lookup f m)
lookup-insert_all [] m f = refl
lookup-insert_all ((k, v) ∷ fields) m f =
    lookup-insert_all fields (insert k v m) f ∙ ap (written fields f) (lookup-insert k f v m)

after_h_set-HasFields :
    (f : Bytes × Bytes) (fields : Props) (old : Option Value)
    → IsHash old
    → HasFields (f ∷ fields) old (after_h_set (f ∷ fields) old)
unfolding lookup
after_h_set-HasFields f fields old (inl e) = rw e (_, refl, lookup-insert_all (f ∷ fields) [])
after_h_set-HasFields f fields old (inr (m, e)) = rw e (_, refl, lookup-insert_all (f ∷ fields) m)

-- The custom keys behind an answer, with their time to live.
abbrev pub IsWritten : Props → Option Value → Option Value → Option ℕ → Type 0
IsWritten fields old new ttl =
    ((fields ≡ []) × (new ≡ old)) ⊎ (HasFields fields old new × (ttl ≡ some server_expire_time))

expires_h_set :
    (f : Bytes × Bytes) (fields : Props) (old : Option Value) (ttl : Option ℕ)
    → after_expire server_expire_time (after_h_set (f ∷ fields) old) ttl ≡ some server_expire_time
expires_h_set f fields none ttl = refl
expires_h_set f fields (some (hash m)) ttl = refl
expires_h_set f fields (some (text t)) ttl = refl
expires_h_set f fields (some (scores g)) ttl = refl

after_h_set-IsWritten :
    (fields : Props) (old : Option Value) (ttl : Option ℕ)
    → IsHash old
    → IsWritten fields old
        (after_h_set fields old)
        (after_expire server_expire_time (after_h_set fields old) ttl)
after_h_set-IsWritten [] old ttl h = inl (refl, refl)
after_h_set-IsWritten (f ∷ fields) old ttl h =
    inr (after_h_set-HasFields f fields old h, expires_h_set f fields old ttl)

key-apart : (key : Bytes) → key ≢ custkeys_name key
key-apart key e =
    let longer : length key < length (custkeys_name key) =
      omega (arith, length-append key (codes "custkeys")) in
    omega (arith, ap length e, longer)

-- The keys of a server, and that of the game, are four.
pub record AreApart (oh : OpenSpyRedisOutputHandler) (source : Source) (key : Bytes) : Type 0 where
  pub key_ipmap : key ≢ ipmap_name source
  pub key_game : key ≢ oh.gamename
  pub custkeys_ipmap : custkeys_name key ≢ ipmap_name source
  pub custkeys_game : custkeys_name key ≢ oh.gamename
  pub ipmap_game : ipmap_name source ≢ oh.gamename

-- The value of `j` after a command on `k`.
abbrev changed : Bytes → (Option Value → Option Value) → Bytes → Option Value → Option Value
changed k f j v = if bytes_eq k j then f v else v

module _ (R : Redis) (law : IsRedis R) (oh : OpenSpyRedisOutputHandler) where
  -- The database behind an answer.
  abbrev stored : Source → Props → Bytes → R.Db → R.Db
  stored source props key d =
      store_rest R oh source key props (R.h_set key (standard R oh source) d)

  value-stored :
      (source : Source) (props : Props) (key j : Bytes) (d : R.Db)
      → law.value j (stored source props key d) ≡ (
          changed oh.gamename (after_z_incr_by key) j (
            changed
              (ipmap_name source)
              (λ _. some (text key))
              j
              (changed
                (custkeys_name key)
                (after_h_set props)
                j
                (changed key (after_h_set (standard R oh source)) j (law.value j d)))))
  unfolding store_rest
  value-stored source props key j d =
      rw
        (
          law.value-z_incr_by, law.value-expire, law.value-set, law.value-expire, law.value-expire,
          law.value-h_set, law.value-h_set,
        )
        refl

  expires_standard :
      (source : Source) (key : Bytes) (d : R.Db) (old : Option ℕ)
      → after_expire server_expire_time (after_h_set (standard R oh source) (law.value key d)) old
        ≡ some server_expire_time
  expires_standard source key d =
      expires_h_set (codes "wan_ip", source.ip) (drop 1 (standard R oh source)) (law.value key d)

  -- A command on another key leaves the value, and the time to live of a key that is there is set.
  ttl-stored :
      (source : Source) (props : Props) (key : Bytes) (d : R.Db)
      → AreApart oh source key
      → (law.ttl key (stored source props key d) ≡ some server_expire_time)
        × (law.ttl (custkeys_name key) (stored source props key d)
            ≡ after_expire server_expire_time
                (after_h_set props (law.value (custkeys_name key) d))
                (law.ttl (custkeys_name key) d))
        × (law.ttl (ipmap_name source) (stored source props key d) ≡ some server_expire_time)
  unfolding store_rest
  ttl-stored source props key d h =
      let name = ipmap_name source in
      let cust = custkeys_name key in
      let own = expires_standard source key d _ in
      let key_cust = apart key cust (key-apart key) in
      let key_name = apart key name h.key_ipmap in
      let cust_name = apart cust name h.custkeys_ipmap in
      (
        rw
            (
              law.ttl-z_incr_by, law.ttl-expire, key_name.1, law.ttl-set, key_name.1,
              law.ttl-expire, key_cust.1, law.ttl-expire,
            )
            (rw (bytes_eq_refl key, law.value-h_set, key_cust.1, law.value-h_set, bytes_eq_refl key)
              own),
        rw
            (
              law.ttl-z_incr_by, law.ttl-expire, cust_name.1, law.ttl-set, cust_name.1,
              law.ttl-expire,
            )
            (rw
              (
                bytes_eq_refl cust,
                law.value-expire,
                law.value-h_set,
                bytes_eq_refl cust,
                law.value-h_set,
                key_cust.0,
                law.ttl-expire,
                key_cust.0,
                law.ttl-h_set,
                law.ttl-h_set,
              )
              refl),
        rw
            (
              law.ttl-z_incr_by,
              law.ttl-expire,
              bytes_eq_refl name,
              law.value-set,
              bytes_eq_refl name,
            )
            refl,
      )

  -- What the commands for an answer make of the four keys.
  pub on_server_info_response-writes :
      (source : Source) (props props' : Props) (key : Bytes) (d d0 : R.Db)
      → get_server_key R oh source d ≡ (server_key key, d0)
      → inject R oh oh.inject_keys props ≡ ok props'
      → AreApart oh source key
      → (d' : R.Db) × (on_server_info_response R oh source props d ≡ ok (some d'))
        × (law.value key d' ≡ after_h_set (standard R oh source) (law.value key d0))
        × (law.value (custkeys_name key) d' ≡ after_h_set props' (law.value (custkeys_name key) d0))
        × (law.value (ipmap_name source) d' ≡ some (text key))
        × (law.value oh.gamename d' ≡ after_z_incr_by key (law.value oh.gamename d0))
        × ((j : Bytes)
            → key ≢ j
            → custkeys_name key ≢ j
            → ipmap_name source ≢ j
            → oh.gamename ≢ j
            → law.value j d' ≡ law.value j d0)
        × (law.ttl key d' ≡ some server_expire_time)
        × (law.ttl (custkeys_name key) d'
            ≡ after_expire server_expire_time
                (after_h_set props' (law.value (custkeys_name key) d0))
                (law.ttl (custkeys_name key) d0))
        × (law.ttl (ipmap_name source) d' ≡ some server_expire_time)
  unfolding on_server_info_response store
  on_server_info_response-writes source props props' key d d0 found injected h =
      let name = ipmap_name source in
      let cust = custkeys_name key in
      let game = oh.gamename in
      let key_cust = apart key cust (key-apart key) in
      let key_name = apart key name h.key_ipmap in
      let key_game = apart key game h.key_game in
      let cust_name = apart cust name h.custkeys_ipmap in
      let cust_game = apart cust game h.custkeys_game in
      let name_game = apart name game h.ipmap_game in
      let (ttl_key, ttl_cust, ttl_name) = ttl-stored source props' key d0 h in
      (
        stored source props' key d0,
        rw (found, injected) refl,
        value-stored source props' key key d0
            ∙ (rw (key_game.1, key_name.1, key_cust.1, bytes_eq_refl key) refl),
        value-stored source props' key cust d0
            ∙ (rw (cust_game.1, cust_name.1, bytes_eq_refl cust, key_cust.0) refl),
        value-stored source props' key name d0 ∙ (rw (name_game.1, bytes_eq_refl name) refl),
        value-stored source props' key game d0
            ∙ (rw (bytes_eq_refl game, name_game.0, cust_game.0, key_game.0) refl),
        λ j a b c e.
            value-stored source props' key j d0
            ∙ (rw
                (
                  bytes_eq-apart game j e,
                  bytes_eq-apart name j c,
                  bytes_eq-apart cust j b,
                  bytes_eq-apart key j a,
                )
                refl),
        ttl_key,
        ttl_cust,
        ttl_name,
      )

  -- An answer of a server whose key is known or new, where the injected keys are strings, the names of
  -- the four keys differ, and the server's key and its custom keys are hashes or not there: the
  -- server's key has the standard fields and else those it had; the custom keys have the properties with
  -- those that are injected and else the fields they had, or are as they were if there are none; the
  -- address leads to the key; these live for 900 seconds, the game's set has counted the server once
  -- more, and no other key has changed since the server's was found.
  pub on_server_info_response-stores :
      (source : Source) (props props' : Props) (key : Bytes) (d d0 : R.Db)
      → get_server_key R oh source d ≡ (server_key key, d0)
      → inject R oh oh.inject_keys props ≡ ok props'
      → AreApart oh source key
      → IsHash (law.value key d0)
      → IsHash (law.value (custkeys_name key) d0)
      → (d' : R.Db) × (on_server_info_response R oh source props d ≡ ok (some d'))
        × HasFields (standard R oh source) (law.value key d0) (law.value key d')
        × IsWritten props'
            (law.value (custkeys_name key) d0)
            (law.value (custkeys_name key) d')
            (law.ttl (custkeys_name key) d')
        × (law.value (ipmap_name source) d' ≡ some (text key))
        × (law.value oh.gamename d' ≡ after_z_incr_by key (law.value oh.gamename d0))
        × ((j : Bytes)
            → key ≢ j
            → custkeys_name key ≢ j
            → ipmap_name source ≢ j
            → oh.gamename ≢ j
            → law.value j d' ≡ law.value j d0)
        × (law.ttl key d' ≡ some server_expire_time)
        × (law.ttl (ipmap_name source) d' ≡ some server_expire_time)
  on_server_info_response-stores source props props' key d d0 found injected h own_hash cust_hash =
      let (d', e, own, cust, name, game, others, ttl_key, ttl_cust, ttl_name) =
        on_server_info_response-writes source props props' key d d0 found injected h in
      (
        d',
        e,
        rw own (
            after_h_set-HasFields (codes "wan_ip", source.ip) (drop 1 (standard R oh source))
              (law.value key d0) own_hash),
        rw (cust, ttl_cust) (after_h_set-IsWritten props' _ _ cust_hash),
        name,
        game,
        others,
        ttl_key,
        ttl_name,
      )
