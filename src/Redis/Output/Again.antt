-- ===== src/Redis/Output/Again.antt =====
-- The second answer of a server, and the answers of servers that others have registered.
use os_serverlist_sync.Base.{true, false, Option, some, inl, inr, ◌≡◌, refl, ◌∙◌, if◌then◌else◌, ok}
use os_serverlist_sync.Base.Bytes.{Bytes, codes, bytes_eq_refl}
use os_serverlist_sync.Base.Props.{Props, lookup-insert}
use os_serverlist_sync.Redis.{Value, text, after_h_set, answer_h_exists, Redis, IsRedis}
use os_serverlist_sync.Redis.Output.{
  OpenSpyRedisOutputHandler, Source, ipmap_name, server_key, not_injected, or_zero, get_server_key,
  inject, standard, on_server_info_response,
}
use os_serverlist_sync.Redis.Output.Stores.{AreApart, IsHash, on_server_info_response-writes}

module _ (R : Redis) (law : IsRedis R) (oh : OpenSpyRedisOutputHandler) where
  injected-standard :
      (source : Source) (v : Option Value)
      → IsHash v
      → answer_h_exists (codes "injected") (after_h_set (standard R oh source) v) ≡ some true
  injected-standard source v (inl e) = rw (e, lookup-insert, bytes_eq_refl (codes "injected")) refl
  injected-standard source v (inr (m, e)) =
      rw (e, lookup-insert, bytes_eq_refl (codes "injected")) refl

  -- What `getServerKey` returns for an address that leads to a key.
  get_server_key-known :
      (source : Source) (d : R.Db) (key : Bytes)
      → law.value (ipmap_name source) d ≡ some (text key)
      → get_server_key R oh source d ≡ (
        (if or_zero false (answer_h_exists (codes "injected") (law.value key d))
            then server_key key
            else not_injected),
        d,
      )
  unfolding get_server_key
  get_server_key-known source d key e =
      rw (law.exists-value, law.get-value, e, law.h_exists-value) refl

  -- The next answer of a server whose answer has been stored finds its key again, and registers
  -- nothing new.
  pub get_server_key-stored :
      (source : Source) (props props' : Props) (key : Bytes) (d d0 : R.Db)
      → get_server_key R oh source d ≡ (server_key key, d0)
      → inject R oh oh.inject_keys props ≡ ok props'
      → AreApart oh source key
      → IsHash (law.value key d0)
      → (d' : R.Db) × (on_server_info_response R oh source props d ≡ ok (some d'))
        × (get_server_key R oh source d' ≡ (server_key key, d'))
  get_server_key-stored source props props' key d d0 found injected h is_hash =
      let (d', e, own, _, name, _, _, _, _, _) =
        on_server_info_response-writes R law oh source props props' key d d0 found injected h in
      let known = get_server_key-known source d' key name in
      (d', e, known ∙ (rw (own, injected-standard source (law.value key d0) is_hash) refl))

  -- Where the address leads to a key that has no field `injected`, because the key has expired or
  -- another program has made it, an answer changes nothing.
  pub on_server_info_response-not_injected :
      (source : Source) (props : Props) (key : Bytes) (d : R.Db)
      → law.value (ipmap_name source) d ≡ some (text key)
      → or_zero false (answer_h_exists (codes "injected") (law.value key d)) ≡ false
      → on_server_info_response R oh source props d ≡ ok (some d)
  unfolding on_server_info_response
  on_server_info_response-not_injected source props key d e h =
      rw (get_server_key-known source d key e, h) refl
