-- ===== src/Tests/Redis.antt =====
-- The Redis handlers with a database in memory.
use os_serverlist_sync.Base.{
  ℕ, zero, suc, ◌+◌, false, List, [], ◌∷◌, ◌++◌, Option, none, some, inl, ◌≡◌, ◌≢◌, refl, arith,
  if◌then◌else◌, ok,
}
use os_serverlist_sync.Base.Bytes.{Bytes, codes, bytes_eq, bytes_eq_iff, itoa}
use os_serverlist_sync.Base.Int.{pos, itoa_int}
use os_serverlist_sync.Base.Net.{v4, AddrPort}
use os_serverlist_sync.Base.Props.{Props, lookup, insert}
use os_serverlist_sync.Redis.{
  Value, text, hash, insert_all, after_h_set, after_z_incr_by, after_expire, is_some, answer_get,
  answer_h_exists, Redis, IsRedis,
}
use os_serverlist_sync.ListEngine.Session.{Listed}
use os_serverlist_sync.Monitor.{Monitor, Send, init}
use os_serverlist_sync.Redis.Input.Pending.{Stored, addresses_of, IsStored, invoke-stored}
use os_serverlist_sync.Redis.Input.{invoke, Fields, scan_loop}
use os_serverlist_sync.Redis.Input.Refresh.{fields_of}
use os_serverlist_sync.Redis.Input.Scan.{last, more, sorted, scan_loop-Answers}
use os_serverlist_sync.Redis.Output.{
  OpenSpyRedisOutputHandler, keys, Source, server_expire_time, ipmap_name, custkeys_name,
  server_key, get_server_key, standard, on_server_info_response,
}
use os_serverlist_sync.Redis.Output.Again.{
  get_server_key-stored, on_server_info_response-not_injected,
}
use os_serverlist_sync.Redis.Output.Stores.{
  AreApart, HasFields, IsWritten, on_server_info_response-stores,
}

pub record Memory : Type 0 where
  pub value : Bytes → Option Value
  pub ttl : Bytes → Option ℕ
  pub next_id : ℕ

abbrev pub memory : Redis
memory = record {
  Db = Memory;
  exists = λ k d. some (if is_some (d.value k) then 1 else 0);
  get = λ k d. answer_get (d.value k);
  h_exists = λ k f d. answer_h_exists f (d.value k);
  incr = λ k d. (some d.next_id, record d { next_id = d.next_id + 1 });
  h_set = λ k fields d. record d {
    value = λ j. if bytes_eq k j then after_h_set fields (d.value j) else d.value j;
  };
  expire = λ k t d. record d {
    ttl = λ j. if bytes_eq k j then after_expire t (d.value j) (d.ttl j) else d.ttl j;
  };
  set = λ k v t d. record d {
    value = λ j. if bytes_eq k j then some (text v) else d.value j;
    ttl = λ j. if bytes_eq k j then some t else d.ttl j;
  };
  z_incr_by = λ k member d. record d {
    value = λ j. if bytes_eq k j then after_z_incr_by member (d.value j) else d.value j;
  };
}

pub memory-IsRedis : IsRedis memory
memory-IsRedis = record {
  value = λ k d. d.value k;
  ttl = λ k d. d.ttl k;
  exists-value = λ k d. refl;
  get-value = λ k d. refl;
  h_exists-value = λ k f d. refl;
  value-h_set = λ j k fields d. refl;
  value-expire = λ j k t d. refl;
  value-set = λ j k v t d. refl;
  value-z_incr_by = λ j k member d. refl;
  ttl-h_set = λ j k fields d. refl;
  ttl-expire = λ j k t d. refl;
  ttl-set = λ j k v t d. refl;
  ttl-z_incr_by = λ j k member d. refl;
}

abbrev pub handler : OpenSpyRedisOutputHandler
handler = record {
  gamename = codes "ut2004";
  inject_keys = keys ((codes "region", some (codes "1")) ∷ []);
  game_id = pos 1727;
}

abbrev source : Source
source = record { ip = codes "1.2.3.4"; port = pos 7777 }

abbrev props : Props
props = (codes "hostname", codes "x") ∷ []

abbrev pub empty : Memory
empty = record { value = λ k. none; ttl = λ k. none; next_id = 12 }

abbrev pub key : Bytes
key = codes "ut2004_injected:12:"

pub found :
    get_server_key memory handler source empty ≡ (server_key key, record empty { next_id = 13 })
unfolding get_server_key itoa
found = refl

differ : (s t : Bytes) → bytes_eq s t ≡ false → s ≢ t
differ s t h e = let same = (bytes_eq_iff s t).1 e in ground (arith, h, same)

pub names-AreApart : AreApart handler source key
unfolding bytes_eq itoa_int itoa
names-AreApart = record {
  key_ipmap = differ key (ipmap_name source) refl;
  key_game = differ key handler.gamename refl;
  custkeys_ipmap = differ (custkeys_name key) (ipmap_name source) refl;
  custkeys_game = differ (custkeys_name key) handler.gamename refl;
  ipmap_game = differ (ipmap_name source) handler.gamename refl;
}

get_server_key-stored_example :
    (d : Memory) × (on_server_info_response memory handler source props empty ≡ ok (some d))
    × (get_server_key memory handler source d ≡ (server_key key, d))
unfolding memory-IsRedis
get_server_key-stored_example =
    get_server_key-stored memory memory-IsRedis handler source props
      (props ++ ((codes "region", codes "1") ∷ [])) key empty (record empty { next_id = 13 }) found
      (unfold insert bytes_eq in refl) names-AreApart (inl refl)

on_server_info_response-stores_example :
    (d : Memory) × (on_server_info_response memory handler source props empty ≡ ok (some d))
    × HasFields (standard memory handler source) none (d.value key)
    × IsWritten
        (props ++ ((codes "region", codes "1") ∷ []))
        none
        (d.value (custkeys_name key))
        (d.ttl (custkeys_name key))
    × (d.value (ipmap_name source) ≡ some (text key))
    × (d.value handler.gamename ≡ after_z_incr_by key none)
    × ((j : Bytes)
        → key ≢ j
        → custkeys_name key ≢ j
        → ipmap_name source ≢ j
        → handler.gamename ≢ j
        → d.value j ≡ none)
    × (d.ttl key ≡ some server_expire_time)
    × (d.ttl (ipmap_name source) ≡ some server_expire_time)
unfolding memory-IsRedis
on_server_info_response-stores_example =
    on_server_info_response-stores memory memory-IsRedis handler source props
      (props ++ ((codes "region", codes "1") ∷ [])) key empty (record empty { next_id = 13 }) found
      (unfold insert bytes_eq in refl) names-AreApart (inl refl) (inl refl)

-- A server that registered itself.
abbrev registered : Memory
registered = record empty {
  value = λ k.
      if bytes_eq k (ipmap_name source)
      then some (text (codes "ut2004:7:"))
      else if bytes_eq k (codes "ut2004:7:")
      then some (hash ((codes "wan_ip", codes "1.2.3.4") ∷ []))
      else none;
}

on_server_info_response-not_injected_example :
    on_server_info_response memory handler source props registered ≡ ok (some registered)
unfolding memory-IsRedis bytes_eq itoa_int itoa lookup
on_server_info_response-not_injected_example =
    on_server_info_response-not_injected memory memory-IsRedis handler source props
      (codes "ut2004:7:") registered refl refl

-- A reader of any string.
abbrev parse_any : Bytes → Option AddrPort
parse_any s = some (record { addr = v4 0x01020304; port = 7778 })

-- Two answers, with one server each; the second has expired.
abbrev z_scan : ℕ → Option (List Bytes × ℕ)
z_scan zero = some (key ∷ codes "1" ∷ [], 5)
z_scan (suc n) = some (codes "gone" ∷ codes "2" ∷ [], 0)

abbrev h_mget : Bytes → Option Fields
h_mget k =
    if bytes_eq k key
    then some (some (codes "1.2.3.4"), some (codes "7777"), some (codes "1"))
    else some (none, none, none)

scan_loop-Answers_example :
    scan_loop parse_any (codes "ut2004") h_mget z_scan 3 0
    ≡ sorted parse_any (codes "ut2004") h_mget (key ∷ codes "gone" ∷ [])
scan_loop-Answers_example =
    scan_loop-Answers parse_any (codes "ut2004") h_mget z_scan 0 3
      ((key ∷ codes "1" ∷ []) ∷ (codes "gone" ∷ codes "2" ∷ []) ∷ [])
      (more refl (λ e. absurd (omega (arith, e))) (last refl)) (omega arith)

-- The one server that the output handler has stored.
abbrev stored : Stored
stored = record {
  key = key;
  ip = 0x01020304;
  ip_string = codes "1.2.3.4";
  port = 7777;
  before = [];
}

abbrev stored_fields : Bytes → Option Fields
stored_fields _ = some (
    fields_of
      (insert_all (standard memory handler (record { ip = codes "1.2.3.4"; port = pos 7777 })) []))

stored-IsStored : IsStored memory handler parse_any (codes "ut2004") stored_fields stored
unfolding bytes_eq
stored-IsStored = record { fields = refl; port_fits = omega arith; parses = refl }

invoke-stored_example :
    (m : Monitor) × (sends : List Send) × (invoke parse_any
        (codes "ut2004")
        stored_fields
        (λ cursor. some (key ∷ codes "1" ∷ [], 0))
        2
        (λ k. k)
        7
        1
        init
      ≡ ok (m, sends, none))
    × Listed (λ k. k) 1 (addresses_of (codes "ut2004") (stored ∷ [])) init m sends
invoke-stored_example =
    invoke-stored memory handler parse_any (codes "ut2004") stored_fields
      (λ cursor. some (key ∷ codes "1" ∷ [], 0)) 2 ((key ∷ codes "1" ∷ []) ∷ []) (λ k. k)
      (stored ∷ []) 7 1 init (last refl) (omega arith) refl (stored-IsStored, tt)
      (record { has_ip = tt; distinct = tt; attempts = tt })
