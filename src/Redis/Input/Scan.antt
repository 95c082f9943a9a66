-- ===== src/Redis/Input/Scan.antt =====
-- All answers of a scan, from the cursor 0 on until it comes back.
use mathlib.Core.List.{filter_map}
use os_serverlist_sync.Base.{
  ℕ, zero, suc, ◌<◌, ◌≢◌, Bool, false, not, ◌&&◌, if◌then◌else◌, inl, inr, Bool-cases, Option-cases,
  List, [], ◌∷◌, ◌++◌, Option, none, some, ◌≡◌, refl, ap, ◌∙◌, arith, ◌==◌, length, select,
}
use os_serverlist_sync.Base.Bytes.{Bytes, codes, bytes_eq}
use os_serverlist_sync.Base.Atoi.{atoi}
use os_serverlist_sync.Base.Int.{itoa_int}
use os_serverlist_sync.Redis.{is_some}
use os_serverlist_sync.Base.Net.{AddrPort}
use os_serverlist_sync.Redis.Input.{
  Fields, Verdict, query_port, check_server, Found, add, keys_loop, scan_loop,
}

-- The answers to a scan from a cursor on: the last has the cursor 0 or is followed by an error.
pub data Answers (z_scan : ℕ → Option (List Bytes × ℕ)) : ℕ → List (List Bytes) → Type 0 where
  broken : {cursor : ℕ} → z_scan cursor ≡ none → Answers z_scan cursor []
  last :
      {cursor : ℕ} {keys : List Bytes}
      → z_scan cursor ≡ some (keys, 0)
      → Answers z_scan cursor (keys ∷ [])
  more :
      {cursor next : ℕ} {keys : List Bytes} {answers : List (List Bytes)}
      → z_scan cursor ≡ some (keys, next)
      → next ≢ 0
      → Answers z_scan next answers
      → Answers z_scan cursor (keys ∷ answers)

-- The keys of an answer, without the scores.
abbrev pub members : List Bytes → List Bytes
members [] = []
members (key ∷ []) = key ∷ []
members (key ∷ score ∷ rest) = key ∷ members rest

abbrev pub all_members : List (List Bytes) → List Bytes
all_members [] = []
all_members (keys ∷ answers) = members keys ++ all_members answers

-- Whether a field that HMGET was asked for is missing.
abbrev pub lacks_field : Option Fields → Bool
lacks_field none = false
lacks_field (some (ip, port, injected)) = not (is_some ip && is_some port && is_some injected)

-- The address of a key whose fields are all there: if its port is a number and it is injected, what
-- `netip.ParseAddrPort` reads.
abbrev pub address_in : (Bytes → Option AddrPort) → Bytes → Option Fields → Option AddrPort
address_in parse_addr_port gamename (some (some ip, some port, some injected)) =
    if (atoi port).1 && bytes_eq injected (codes "1")
    then parse_addr_port (ip ++ (codes ":" ++ itoa_int (query_port gamename (atoi port).0)))
    else none
address_in parse_addr_port gamename _ = none

module _ (parse_addr_port : Bytes → Option AddrPort) (gamename : Bytes)
    (h_mget : Bytes → Option Fields) where
  abbrev pub verdict : Bytes → Verdict
  verdict key = check_server parse_addr_port gamename (h_mget key)

  -- What the keys come to, each by itself.
  abbrev pub sorted : List Bytes → Found
  sorted ks = record {
    items_to_delete = select (λ k. lacks_field (h_mget k)) ks;
    addresses = filter_map (λ k. address_in parse_addr_port gamename (h_mget k)) ks;
  }

  pub add-sorted :
      (key : Bytes) (ks : List Bytes) (fields : Option Fields)
      → h_mget key ≡ fields
      → add key (verdict key) (sorted ks) ≡ sorted (key ∷ ks)
  unfolding filter_map check_server
  add-sorted key ks none e = rw e refl
  add-sorted key ks (some (none, port, injected)) e = rw e refl
  add-sorted key ks (some (some ip, none, injected)) e = rw e refl
  add-sorted key ks (some (some ip, some port, none)) e = rw e refl
  add-sorted key ks (some (some ip, some port, some injected)) e = elim (Bool-cases (atoi port).1) [
    | inl number ↦ elim (Bool-cases (bytes_eq injected (codes "1"))) [
      | inl own ↦
          let address = ip ++ (codes ":" ++ itoa_int (query_port gamename (atoi port).0)) in
          elim (Option-cases (parse_addr_port address)) [
            | inl none_read ↦ rw (e, number, own, none_read) refl
            | inr (a, read) ↦ rw (e, number, own, read) refl
          ]
      | inr other ↦ rw (e, number, other) refl
    ]
    | inr no_number ↦ rw (e, no_number) refl
  ]

  keys_loop-sorted :
      (keys ks : List Bytes)
      → keys_loop parse_addr_port gamename h_mget keys (sorted ks) ≡ sorted (members keys ++ ks)
  unfolding keys_loop
  keys_loop-sorted [] ks = refl
  keys_loop-sorted (key ∷ []) ks = add-sorted key ks (h_mget key) refl
  keys_loop-sorted (key ∷ score ∷ keys) ks =
      ap (add key (verdict key)) (keys_loop-sorted keys ks)
      ∙ add-sorted key (members keys ++ ks) (h_mget key) refl

  -- A scan that comes back to the cursor 0, or is broken off by an error, after fewer answers than
  -- there is fuel, takes every key of every answer: those for which HMGET answers without one of the
  -- three fields go to `itemsToDelete`, those that have all, with a number for the port and `1` for
  -- `injected`, give the address that `netip.ParseAddrPort` reads, if it reads one, in order, and the
  -- others are passed over.
  pub scan_loop-Answers :
      (z_scan : ℕ → Option (List Bytes × ℕ)) (cursor fuel : ℕ) (answers : List (List Bytes))
      → Answers z_scan cursor answers
      → length answers < fuel
      → scan_loop parse_addr_port gamename h_mget z_scan fuel cursor ≡ sorted (all_members answers)
  unfolding scan_loop filter_map
  scan_loop-Answers z_scan cursor zero answers h enough = absurd (omega (arith, enough))
  scan_loop-Answers z_scan cursor (suc fuel) [] (broken e) enough = rw e refl
  scan_loop-Answers z_scan cursor (suc fuel) (keys ∷ []) (last e) enough =
      rw e (keys_loop-sorted keys [])
  scan_loop-Answers z_scan cursor (suc fuel) (keys ∷ answers) (more {next = next} e n h) enough =
      let ih = scan_loop-Answers z_scan next fuel answers h (omega (arith, enough)) in
      let on : (next == 0) ≡ false = ground (arith, n) in
      rw (e, on, ih) (keys_loop-sorted keys (all_members answers))
