-- ===== src/Tests/Goa.antt =====
-- Conversations with a GOA master server: examples of the theorems.
use os_serverlist_sync.Base.{
  All, Bool, true, false, List, [], ◌∷◌, Option, some, none, ◌≡◌, refl, arith, ok,
}
use os_serverlist_sync.Base.Bytes.{Bytes, codes, bytes_eq}
use os_serverlist_sync.Base.Conn.{got}
use os_serverlist_sync.Base.Net.{v4, AddrPort}
use os_serverlist_sync.Base.Text.{index_of, starts_with}
use os_serverlist_sync.Reader.{slice}
use os_serverlist_sync.Goa.ServerList.{
  read_compressed, record_address, ServerListEngineParams, challenge_of, reply_buffer,
}
use os_serverlist_sync.Goa.Invoke.{invoke}
use os_serverlist_sync.Goa.Invoke.Pending.{
  addresses_of, broken_reads, invoke-addresses, invoke-broken,
}
use os_serverlist_sync.ListEngine.Session as Session
use os_serverlist_sync.Monitor.{Monitor, Send, init}
use os_serverlist_sync.Monitor.Matching.{IsValid}
use os_serverlist_sync.Goa.ServerList.Records.{
  read_compressed-split, filled, IsListed, Listed, list_reads,
}

abbrev params : Bool → ServerListEngineParams
params plain = record {
  gamename = codes "ut";
  secretkey = codes "Z5Nfb0";
  query_gamename = codes "ut";
  no_compressed_list = plain;
  max_challenge_len = 6;
  gamever = [];
  location = [];
  attach_query_id = false;
  attach_list_final = true;
}

abbrev greeting : Bytes
greeting = codes "\\basic\\\\secure\\ABCDEF"

-- Any function of the challenge does.
abbrev answer_of : Bytes → Bytes
answer_of challenge = challenge

-- A reader that knows one address.
abbrev parse_one : Bytes → Option AddrPort
parse_one s = elim (bytes_eq s (codes "1.2.3.4:5")) [
  | true ↦ some (record { addr = v4 0x01020304; port = 5 })
  | false ↦ none
]

challenge-found :
    (plain : Bool)
    → challenge_of (params plain) (reply_buffer greeting) ≡ ok (some (codes "ABCDEF"))
unfolding challenge_of index_of starts_with slice
challenge-found true = refl
challenge-found false = refl

abbrev addresses : List Bytes
addresses = codes "1.2.3.4:5" ∷ codes "x" ∷ []

abbrev chunks : List Bytes
chunks = codes "\\ip\\1.2.3" ∷ codes ".4:5\\ip\\x\\final\\" ∷ []

abbrev one_record : List Listed
one_record = record { ip = 0x01020304; port = 7778 } ∷ []

one_record-IsListed : All IsListed one_record
unfolding bytes_eq
one_record-IsListed = ((omega arith, omega arith, refl), tt)

-- The list comes whole to a monitor with another engine.
abbrev other_engine : Monitor
other_engine = record init { server_engine_list = 8 ∷ [] }

other_engine-IsValid : IsValid other_engine
other_engine-IsValid = record { has_ip = tt; distinct = tt; attempts = tt }

invoke-addresses_example :
    (m : Monitor) × (sends : List Send) × (invoke answer_of parse_one
        (params false)
        (λ k. k)
        (some (got greeting ∷ list_reads one_record []))
        7
        1
        other_engine
      ≡ ok (m, sends))
    × Session.Listed (λ k. k) 1 (addresses_of one_record) other_engine m sends
invoke-addresses_example =
    invoke-addresses answer_of parse_one (params false) (λ k. k) greeting (codes "ABCDEF")
      one_record [] 7 1 other_engine refl (challenge-found false) one_record-IsListed
      other_engine-IsValid

invoke-broken_example :
    (m : Monitor) × (sends : List Send) × (invoke answer_of parse_one
        (params false)
        (λ k. k)
        (some (got greeting ∷ broken_reads one_record []))
        7
        1
        other_engine
      ≡ ok (m, sends))
    × Session.Listed (λ k. k) 1 (addresses_of one_record) other_engine m sends
invoke-broken_example =
    invoke-broken answer_of parse_one (params false) (λ k. k) greeting (codes "ABCDEF") one_record
      [] 7 1 other_engine refl (challenge-found false) one_record-IsListed (ground arith, tt)
      other_engine-IsValid

-- The record of 1.2.3.4:7778 comes in pieces of two and four bytes.
read_compressed-split_example :
    read_compressed
      (0 ∷ 0 ∷ 0 ∷ 0 ∷ 0 ∷ 0 ∷ [])
      (got (1 ∷ 2 ∷ []) ∷ got (3 ∷ 4 ∷ 30 ∷ 98 ∷ []) ∷ [])
    ≡ record_address (filled (1 ∷ 2 ∷ []) (0 ∷ 0 ∷ 0 ∷ 0 ∷ 0 ∷ 0 ∷ []))
      ∷ record_address
          (filled (3 ∷ 4 ∷ 30 ∷ 98 ∷ []) (filled (1 ∷ 2 ∷ []) (0 ∷ 0 ∷ 0 ∷ 0 ∷ 0 ∷ 0 ∷ [])))
      ∷ []
unfolding bytes_eq
read_compressed-split_example =
    read_compressed-split (0 ∷ 0 ∷ 0 ∷ 0 ∷ 0 ∷ 0 ∷ []) (1 ∷ 2 ∷ []) (3 ∷ 4 ∷ 30 ∷ 98 ∷ [])
      (record { ip = 0x01020304; port = 7778 }) [] refl refl refl refl refl tt
