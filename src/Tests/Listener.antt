-- ===== src/Tests/Listener.antt =====
-- A QR2 listener with a database in memory.
use os_serverlist_sync.Base.{
  length, All, ◌≤◌, ℕ, true, List, [], ◌∷◌, ◌++◌, some, ◌≡◌, refl, arith, ok,
}
use os_serverlist_sync.Base.Bytes.{Bytes, codes, bytes_eq, to_utf8, string_of_byte}
use os_serverlist_sync.Base.Int.{pos}
use os_serverlist_sync.Base.Net.{Addr, v4, UdpAddr, as4}
use os_serverlist_sync.Base.Props.{insert}
use os_serverlist_sync.Goa.Query.Pairs as Goa_pairs
use os_serverlist_sync.Samp.Query as Samp_query
use os_serverlist_sync.Samp.Query.Answers as Samp_answers
use os_serverlist_sync.Samp.Query.Answers.{magic}
use os_serverlist_sync.Listener.Goa as Goa
use os_serverlist_sync.Listener.Goa.{listen-properties}
use os_serverlist_sync.Listener.Samp as Samp
use os_serverlist_sync.Listener.Samp.{listen-info}
use os_serverlist_sync.Listener.{failed, datagram, listen}
use os_serverlist_sync.Listener.Qr2.{answer, listen-pairs}
use os_serverlist_sync.Listener.Stores.{Responded}
use os_serverlist_sync.Listener.Survives.{listen-survives}
use os_serverlist_sync.Monitor.{Monitor, init}
use os_serverlist_sync.Monitor.Matching.{IsValid}
use os_serverlist_sync.Monitor.Queries.{pending}
use os_serverlist_sync.Qr2.Query.{listen_step}
use os_serverlist_sync.Qr2.Query.Pairs.{pairs_bytes}
use os_serverlist_sync.Qr2.Query.Total.{received}
use os_serverlist_sync.Redis.Output.{OpenSpyRedisOutputHandler, not_set}
use os_serverlist_sync.Tests.Redis.{
  Memory, memory, memory-IsRedis, handler, empty, key, found, names-AreApart,
}

abbrev server : UdpAddr
server = record { ip = v4 0x01020304; port = pos 7777 }

server-as4 : as4 server.ip ≡ ok 0x01020304
unfolding as4
server-as4 = refl

-- One server, whose address is written out.
abbrev pub ip_string : Addr → Bytes
ip_string _ = codes "1.2.3.4"

abbrev head : Bytes
head = 0 ∷ 4 ∷ 5 ∷ 6 ∷ 7 ∷ []

abbrev one_pair : List (Bytes × Bytes)
one_pair = (codes "hostname", codes "x") ∷ []

abbrev buffer : Bytes
buffer = head ++ (head ++ (head ++ (head ++ (head ++ head))))

init-IsValid : IsValid init
init-IsValid = record { has_ip = tt; distinct = tt; attempts = tt }

listen-pairs_example :
    (m : Monitor) × (d : Memory) × (listen memory handler ip_string 1 listen_step
        (datagram (head ++ pairs_bytes one_pair) server ∷ [])
        buffer
        (init, empty)
      ≡ listen memory handler ip_string 1 listen_step []
          (received buffer (head ++ pairs_bytes one_pair))
          (m, d))
    × Responded memory memory-IsRedis handler ip_string 1
        (answer server one_pair)
        (one_pair ++ ((codes "region", codes "1") ∷ []))
        key
        0x01020304
        init
        (record empty { next_id = 13 })
        m
        d
listen-pairs_example =
    listen-pairs memory memory-IsRedis handler ip_string 1 buffer head one_pair server []
      (one_pair ++ ((codes "region", codes "1") ∷ [])) key 0x01020304 init empty
      (record empty { next_id = 13 }) refl (ground arith) (omega arith) found
      (unfold insert bytes_eq to_utf8 string_of_byte in refl) names-AreApart server-as4 init-IsValid

abbrev plain_handler : OpenSpyRedisOutputHandler
plain_handler = record handler { inject_keys = not_set }

listen-survives_example :
    (m : Monitor) × (d : Memory) × (listen memory plain_handler ip_string 1 listen_step
        (datagram (1 ∷ []) server ∷ datagram (head ++ (65 ∷ [])) server ∷ failed ∷ [])
        buffer
        (init, empty)
      ≡ ok (some (m, d)))
    × IsValid m
    × ((e ip port : ℕ) → pending m e ip port ≡ true → pending init e ip port ≡ true)
listen-survives_example =
    listen-survives memory plain_handler ip_string 1 refl (λ k d. (d.next_id, refl))
      (datagram (1 ∷ []) server ∷ datagram (head ++ (65 ∷ [])) server ∷ failed ∷ []) buffer init
      empty ((0x01020304, server-as4), ((0x01020304, server-as4), (tt, tt))) (omega arith)
      init-IsValid

abbrev status_pairs : List (Bytes × Bytes)
status_pairs = (codes "hostname", codes "x") ∷ (codes "mapname", []) ∷ []

status-IsPair : All Goa_pairs.IsPair status_pairs
unfolding bytes_eq
status-IsPair = ground arith

listen-properties_example :
    (m : Monitor) × (d : Memory) × (listen memory handler ip_string 1 Goa.round
        (datagram (Goa_pairs.pairs_bytes status_pairs) server ∷ [])
        buffer
        (init, empty)
      ≡ listen memory handler ip_string 1 Goa.round [] buffer (m, d))
    × Responded memory memory-IsRedis handler ip_string 1
        (Goa.answer server status_pairs)
        (insert (codes "region") (codes "1") (Goa_pairs.insert_all status_pairs []))
        key
        0x01020304
        init
        (record empty { next_id = 13 })
        m
        d
listen-properties_example =
    listen-properties memory memory-IsRedis handler ip_string 1 buffer status_pairs server []
      (insert (codes "region") (codes "1") (Goa_pairs.insert_all status_pairs [])) key 0x01020304
      init empty (record empty { next_id = 13 }) status-IsPair (omega arith) found refl
      names-AreApart server-as4 init-IsValid

abbrev samp_info : Samp_answers.Info
samp_info = record {
  password = 0;
  players = 3;
  max_players = 50;
  hostname = codes "h";
  gamemode = codes "g";
  language = codes "en";
}

samp_info-IsInfo : Samp_answers.IsInfo samp_info
samp_info-IsInfo = record {
  players_fit = omega arith;
  max_players_fit = omega arith;
  hostname_fits = omega arith;
  gamemode_fits = omega arith;
  language_fits = omega arith;
}

abbrev echo : Bytes
echo = 1 ∷ 2 ∷ 3 ∷ 4 ∷ 5 ∷ 6 ∷ b'i' ∷ []

abbrev long_buffer : Bytes
long_buffer = buffer ++ buffer

samp-length : length (magic (echo ++ Samp_answers.info_bytes samp_info)) ≤ length long_buffer
unfolding Samp_answers.info_bytes
samp-length = omega arith

listen-info_example :
    (m : Monitor) × (d : Memory) × (listen memory handler ip_string 1 Samp_query.listen_step
        (datagram (magic (echo ++ Samp_answers.info_bytes samp_info)) server ∷ [])
        long_buffer
        (init, empty)
      ≡ listen memory handler ip_string 1 Samp_query.listen_step []
          (Samp_answers.received long_buffer (magic (echo ++ Samp_answers.info_bytes samp_info)))
          (m, d))
    × Responded memory memory-IsRedis handler ip_string 1
        (Samp.answer server samp_info)
        (insert (codes "region") (codes "1") (Samp_answers.info_props (pos 7777) samp_info))
        key
        0x01020304
        init
        (record empty { next_id = 13 })
        m
        d
listen-info_example =
    listen-info memory memory-IsRedis handler ip_string 1 long_buffer echo samp_info server []
      (insert (codes "region") (codes "1") (Samp_answers.info_props (pos 7777) samp_info)) key
      0x01020304 init empty (record empty { next_id = 13 }) refl samp_info-IsInfo samp-length found
      refl names-AreApart server-as4 init-IsValid
