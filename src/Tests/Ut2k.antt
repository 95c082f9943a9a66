-- ===== src/Tests/Ut2k.antt =====
-- A game server of 2004 and its master server: examples of their theorems.
use os_serverlist_sync.Base.{
  ℕ, zero, suc, ◌<◌, false, List, [], ◌∷◌, ◌++◌, some, ◌≡◌, refl, arith, length, ok,
}
use os_serverlist_sync.Base.Bytes.{Bytes, codes}
use os_serverlist_sync.Base.Int.{pos, pred}
use os_serverlist_sync.Base.Net.{v4, UdpAddr}
use os_serverlist_sync.Monitor.{Monitor, complete_query}
use os_serverlist_sync.Monitor.Matching.{IsValid}
use os_serverlist_sync.Monitor.Queries.{pending, new_item}
use os_serverlist_sync.Reader.{QueryParserState}
use os_serverlist_sync.Base.Props.{insert}
use os_serverlist_sync.Listener.{Answer, source_of, datagram, listen}
use os_serverlist_sync.Listener.Stores.{Responded}
use os_serverlist_sync.Listener.Ut2k.{at_port, listen-answer}
use os_serverlist_sync.Redis.Output.{server_key, get_server_key}
use os_serverlist_sync.Redis.Output.Stores.{AreApart}
use os_serverlist_sync.Tests.Redis.{
  Memory, memory, memory-IsRedis, handler, empty, key, found, names-AreApart,
}
use os_serverlist_sync.Tests.Listener.{ip_string}
use os_serverlist_sync.Ut2k.Query.{answer_from, handle_response, listen_step}
use os_serverlist_sync.Ut2k.Query.Compact.{compact_int, tail_bytes}
use os_serverlist_sync.Ut2k.Query.Strings.{Piece, char, colour, render, compact_string}
use os_serverlist_sync.Ut2k.Query.Response.{
  Info, Sendable, IsInfo, extra_bytes, info_bytes, answer_bytes, info_props, handle_response-answer,
}
use os_serverlist_sync.Ut2k.Query.Completion.{port_below, handle_response-completes_other}

abbrev source : UdpAddr
source = record { ip = v4 0x7f000001; port = pos 7778 }

-- `Hi` behind a colour code.
abbrev hi : List Piece
hi = colour 1 2 3 ∷ char b'H' ∷ char b'i' ∷ []

hi-Sendable : Sendable hi
unfolding render
hi-Sendable = ((tt, ((omega arith, omega arith), ((omega arith, omega arith), tt))), omega arith)

abbrev info : Info
info = record {
  server_id = 1;
  address = [];
  game_port = 7777;
  query_port = 7778;
  hostname = hi;
  level = hi;
  gamegroup = hi;
  num_players = 3;
  max_players = 16;
  ping = 0;
  flags = 0;
  skill = hi;
}

info-IsInfo : IsInfo info
unfolding render
info-IsInfo = record {
  address_fits = (tt, omega arith);
  hostname_fits = hi-Sendable;
  level_fits = hi-Sendable;
  gamegroup_fits = hi-Sendable;
  num_players_fits = omega arith;
  max_players_fits = omega arith;
  skill_fits = hi-Sendable;
}

-- A cleared receive buffer.
abbrev cleared : ℕ → Bytes
cleared zero = []
cleared (suc n) = 0 ∷ cleared n

answer-length : length (answer_bytes 128 info) < length (cleared 128)
unfolding answer_bytes info_bytes extra_bytes compact_string compact_int tail_bytes render
answer-length = omega arith

-- The game server's query is pending.
abbrev asked : Monitor
asked = record { server_engine_list = 7 ∷ []; query_list = new_item 7 1 0x7f000001 7778 0 ∷ [] }

asked-IsValid : IsValid asked
asked-IsValid = record {
  has_ip = ((0x7f000001, refl), tt);
  distinct = (tt, tt);
  attempts = ((omega arith, omega arith), tt);
}

abbrev answered : Answer
answered = answer_from source (info_props 128 info)

abbrev packet : QueryParserState
packet = record { total_length = 0; current_offset = 0; buffer = answer_bytes 128 info ++ [] }

packet-answered :
    handle_response 128 source packet ≡ ok (some (answer_from source (info_props 128 info)))
packet-answered = handle_response-answer 128 info source 0 [] (omega arith) info-IsInfo

handle_response-completes_other_example :
    (m' : Monitor) × (complete_query asked 1 (answer_from source (info_props 128 info)).completed
      ≡ ok m')
    × (pending m' 1 0x7f000001 7778 ≡ pending asked 1 0x7f000001 7778)
    × (pending m' 1 0x7f000001 (port_below 7778) ≡ false)
handle_response-completes_other_example =
    handle_response-completes_other 128 1 0x7f000001 7778 packet
      (answer_from source (info_props 128 info)) asked (omega arith) asked-IsValid packet-answered

-- The answer comes from 1.2.3.4:7778.
reported-found :
    get_server_key memory handler
      (source_of memory handler ip_string 1
        (answer_from (at_port 0x01020304 7778) (info_props 128 info)).source)
      empty
    ≡ (server_key key, record empty { next_id = 13 })
unfolding answer_from pred
reported-found = found

reported-AreApart :
    AreApart handler
      (source_of memory handler ip_string 1
        (answer_from (at_port 0x01020304 7778) (info_props 128 info)).source)
      key
unfolding answer_from pred
reported-AreApart = names-AreApart

-- The query of the game server at 1.2.3.4:7778 is pending.
abbrev asked_there : Monitor
asked_there = record {
  server_engine_list = 7 ∷ [];
  query_list = new_item 7 1 0x01020304 7778 0 ∷ [];
}

asked_there-IsValid : IsValid asked_there
asked_there-IsValid = record {
  has_ip = ((0x01020304, refl), tt);
  distinct = (tt, tt);
  attempts = ((omega arith, omega arith), tt);
}

listen-answer_example :
    (m : Monitor) × (d : Memory) × (buf : Bytes) × (listen memory handler ip_string 1
        (listen_step 128)
        (datagram (answer_bytes 128 info) (at_port 0x01020304 7778) ∷ [])
        (cleared 128)
        (asked_there, empty)
      ≡ listen memory handler ip_string 1 (listen_step 128) [] buf (m, d))
    × Responded memory memory-IsRedis handler ip_string 1
        (answer_from (at_port 0x01020304 7778) (info_props 128 info))
        (insert (codes "region") (codes "1") (info_props 128 info))
        key
        0x01020304
        asked_there
        (record empty { next_id = 13 })
        m
        d
    × (pending m 1 0x01020304 7778 ≡ pending asked_there 1 0x01020304 7778)
    × (pending m 1 0x01020304 (port_below 7778) ≡ false)
listen-answer_example =
    listen-answer memory memory-IsRedis handler ip_string 1 128 info (cleared 128) 0x01020304 7778
      [] (insert (codes "region") (codes "1") (info_props 128 info)) key asked_there empty
      (record empty { next_id = 13 }) (omega arith) info-IsInfo answer-length (omega arith)
      reported-found refl reported-AreApart asked_there-IsValid
