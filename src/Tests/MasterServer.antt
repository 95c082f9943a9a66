-- ===== src/Tests/MasterServer.antt =====
-- A conversation with a master server: examples of its theorems.
use os_serverlist_sync.Base.{
  take, drop, ◌^◌, append-nil, ◌≤◌, ◌<◌, ◌≢◌, true, false, List, [], ◌∷◌, map, some, ◌≡◌, refl,
  arith, length, ok,
}
use os_serverlist_sync.Base.Bytes.{Bytes, codes}
use os_serverlist_sync.Base.Conn.{Read, got, eof}
use os_serverlist_sync.ListEngine.Session as Session
use os_serverlist_sync.Monitor.{Monitor, Send, init}
use os_serverlist_sync.Ut2k.Invoke.{invoke}
use os_serverlist_sync.Ut2k.Invoke.Pending.{addresses_of, invoke-servers}
use os_serverlist_sync.Ut2k.MasterServer.{
  wait_for_data, UtmsServerListEngineParams, UtmsServerListEngine, get_compact_string_buffer,
  send_buffer, read_message,
}
use os_serverlist_sync.Ut2k.MasterServer.ClientInfo.{client_info}
use os_serverlist_sync.Ut2k.MasterServer.Handshake.{
  text, verdict_and_list, read_message-rejects, read_message-lists,
}
use os_serverlist_sync.Ut2k.MasterServer.Messages.{
  wait_for_data-split_length, message, Delivers, none_left, next,
}
use os_serverlist_sync.Ut2k.MasterServer.Servers.{Listed, Queried, query_address}

-- A sum that does not look at its argument.
abbrev no_sum : Bytes → Bytes
no_sum _ = codes "0123456789abcdef0123456789abcdef"

abbrev params : UtmsServerListEngineParams
params = record {
  cd_key = codes "key";
  client_name = codes "UT2K4CLIENT";
  client_version = 3369;
  running_os = 2;
  language = codes "int";
  gpu_device_id = 1;
  gpu_vendor_id = 2;
  cpu_cycles = 3;
  running_cpus = 1;
}

-- The engine before its connection.
abbrev fresh : UtmsServerListEngine
fresh = record {
  buffer = [];
  current_offset = 0;
  got_fatal_error = false;
  challenge = [];
  connection = [];
  sent = [];
  queried = [];
}

abbrev two_servers : List Listed
two_servers =
    record { ip = 0x01020304; game_port = 7777; query_port = 7778; more = codes "x" }
    ∷ record { ip = 0x05060708; game_port = 7787; query_port = 7788; more = [] }
    ∷ []

info-fits : length (client_info no_sum params (codes "42")) ≤ 256
unfolding get_compact_string_buffer
info-fits = omega arith

-- The connection brings each message in one chunk.
abbrev conn_of : List Bytes → List Read
conn_of [] = eof ∷ []
conn_of (m ∷ ms) = message (m ∷ []) (conn_of ms)

abbrev denied : List Bytes
denied = text (codes "42") [] ∷ text (codes "DENIED") [] ∷ []

one_chunk :
    (m : Bytes) (ms : List Bytes) {end conn : List Read}
    → 0 < length m
    → length m < 2 ^ 32
    → Delivers end ms conn
    → Delivers end (m ∷ ms) (message (m ∷ []) conn)
one_chunk m ms h b d = next (m ∷ []) (append-nil m) (ground (arith, h), tt) (rw append-nil b) d

denied-Delivers : Delivers (eof ∷ []) denied (conn_of denied)
unfolding get_compact_string_buffer
denied-Delivers =
    one_chunk _ _ (omega arith) (omega arith) (one_chunk _ _ (omega arith) (omega arith) none_left)

denied-other : codes "DENIED" ≢ codes "APPROVED"
denied-other e = ground (arith, e)

read_message-rejects_example :
    (se' : UtmsServerListEngine) × (read_message no_sum params
        (record fresh { connection = conn_of denied })
      ≡ ok se')
    × (se'.got_fatal_error ≡ true)
    × (se'.sent ≡ (send_buffer (client_info no_sum params (codes "42")) fresh).sent)
    × (se'.queried ≡ [])
    × Delivers (eof ∷ []) [] se'.connection
read_message-rejects_example =
    read_message-rejects no_sum params fresh (codes "42") (codes "DENIED") [] [] [] (conn_of denied)
      (eof ∷ []) denied-Delivers (omega arith) (omega arith) denied-other info-fits refl

abbrev lists : List Bytes
lists =
    text (codes "42") []
    ∷ text (codes "APPROVED") []
    ∷ verdict_and_list params [] (0 ∷ []) two_servers

lists-Delivers : Delivers (eof ∷ []) lists (conn_of lists)
unfolding get_compact_string_buffer
lists-Delivers = one_chunk _ _ (omega arith) (omega arith) (
    one_chunk _ _ (omega arith) (omega arith) (
      one_chunk _ _ (omega arith) (omega arith) (
        one_chunk _ _ (omega arith) (omega arith) (
          one_chunk _ _ (omega arith) (omega arith)
            (one_chunk _ _ (omega arith) (omega arith) none_left)))))

read_message-lists_example :
    (se' : UtmsServerListEngine) × (read_message no_sum params
        (record fresh { connection = conn_of lists })
      ≡ ok se')
    × Queried se' (map query_address two_servers) (eof ∷ [])
read_message-lists_example =
    read_message-lists no_sum params fresh two_servers (codes "42") [] [] [] (0 ∷ [])
      (conn_of lists) (eof ∷ []) lists-Delivers (omega arith) info-fits
      ((omega arith, omega arith), ((omega arith, omega arith), tt)) (omega arith) refl

invoke-servers_example :
    (m : Monitor) × (sends : List Send) × (invoke no_sum params
        (λ k. k)
        (some (conn_of lists))
        7
        1
        init
      ≡ ok (m, sends))
    × Session.Listed (λ k. k) 1 (addresses_of two_servers) init m sends
invoke-servers_example =
    invoke-servers no_sum params (λ k. k) two_servers (codes "42") [] [] [] (0 ∷ []) (conn_of lists)
      (eof ∷ []) 7 1 init lists-Delivers (omega arith) info-fits
      ((omega arith, omega arith), ((omega arith, omega arith), tt)) (omega arith)
      (record { has_ip = tt; distinct = tt; attempts = tt })

-- A message of five bytes, whose length comes in a piece of one byte and one of three.
wait_for_data-split_length_example :
    wait_for_data
      (record fresh { connection = got (5 ∷ []) ∷ got (0 ∷ 0 ∷ 0 ∷ []) ∷ got (codes "abcde") ∷ [] })
    ≡ ok (record fresh {
      buffer = 0 ∷ 0 ∷ 0 ∷ take 2 (codes "abcde");
      connection = got (drop 2 (codes "abcde")) ∷ [];
    })
wait_for_data-split_length_example =
    wait_for_data-split_length fresh 1 (codes "abcde") [] (omega arith) (omega arith) (omega arith)
      (omega arith)
