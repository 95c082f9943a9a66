-- ===== src/Ut2k/MasterServer/Servers.antt =====
-- The list of servers: one message with their number, one message for each.
use os_serverlist_sync.Base.{
  go_on, ℕ, ◌+◌, ◌*◌, ◌/◌, ◌%◌, ◌<◌, ◌^◌, false, List, [], ◌∷◌, ◌++◌, map, ◌≡◌, refl, sym, ◌∙◌,
  arith, All, length, append_assoc, append-nil, ok,
}
use os_serverlist_sync.Base.Bytes.{Bytes, put_uint16_le, put_uint32_le, put_uint32_be}
use os_serverlist_sync.Base.Conn.{Read}
use os_serverlist_sync.Base.Net.{v4, AddrPort}
use os_serverlist_sync.Reader.{index, slice, slice_from, uint32_le}
use os_serverlist_sync.Reader.Rules.{from_le, uint16_from_le}
use os_serverlist_sync.Ut2k.MasterServer.{
  UtmsServerListEngine, read_server, read_servers, read_list_response,
}
use os_serverlist_sync.Ut2k.MasterServer.Messages.{Delivers, none_left, wait_for_data-Delivers}

-- A server as the master server lists it; more data may stand behind it.
pub record Listed : Type 0 where
  pub ip : ℕ
  pub game_port : ℕ
  pub query_port : ℕ
  pub more : Bytes

abbrev pub IsListed : Listed → Type 0
IsListed l = (l.ip < 2 ^ 32) × (l.query_port < 2 ^ 16)

abbrev pub listed_bytes : Listed → Bytes
listed_bytes l =
    put_uint32_be l.ip ++ (put_uint16_le l.game_port ++ (put_uint16_le l.query_port ++ l.more))

abbrev pub query_address : Listed → AddrPort
query_address l = record { addr = v4 l.ip; port = l.query_port }

-- What stands behind the number of servers: whether the list is compressed, which is skipped.
abbrev pub list_head : ℕ → Bytes → Bytes
list_head n more = put_uint32_le n ++ more

read_server-listed :
    (se : UtmsServerListEngine) (l : Listed)
    → IsListed l
    → read_server (record se { buffer = listed_bytes l; current_offset = 0 })
      ≡ ok (record se {
        buffer = listed_bytes l;
        current_offset = 6;
        queried = se.queried ++ (query_address l ∷ []);
      })
unfolding read_server index slice_from
read_server-listed se l h =
    let port = uint16_from_le l.query_port l.more h.1 in
    let ip : l.ip / 16777216 % 256 * 16777216
          + l.ip / 65536 % 256 * 65536
          + l.ip / 256 % 256 * 256
          + l.ip % 256
        ≡ l.ip =
      omega (arith, h.0) in
    let behind : slice_from (listed_bytes l) 6 ≡ ok (put_uint16_le l.query_port ++ l.more) =
      ground arith in
    rw (ip, behind, port) refl

-- How the engine stands behind a list.
abbrev pub Queried : UtmsServerListEngine → List AddrPort → List Read → Type 0
Queried se addrs end = (se.queried ≡ addrs) × (se.connection ≡ end) × (se.got_fatal_error ≡ false)

read_servers-Delivers :
    (se : UtmsServerListEngine) (ls : List Listed) (conn end : List Read)
    → Delivers end (map listed_bytes ls) conn
    → All IsListed ls
    → se.got_fatal_error ≡ false
    → (se' : UtmsServerListEngine) × (read_servers (length ls) (record se { connection = conn })
        ≡ ok se')
      × Queried se' (se.queried ++ map query_address ls) end
unfolding read_servers
read_servers-Delivers se [] conn end none_left h b =
    (record se { connection = end }, refl, (sym (append-nil se.queried), refl, b))
read_servers-Delivers se (l ∷ ls) conn end d h b =
    let (rest, e, d') =
      wait_for_data-Delivers se (listed_bytes l) (map listed_bytes ls) conn end d in
    let server = read_server-listed (record se { connection = rest }) l h.0 in
    let (se', e', q) =
      read_servers-Delivers
        (record se {
          buffer = listed_bytes l;
          current_offset = 6;
          queried = se.queried ++ (query_address l ∷ []);
        })
        ls rest end d' h.1 b in
    let order = append_assoc se.queried (query_address l ∷ []) (map query_address ls) in
    (se', rw e (go_on _ b (rw server e')), (q.0 ∙ order, q.1, q.2))

-- The list is read whole: if no error stands before, the connection brings a message with the
-- number of servers and then one message for each, the length of each in one `Read` and its other
-- bytes in chunks of any size but none, and each address has 32 bits and each port 16, then
-- `readListResponse` returns with no error, the servers' addresses with their query ports, not
-- their game ports, have gone to `BeginQuery` in order, and no more of the connection is read.
pub read_list_response-Delivers :
    (se : UtmsServerListEngine) (ls : List Listed) (more : Bytes) (conn end : List Read)
    → Delivers end (list_head (length ls) more ∷ map listed_bytes ls) conn
    → All IsListed ls
    → length ls < 2 ^ 32
    → se.got_fatal_error ≡ false
    → (se' : UtmsServerListEngine) × (read_list_response (record se { connection = conn }) ≡ ok se')
      × Queried se' (se.queried ++ map query_address ls) end
unfolding read_list_response slice
read_list_response-Delivers se ls more conn end d h n b =
    let (rest, e, d') =
      wait_for_data-Delivers se (list_head (length ls) more) (map listed_bytes ls) conn end d in
    let number : uint32_le (put_uint32_le (length ls)) ≡ ok (length ls) =
      from_le (length ls) [] n in
    let (se', e', q) =
      read_servers-Delivers (record se { buffer = list_head (length ls) more; current_offset = 5 })
        ls rest end d' h b in
    let first : slice (list_head (length ls) more) 0 4 ≡ ok (put_uint32_le (length ls)) =
      ground arith in
    (se', rw e (go_on _ b (rw (first, number) e')), q)
