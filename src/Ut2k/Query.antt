-- ===== src/Ut2k/Query.antt =====
-- src/Engines/UT2K/UT2KQueryEngine.go: the basic-info query and the answer to it. The answer is read
-- from the whole receive buffer, whose bytes behind the datagram are left from earlier ones.
pub mod Compact
pub mod Strings
pub mod Response
pub mod Listen
pub mod Completion
use os_serverlist_sync.Base.{
  ℕ, zero, suc, ◌+◌, ◌-◌, ◌*◌, ◌/◌, Bool, true, false, not, ◌&&◌, List, [], ◌∷◌, ◌++◌, Option, none,
  some, ltb, ◌==◌, bit_and, if◌then◌else◌, length, take, drop, set, Result, ok, panic, index_range,
  ◌>>=◌ as bind,
}
use os_serverlist_sync.Base.Bits.{has_bit}
use os_serverlist_sync.Base.Bytes.{Bytes, codes, itoa, string_of_byte, put_uint32_be}
use os_serverlist_sync.Base.Int.{pred}
use os_serverlist_sync.Base.Net.{AddrPort, UdpAddr, addr_port}
use os_serverlist_sync.Base.Props.{Props, insert}
use os_serverlist_sync.Listener.{Answer}
use os_serverlist_sync.Reader.{
  QueryParserState, Parser, pure, ◌>>=◌, ◌>>◌, slice, uint32_le, skip, read_byte, read_uint32,
}

abbrev pub ut2004_version : ℕ
ut2004_version = 128

-- The nested ifs of `readCompactInt` from B[1] on: below the last byte the reading goes on while
-- the top bit is set, `B[4]` counts whole.
unfoldable pub read_tail : ℕ → Parser ℕ
read_tail zero = read_byte
read_tail (suc k) = do
  b ← read_byte
  length ← (if has_bit b 0x80 then read_tail k else pure 0)
  pure (length * 128 + bit_and b 0x7f)

unfoldable pub read_compact_int : Parser ℕ
read_compact_int = do
  b ← read_byte
  length ← (if has_bit b 0x40 then read_tail 3 else pure 0)
  let length' = length * 64 + bit_and b 0x3f
  pure (if has_bit b 0x80 then length' * 2 else length')

-- The loop of `readCompactString`, with `left` for `length - i`. Each round takes one off `left` at
-- least, so `left` rounds are enough fuel.
unfoldable pub string_loop : ℕ → ℕ → Bytes → Parser Bytes
string_loop zero left string_data = pure string_data
string_loop (suc fuel) left string_data =
    let colour = skip 3 >> string_loop fuel (left - 4) string_data in
    let more = λ (ch : ℕ). string_loop fuel (left - 1) (string_data ++ string_of_byte ch) in
    if left == 0 then pure string_data else (do
      ch ← read_byte
      if ch == 0 then pure string_data else if ch == 0x1b then colour else more ch)

unfoldable pub read_compact_string : Parser Bytes
read_compact_string = do length ← read_compact_int; string_loop length length []

-- The part of `handleResponse` behind the checks: the properties.
unfoldable pub read_props : ℕ → Parser Props
read_props version = do
  skip 4
  read_compact_string
  skip 4
  skip 4
  hostname ← read_compact_string
  level ← read_compact_string
  gamegroup ← read_compact_string
  num_players ← read_uint32
  max_players ← read_uint32
  skip 4
  let m1 = insert (codes "hostname") hostname []
  let m2 = insert (codes "mapname") level m1
  let m3 = insert (codes "gametype") gamegroup m2
  let m4 = insert (codes "numplayers") (itoa num_players) m3
  let m5 = insert (codes "maxplayers") (itoa max_players) m4
  m6 ←
      (if version == ut2004_version
        then (do skip 4; skill ← read_compact_string; pure (insert (codes "botlevel") skill m5))
        else pure m5)
  let m7 =
      insert (codes "freespace") (if ltb num_players max_players then codes "1" else codes "0") m6
  let m8 = insert (codes "currentplayers") (itoa num_players) m7
  let m9 = insert (codes "standard") (codes "true") m8
  pure (insert (codes "nomutators") (codes "false") m9)

-- `gamePortAddress` is `sourceAddress` itself, a pointer: the port is taken down for both.
unfoldable pub answer_from : UdpAddr → Props → Answer
answer_from source_address props =
    let game_port_address = record source_address { port = pred source_address.port } in
    record { source = game_port_address; props = props; completed = addr_port game_port_address }

-- `handleResponse`; `none` where it returns early.
unfoldable pub handle_response : ℕ → UdpAddr → QueryParserState → Result (Option Answer)
handle_response version_id source_address state =
    bind (slice state.buffer state.current_offset 4) λ head. bind (uint32_le head) λ version.
      let s1 = record state { current_offset = state.current_offset + 4 } in
      if not (version == version_id)
      then ok none
      else bind (read_byte s1) (λ r.
        if not (r.0 == 0)
        then ok none
        else bind (read_props version r.1) (λ t. ok (some (answer_from source_address t.0))))

-- One round of `listen`: `ReadFrom` writes the datagram, cut at the length of the buffer, to its
-- front, and `buf[len] = 0`.
unfoldable pub listen_step : ℕ → Bytes → Bytes → UdpAddr → Result (Bytes × Option Answer)
listen_step version_id buf datagram addr =
    let got = take (length buf) datagram in
    let len = length got in
    if ltb len (length buf)
    then (let buf' = set (got ++ drop len buf) len 0 in
        let state : QueryParserState = record {
          total_length = len;
          current_offset = 0;
          buffer = buf';
        } in
        bind (handle_response version_id addr state) (λ a. ok (buf', a)))
    else panic index_range

-- `Query`: the datagram.
unfoldable pub query : ℕ → Bytes
query version_id = put_uint32_be version_id ++ 0x00 ∷ []
