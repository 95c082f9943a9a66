-- ===== src/Qr2/Query.antt =====
-- src/Engines/QR2/QR2QueryEngine.go: the query, and the reading of its answer. The engine reads
-- string(ch) of each byte, its UTF-8 form.
pub mod Pairs
pub mod Total
use os_serverlist_sync.Base.{
  ℕ, zero, suc, ◌+◌, ◌-◌, Bool, List, [], ◌∷◌, ◌++◌, Option, none, some, ltb, ◌==◌, if◌then◌else◌,
  length, take, drop, Result, ok, ◌>>=◌ as bind,
}
use os_serverlist_sync.Base.Bytes.{Bytes, string_of_byte}
use os_serverlist_sync.Base.Net.{AddrPort, UdpAddr, addr_port}
use os_serverlist_sync.Base.Props.{Props, insert}
use os_serverlist_sync.Listener.{Answer}
use os_serverlist_sync.Reader.{QueryParserState, Parser, pure, ◌>>=◌, read_byte}

-- The loop of `readString`; the first argument is `state.TotalLength - i`, the rounds left.
unfoldable pub string_loop : ℕ → Bytes → Parser Bytes
string_loop zero string_data = pure string_data
string_loop (suc left) string_data = do
  ch ← read_byte
  let more = string_loop left (string_data ++ string_of_byte ch)
  if ch == 0 then pure string_data else more

unfoldable pub read_string : Parser Bytes
read_string s = string_loop (s.total_length - s.current_offset) [] s

-- The loop over keys and values. A round that goes on has read a key of one byte at least, so
-- `TotalLength` rounds and one more are enough.
unfoldable pub pairs_loop : ℕ → Props → Parser Props
pairs_loop zero prop_map = pure prop_map
pairs_loop (suc fuel) prop_map = do
  server_key ← read_string
  server_value ← read_string
  let more = pairs_loop fuel (insert server_key server_value prop_map)
  if length server_key == 0 then pure prop_map else more

-- One round of `listen`, with the new receive buffer; `none` for `continue`.
unfoldable pub listen_step : Bytes → Bytes → UdpAddr → Result (Bytes × Option Answer)
listen_step buf datagram addr =
    let got = take (length buf) datagram in
    let buf_len = length got in
    let buf' = got ++ drop buf_len buf in
    let state : QueryParserState = record {
      total_length = buf_len;
      current_offset = 5;
      buffer = buf';
    } in
    if ltb buf_len 6
    then ok (buf', none)
    else bind (pairs_loop (buf_len + 1) [] state)
        λ r. ok (buf', some (record { source = addr; props = r.0; completed = addr_port addr }))

-- `Query`: the datagram of eleven bytes.
unfoldable pub query : Bytes
query = 0xfe ∷ 0xfd ∷ 0 ∷ 0 ∷ 0 ∷ 0 ∷ 0 ∷ 0xff ∷ 0 ∷ 0 ∷ 0 ∷ []
