-- ===== src/Samp/Query.antt =====
-- src/Engines/SAMP/SAMPQueryEngine.go: the information query and the reading of its answer, which
-- takes three lengths from the datagram.
pub mod Answers
use os_serverlist_sync.Base.{
  ℕ, ◌+◌, ◌-◌, ◌*◌, ◌/◌, ◌%◌, ◌^◌, Bool, not, ◌||◌, List, [], ◌∷◌, ◌++◌, Option, none, some, ltb,
  ◌==◌, if◌then◌else◌, length, take, drop, Result, ok, ◌>>=◌ as bind,
}
use os_serverlist_sync.Base.Bytes.{Bytes, codes, itoa, put_uint16_le}
use os_serverlist_sync.Base.Int.{ℤ, itoa_int}
use os_serverlist_sync.Base.Net.{AddrPort, UdpAddr, as4, addr_port}
use os_serverlist_sync.Base.Props.{Props, insert}
use os_serverlist_sync.Listener.{Answer}
use os_serverlist_sync.Reader.{
  QueryParserState, Parser, pure, ◌>>=◌, index, read_byte, read_uint16, read_uint32, read_slice,
}

-- The four bytes of an IPv4 address.
abbrev pub ip_bytes : ℕ → Bytes
ip_bytes ip = (ip / 16777216 % 256) ∷ (ip / 65536 % 256) ∷ (ip / 256 % 256) ∷ (ip % 256) ∷ []

-- `Query`: the datagram of eleven bytes; `As4` panics on an address that is not IPv4.
unfoldable pub query : AddrPort → Result Bytes
query destination = bind (as4 destination.addr) λ ip.
    ok (0x53 ∷ 0x41 ∷ 0x4d ∷ 0x50 ∷ (ip_bytes ip ++ (put_uint16_le destination.port ++ b'i' ∷ [])))

-- The reading from byte 11 on.
unfoldable pub read_props : ℤ → Parser Props
read_props port = do
  let m1 = insert (codes "hostport") (itoa_int port) []
  password ← read_byte
  let m2 = insert (codes "password") (if password == 0 then codes "0" else codes "1") m1
  players ← read_uint16
  let m3 = insert (codes "numplayers") (itoa players) m2
  max_players ← read_uint16
  let m4 = insert (codes "maxplayers") (itoa max_players) m3
  hostname_len ← read_uint32
  hostname ← read_slice hostname_len
  let m5 = insert (codes "hostname") hostname m4
  gamemode_len ← read_uint32
  gamemode ← read_slice gamemode_len
  let m6 = insert (codes "gamemode") gamemode m5
  language_len ← read_uint32
  language ← read_slice language_len
  pure (insert (codes "gamevariant") language m6)

-- `buf[0] != 0x53 || buf[1] != 0x41 || buf[2] != 0x4D || buf[3] != 0x50`
unfoldable pub is_foreign : Bytes → Result Bool
is_foreign buf = bind (index buf 0) λ b0. bind (index buf 1) λ b1. bind (index buf 2) λ b2.
    bind (index buf 3)
      λ b3. ok (not (b0 == 0x53) || not (b1 == 0x41) || not (b2 == 0x4d) || not (b3 == 0x50))

-- One round of `listen`, with the new receive buffer; `none` for `continue`.
unfoldable pub listen_step : Bytes → Bytes → UdpAddr → Result (Bytes × Option Answer)
listen_step buf datagram addr =
    let got = take (length buf) datagram in
    let len = length got in
    let buf' = got ++ drop len buf in
    let state : QueryParserState = record {
      total_length = len;
      current_offset = 11;
      buffer = buf';
    } in
    if ltb len 11
    then ok (buf', none)
    else bind (is_foreign buf') λ foreign.
      if foreign
      then ok (buf', none)
      else bind (read_props addr.port state)
          λ r. ok (buf', some (record { source = addr; props = r.0; completed = addr_port addr }))
