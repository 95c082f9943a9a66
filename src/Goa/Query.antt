-- ===== src/Goa/Query.antt =====
-- src/Engines/GOA/GOA0QueryEngine.go: the query, and the answer, a text of keys and values behind
-- backslashes. An output handler is set; without one the engine drops what it receives.
pub mod Pairs
use os_serverlist_sync.Base.{
  ℕ, ◌+◌, ◌%◌, ◌||◌, List, [], ◌∷◌, none, some, ◌==◌, if◌then◌else◌, get_elem?, drop, take, Result,
  ok, ◌>>=◌, index_range, panic,
}
use os_serverlist_sync.Base.Bytes.{Bytes, codes, bytes_eq}
use os_serverlist_sync.Base.Net.{AddrPort, UdpAddr, addr_port}
use os_serverlist_sync.Base.Props.{Props, insert}
use os_serverlist_sync.Listener.{Answer}
use os_serverlist_sync.Base.Text.{split}

abbrev pub backslash : Bytes
backslash = b'\\' ∷ []

-- serverProps[i]
abbrev pub part : List Bytes → ℕ → Result Bytes
part server_props i = elim (get_elem? server_props i) [ some p ↦ ok p | none ↦ panic index_range ]

-- `for idx, v := range serverProps[1:]`: at an even index `lastKey = idx`, at an odd one the key is
-- `serverProps[lastKey+1]`. A key `final` or `queryid` is left out.
unfoldable pub props_loop : List Bytes → ℕ → ℕ → List Bytes → Props → Result Props
props_loop server_props last_key idx [] prop_map = ok prop_map
props_loop server_props last_key idx (v ∷ vs) prop_map =
    let at_key = props_loop server_props idx (idx + 1) vs prop_map in
    if idx % 2 == 0 then at_key else (do
      key_name ← part server_props (last_key + 1)
      props_loop server_props last_key (idx + 1) vs (
          if bytes_eq key_name (codes "final") || bytes_eq key_name (codes "queryid")
          then prop_map
          else insert key_name v prop_map))

-- One round of `listen`: `buf[:len]`, a datagram cut at the length of the buffer.
unfoldable pub listen_step : ℕ → Bytes → UdpAddr → Result Answer
listen_step size datagram addr = do
  let server_props = split (take size datagram) backslash
  props ← props_loop server_props 0 0 (drop 1 server_props) []
  ok (record { source = addr; props = props; completed = addr_port addr })

-- `Query`: the datagram.
unfoldable pub query : Bytes
query = codes "\\status\\"
