-- ===== src/Goa/ServerList/Session.antt =====
-- The whole conversation with a master server, for both forms of its list.
use os_serverlist_sync.Base.{false, List, ◌∷◌, ◌++◌, map, Option, some, ◌≡◌, refl, All, ok}
use os_serverlist_sync.Base.Bytes.{Bytes}
use os_serverlist_sync.Base.Conn.{Read, got}
use os_serverlist_sync.Base.Net.{AddrPort}
use os_serverlist_sync.Goa.ServerList.{
  ServerListEngineParams, challenge_of, auth_query, list_query, reply_buffer, think,
}
use os_serverlist_sync.Goa.ServerList.Records.{
  Listed, IsListed, address, list_reads, read_compressed-records,
}

module _ (gsmsalg : Bytes → Bytes) (parse_addr_port : Bytes → Option AddrPort)
    (params : ServerListEngineParams) where
  -- The conversation for a compressed list: if the greeting holds a challenge, and the master server then
  -- sends its servers in records of six bytes, each read by one `Read`, with numbers that fit, none of
  -- them the text `\final`, and then `\final`, then `think` writes the answer to the challenge and the
  -- request, and the servers go to `BeginQuery`, in order.
  think-compressed :
      (greeting challenge : Bytes) (ls : List Listed) (end : List Read)
      → params.no_compressed_list ≡ false
      → challenge_of params (reply_buffer greeting) ≡ ok (some challenge)
      → All IsListed ls
      → think gsmsalg parse_addr_port params (got greeting ∷ list_reads ls end)
        ≡ ok (some (auth_query params (gsmsalg challenge) ++ list_query params, map address ls))
  unfolding think
  think-compressed greeting challenge ls end packed found h =
      rw (found, packed, read_compressed-records _ ls end refl h) refl
