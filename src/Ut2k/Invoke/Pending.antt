-- ===== src/Ut2k/Invoke/Pending.antt =====
-- What is pending behind a conversation with a master server.
use os_serverlist_sync.Base.{
  ℕ, ◌≤◌, ◌<◌, ◌^◌, List, [], ◌∷◌, some, map, ◌≡◌, refl, sym, ap, ◌∙◌, All, length, ok,
}
use os_serverlist_sync.Base.Bytes.{Bytes, codes}
use os_serverlist_sync.Base.Conn.{Read}
use os_serverlist_sync.ListEngine.Session as Session
use os_serverlist_sync.ListEngine.Session.{at_all, invoke-session}
use os_serverlist_sync.Monitor.{Monitor, Send}
use os_serverlist_sync.Monitor.Matching.{IsValid}
use os_serverlist_sync.Ut2k.Invoke.{start, session, invoke}
use os_serverlist_sync.Ut2k.MasterServer.{UtmsServerListEngineParams}
use os_serverlist_sync.Ut2k.MasterServer.ClientInfo.{client_info}
use os_serverlist_sync.Ut2k.MasterServer.Handshake.{text, verdict_and_list, read_message-lists}
use os_serverlist_sync.Ut2k.MasterServer.Messages.{Delivers}
use os_serverlist_sync.Ut2k.MasterServer.Servers.{Listed, IsListed, query_address}

-- The addresses of a list, with the query ports.
abbrev pub addresses_of : List Listed → List (ℕ × ℕ)
addresses_of = map (λ l. (l.ip, l.query_port))

at_all-query_address : (ls : List Listed) → at_all (addresses_of ls) ≡ map query_address ls
at_all-query_address [] = refl
at_all-query_address (l ∷ ls) = ap (◌∷◌ (query_address l)) (at_all-query_address ls)

module _ (md5_hex : Bytes → Bytes) (params : UtmsServerListEngineParams) where
  -- A conversation with a valid monitor: if the master server sends a challenge shorter than 255
  -- bytes, `APPROVED`, `VERIFIED` for a client from version 3000 on, the number of servers and one
  -- message for each, the four bytes of each message's length in one `Read` and its other bytes in
  -- chunks of any size but none, the client's message fits its buffer, each address has 32 bits and
  -- each port 16, then `Invoke` does not panic and the monitor stays valid, the running engines are
  -- those that ran before, a query is pending exactly if it was before or its server is in the
  -- list, at its query port, and `Query` was called once for each server of the list that was not
  -- pending, in order.
  pub invoke-servers :
      (clock : ℕ → ℕ) (ls : List Listed) (c m n v more : Bytes) (conn end : List Read)
      → (list_engine engine : ℕ) (monitor : Monitor)
      → Delivers end (text c m ∷ text (codes "APPROVED") n ∷ verdict_and_list params v more ls) conn
      → length c < 255
      → length (client_info md5_hex params c) ≤ 256
      → All IsListed ls
      → length ls < 2 ^ 32
      → IsValid monitor
      → (monitor' : Monitor) × (sends : List Send) × (invoke md5_hex params clock
            (some conn)
            list_engine
            engine
            monitor
          ≡ ok (monitor', sends))
        × Session.Listed clock engine (addresses_of ls) monitor monitor' sends
  unfolding session
  invoke-servers clock ls c m n v more conn end list_engine engine monitor d hc h hl hn valid =
      let (se', e, q) =
        read_message-lists md5_hex params (start []) ls c m n v more conn end d hc h hl hn refl in
      let found : session md5_hex params conn ≡ ok (at_all (addresses_of ls)) =
        rw e (ap ok (q.0 ∙ sym (at_all-query_address ls))) in
      invoke-session (session md5_hex params) clock conn (addresses_of ls) list_engine engine
        monitor found valid
