-- ===== src/Ut2k/MasterServer/Handshake.antt =====
-- The whole conversation with a master server that lets the client in, and its end at one that does
-- not.
use os_serverlist_sync.Base.{
  go_on, ◌≤◌, ◌<◌, ◌^◌, Bool, true, false, not, List, [], ◌∷◌, ◌++◌, map, ◌≡◌, ◌≢◌, refl, arith,
  leb, if◌then◌else◌, All, length, ok, ◌>>=◌,
}
use os_serverlist_sync.Base.Bytes.{Bytes, codes, bytes_eq, bytes_eq_iff, bytes_eq_refl}
use os_serverlist_sync.Base.Conn.{Read}
use os_serverlist_sync.Ut2k.MasterServer.{
  UtmsServerListEngineParams, UtmsServerListEngine, get_compact_string_buffer, read_challenge,
  read_validation, read_verification, verification_data, send_buffer, send_list_request,
  request_list, read_message, fail_with,
}
use os_serverlist_sync.Ut2k.MasterServer.ClientInfo.{client_info, write_client_info-fits}
use os_serverlist_sync.Ut2k.MasterServer.Messages.{
  Delivers, wait_for_data-Delivers, read_compact_string-compact,
}
use os_serverlist_sync.Ut2k.MasterServer.Servers.{
  Listed, IsListed, listed_bytes, query_address, list_head, Queried, read_list_response-Delivers,
}

-- A string in a message, with more behind it.
abbrev pub text : Bytes → Bytes → Bytes
text s more = get_compact_string_buffer s ++ more

module _ (md5_hex : Bytes → Bytes) (params : UtmsServerListEngineParams) where
  read_challenge-Delivers :
      (se : UtmsServerListEngine) (c more : Bytes) (ms : List Bytes) (conn end : List Read)
      → Delivers end (text c more ∷ ms) conn
      → length c < 255
      → length (client_info md5_hex params c) ≤ 256
      → se.got_fatal_error ≡ false
      → (rest : List Read) × (read_challenge md5_hex params (record se { connection = conn })
          ≡ ok (
              send_buffer (client_info md5_hex params c) (record se {
                buffer = text c more;
                current_offset = 1;
                challenge = c;
                connection = rest;
              })))
        × Delivers end ms rest
  unfolding read_challenge
  read_challenge-Delivers se c more ms conn end d n h b =
      let (rest, e, d') = wait_for_data-Delivers se (text c more) ms conn end d in
      let word = read_compact_string-compact (record se { connection = rest }) c more n in
      let info =
        write_client_info-fits md5_hex params
          (record se { buffer = text c more; current_offset = 1; challenge = c; connection = rest })
          h in
      (rest, rw e (go_on _ b (rw word info)), d')

  read_validation-Delivers :
      (se : UtmsServerListEngine) (s more : Bytes) (ms : List Bytes) (conn end : List Read)
      → Delivers end (text s more ∷ ms) conn
      → length s < 255
      → se.got_fatal_error ≡ false
      → (rest : List Read) × (read_validation params (record se { connection = conn })
          ≡ ok (
              let se1 : UtmsServerListEngine = record se {
                buffer = text s more;
                current_offset = 1;
                connection = rest;
              } in
              if not (bytes_eq s (codes "APPROVED"))
              then fail_with se1
              else if leb 3000 params.client_version
              then send_buffer verification_data se1
              else se1))
        × Delivers end ms rest
  unfolding read_validation
  read_validation-Delivers se s more ms conn end d n b =
      let (rest, e, d') = wait_for_data-Delivers se (text s more) ms conn end d in
      let word = read_compact_string-compact (record se { connection = rest }) s more n in
      (rest, rw e (go_on _ b (rw word refl)), d')

read_verification-Delivers :
    (se : UtmsServerListEngine) (more : Bytes) (ms : List Bytes) (conn end : List Read)
    → Delivers end (text (codes "VERIFIED") more ∷ ms) conn
    → se.got_fatal_error ≡ false
    → (rest : List Read) × (read_verification (record se { connection = conn })
        ≡ ok (record se {
          buffer = text (codes "VERIFIED") more;
          current_offset = 1;
          connection = rest;
        }))
      × Delivers end ms rest
unfolding read_verification
read_verification-Delivers se more ms conn end d b =
    let (rest, e, d') = wait_for_data-Delivers se (text (codes "VERIFIED") more) ms conn end d in
    let word =
      read_compact_string-compact (record se { connection = rest }) (codes "VERIFIED") more
        (omega arith) in
    (rest, rw e (go_on _ b (rw (word, bytes_eq_refl (codes "VERIFIED")) refl)), d')

request_list-Delivers :
    (se : UtmsServerListEngine) (ls : List Listed) (more : Bytes) (conn end : List Read)
    → Delivers end (list_head (length ls) more ∷ map listed_bytes ls) conn
    → All IsListed ls
    → length ls < 2 ^ 32
    → se.got_fatal_error ≡ false
    → (se' : UtmsServerListEngine) × (request_list (record se { connection = conn }) ≡ ok se')
      × Queried se' (se.queried ++ map query_address ls) end
unfolding request_list send_list_request send_buffer
request_list-Delivers se ls more conn end d hl hn b =
    let (se', e, q) =
      read_list_response-Delivers (send_list_request se) ls more conn end d hl hn b in
    (se', go_on _ b e, q)

-- The conversation behind an approval, for a client from version 3000 on and for an older one.
approved-Delivers :
    (recent : Bool) (se : UtmsServerListEngine) (ls : List Listed) (v more : Bytes)
    (conn end : List Read)
    → Delivers end
        ((if recent then text (codes "VERIFIED") v ∷ [] else [])
          ++ (list_head (length ls) more ∷ map listed_bytes ls))
        conn
    → All IsListed ls
    → length ls < 2 ^ 32
    → se.got_fatal_error ≡ false
    → (se' : UtmsServerListEngine) × (let se1 : UtmsServerListEngine = record se {
      connection = conn;
    } in
        let se2 = if recent then send_buffer verification_data se1 else se1 in
        (if se2.got_fatal_error
          then ok se2
          else if recent
          then (read_verification se2 >>= λ se3.
              if se3.got_fatal_error then ok se3 else request_list se3)
          else request_list se2)
        ≡ ok se')
      × Queried se' (se.queried ++ map query_address ls) end
unfolding send_buffer
approved-Delivers true se ls v more conn end d hl hn b =
    let (rest, e, d') =
      read_verification-Delivers (send_buffer verification_data se) v
        (list_head (length ls) more ∷ map listed_bytes ls) conn end d b in
    let (se', e', q) =
      request_list-Delivers
        (record (send_buffer verification_data se) {
          buffer = text (codes "VERIFIED") v;
          current_offset = 1;
        })
        ls more rest end d' hl hn b in
    (se', go_on _ b (rw e (go_on _ b e')), q)
approved-Delivers false se ls v more conn end d hl hn b =
    let (se', e', q) = request_list-Delivers se ls more conn end d hl hn b in (se', go_on _ b e', q)

-- What the master server sends to a client that it approves: the verdict on the verification, which it
-- sends to clients from version 3000 on, and the list.
abbrev pub verdict_and_list : UtmsServerListEngineParams → Bytes → Bytes → List Listed → List Bytes
verdict_and_list params v more ls =
    (if leb 3000 params.client_version then text (codes "VERIFIED") v ∷ [] else [])
    ++ (list_head (length ls) more ∷ map listed_bytes ls)

module _ (md5_hex : Bytes → Bytes) (params : UtmsServerListEngineParams) where
  -- A master server that does not approve is left: if the connection brings a challenge and then a
  -- status that is not `APPROVED`, both shorter than 255 bytes, the length of each message in one
  -- `Read`, and the client's message fits its buffer, then `readMessage` ends with a fatal error,
  -- only the client's message has been sent, no address goes to `BeginQuery`, and the messages
  -- behind the status are not read.
  pub read_message-rejects :
      (se : UtmsServerListEngine) (c s m n : Bytes) (ms : List Bytes) (conn end : List Read)
      → Delivers end (text c m ∷ text s n ∷ ms) conn
      → length c < 255
      → length s < 255
      → s ≢ codes "APPROVED"
      → length (client_info md5_hex params c) ≤ 256
      → se.got_fatal_error ≡ false
      → (se' : UtmsServerListEngine) × (read_message md5_hex params
            (record se { connection = conn })
          ≡ ok se')
        × (se'.got_fatal_error ≡ true)
        × (se'.sent ≡ (send_buffer (client_info md5_hex params c) se).sent)
        × (se'.queried ≡ se.queried)
        × Delivers end ms se'.connection
  unfolding read_message send_buffer
  read_message-rejects se c s m n ms conn end d hc hs other h b =
      let (r1, e1, d1) =
        read_challenge-Delivers md5_hex params se c m (text s n ∷ ms) conn end d hc h b in
      let se1 : UtmsServerListEngine =
        send_buffer (client_info md5_hex params c)
          (record se { buffer = text c m; current_offset = 1; challenge = c }) in
      let (r2, e2, d2) = read_validation-Delivers md5_hex params se1 s n ms r1 end d1 hs b in
      let refused : bytes_eq s (codes "APPROVED") ≡ false =
        ground (arith, bytes_eq_iff s (codes "APPROVED"), other) in
      let se' : UtmsServerListEngine =
        fail_with (record se1 { buffer = text s n; current_offset = 1; connection = r2 }) in
      (se', rw (e1, e2, refused) refl, refl, refl, refl, d2)

  -- The whole conversation: if the connection brings a challenge shorter than 255 bytes,
  -- `APPROVED`, `VERIFIED` for a client from version 3000 on, the number of servers and one message
  -- for each, the four bytes of each message's length in one `Read` and its other bytes in chunks
  -- of any size but none, if the client's message fits its buffer, each address has 32 bits and
  -- each port 16, then `readMessage` returns with no error and the servers' addresses with their
  -- query ports have gone to `BeginQuery`, in order.
  pub read_message-lists :
      (se : UtmsServerListEngine) (ls : List Listed) (c m n v more : Bytes) (conn end : List Read)
      → Delivers end (text c m ∷ text (codes "APPROVED") n ∷ verdict_and_list params v more ls) conn
      → length c < 255
      → length (client_info md5_hex params c) ≤ 256
      → All IsListed ls
      → length ls < 2 ^ 32
      → se.got_fatal_error ≡ false
      → (se' : UtmsServerListEngine) × (read_message md5_hex params
            (record se { connection = conn })
          ≡ ok se')
        × Queried se' (se.queried ++ map query_address ls) end
  unfolding read_message send_buffer request_list send_list_request
  read_message-lists se ls c m n v more conn end d hc h hl hn b =
      let (r1, e1, d1) =
        read_challenge-Delivers md5_hex params se c m
          (text (codes "APPROVED") n ∷ verdict_and_list params v more ls) conn end d hc h b in
      let se1 : UtmsServerListEngine =
        send_buffer (client_info md5_hex params c)
          (record se { buffer = text c m; current_offset = 1; challenge = c }) in
      let (r2, e2, d2) =
        read_validation-Delivers md5_hex params se1 (codes "APPROVED") n
          (verdict_and_list params v more ls) r1 end d1 (omega arith) b in
      let approved = bytes_eq_refl (codes "APPROVED") in
      let (se', e, q) =
        approved-Delivers (leb 3000 params.client_version)
          (record se1 { buffer = text (codes "APPROVED") n; current_offset = 1 }) ls v more r2 end
          d2 hl hn b in
      (se', rw (e1, e2, approved) e, q)
