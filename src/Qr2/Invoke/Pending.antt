-- ===== src/Qr2/Invoke/Pending.antt =====
-- What is pending behind a session.
use os_serverlist_sync.Base.{
  false, ℕ, ◌+◌, ◌≤◌, ◌<◌, List, [], ◌∷◌, ◌++◌, some, map, ◌≡◌, refl, sym, ap, ◌∙◌, All, length,
  if◌then◌else◌, ok,
}
use os_serverlist_sync.Base.Bits.{has_bit}
use os_serverlist_sync.Base.Bytes.{Bytes}
use os_serverlist_sync.Base.Conn.{Read}
use os_serverlist_sync.ListEngine.Session as Session
use os_serverlist_sync.ListEngine.Session.{at_all, invoke-session}
use os_serverlist_sync.Monitor.{Monitor, Send}
use os_serverlist_sync.Monitor.Matching.{IsValid}
use os_serverlist_sync.Qr2.Invoke.{start, session, ends_early, invoke}
use os_serverlist_sync.Qr2.ServerList.{challenge_text, nonstandard_port_flag}
use os_serverlist_sync.Qr2.ServerList.Parts.{fields_of}
use os_serverlist_sync.Qr2.ServerList.Records.{
  Listed, IsListed, Head, IsHead, list_bytes, query_address,
}
use os_serverlist_sync.Qr2.ServerList.Session.{request_body, header_bytes, write_list_request-lists}
use os_serverlist_sync.Qr2.Stream.{Cipher, ServerListEngineParams}
use os_serverlist_sync.Qr2.Stream.Rules.{IsStream, Sees}

-- The addresses of a list.
abbrev pub addresses_of : ℕ → List Listed → List (ℕ × ℕ)
addresses_of default_port =
    map (λ l. (l.ip, if has_bit l.flags nonstandard_port_flag then l.port else default_port))

at_all-addresses_of :
    (default_port : ℕ) (ls : List Listed)
    → at_all (addresses_of default_port ls) ≡ map (query_address default_port) ls
at_all-addresses_of default_port [] = refl
at_all-addresses_of default_port (l ∷ ls) =
    ap (◌∷◌ (query_address default_port l)) (at_all-addresses_of default_port ls)

-- A session with a valid monitor: if the request fits its buffer of 256 bytes, and the server answers with
-- a header of two strings of less than 256 bytes and a list that is encoded with the key that the
-- header, the secret key and the challenge make, then `Invoke` does not panic and the monitor stays
-- valid, the running engines are those that ran before, a query is pending exactly if it was before
-- or its server is in the list, and `Query` was called once for each server of the list that was not
-- pending, in order.
pub invoke-lists :
    (C : Cipher)
    → IsStream C
    → (params : ServerListEngineParams) (clock : ℕ → ℕ) (end conn : List Read)
    → (random key encoded rest : Bytes) (d : Head) (ls : List Listed) (last_flags : ℕ)
    → (list_engine engine : ℕ) (m : Monitor) → length (request_body params) + 2 ≤ 256
    → length random < 256
    → length key < 256
    → Sees C end (start C conn) (header_bytes random key ++ encoded)
    → (C.func6 (C.funcx params.secretkey challenge_text key) encoded).0
      ≡ list_bytes d ls last_flags ++ rest
    → IsHead d
    → All (IsListed (fields_of d.names)) ls
    → IsValid m
    → (m' : Monitor) × (sends : List Send) × (invoke C params clock (some conn) list_engine engine m
        ≡ ok (m', sends))
      × Session.Listed clock engine (addresses_of d.default_port ls) m m' sends
unfolding invoke session ends_early
invoke-lists C law params clock end conn random key encoded rest d ls last_flags list_engine engine
      m fits hr hk h decoded hd hls v =
    let (se', e, _, queried, after) =
      write_list_request-lists C law params end (start C conn) random key encoded rest d ls
        last_flags fits hr hk refl h decoded hd hls in
    let found : session C params conn ≡ ok (at_all (addresses_of d.default_port ls)) =
      rw e (ap ok (queried ∙ sym (at_all-addresses_of d.default_port ls))) in
    let early : ends_early C params conn ≡ ok false = rw e (ap ok after.no_error) in
    let (m', sends, run, l) =
      invoke-session (session C params) clock conn (addresses_of d.default_port ls) list_engine
        engine m found v in
    (m', sends, rw (early, run) refl, l)
