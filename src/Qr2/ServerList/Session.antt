-- ===== src/Qr2/ServerList/Session.antt =====
-- The whole conversation: the request, the cryptographic header, and the encoded list.
use os_serverlist_sync.Base.{
  go_on, ℕ, ◌+◌, ◌≤◌, ◌<◌, true, List, [], ◌∷◌, ◌++◌, some, none, map, ◌≡◌, refl, ap, subst, ◌∙◌,
  arith, leb, All, length, append-nil, append_assoc, ok, bit_xor,
}
use os_serverlist_sync.Base.Bits.{xor_ec, xor_ea}
use os_serverlist_sync.Base.Bytes.{Bytes, put_uint16_be, put_uint32_be}
use os_serverlist_sync.Base.Conn.{Read, concat}
use os_serverlist_sync.Base.SendBuffer.{Puts, Puts-bytes, Puts-encoded, Puts-byte, Puts-bind}
use os_serverlist_sync.Reader.{index}
use os_serverlist_sync.Qr2.Stream.{
  Step, Cipher, ServerListEngineParams, ServerListEngine, ◌>>=◌, lift, unless_failed, fetch,
}
use os_serverlist_sync.Qr2.Stream.Rules.{IsStream, Sees, Leaves, Leaves-append, plain}
use os_serverlist_sync.Qr2.Stream.Reads.{fetch-Sees}
use os_serverlist_sync.Qr2.ServerList.{
  challenge_text, request_fields, list_request, enctypex_init, wait_for_crypt_header, read_answer,
  write_list_request,
}
use os_serverlist_sync.Qr2.ServerList.Parts.{fields_of}
use os_serverlist_sync.Qr2.ServerList.Records.{
  Listed, IsListed, Head, IsHead, list_bytes, query_address, first_byte, read_list_response-Reads,
}

-- The request behind its length: the kind, the versions, the two games, the challenge, no filter, the
-- fields and the options.
abbrev pub request_body : ServerListEngineParams → Bytes
request_body params =
    ((((((((((0 ∷ []) ++ (1 ∷ [])) ++ (3 ∷ [])) ++ put_uint32_be 0)
                ++ (params.query_gamename ++ (0 ∷ [])))
              ++ (params.gamename ++ (0 ∷ [])))
            ++ challenge_text)
          ++ (0 ∷ []))
        ++ (params.fields ++ (0 ∷ [])))
      ++ put_uint32_be 1)

abbrev pub request_bytes : ServerListEngineParams → Bytes
request_bytes params =
    put_uint16_be (length ((0 ∷ 0 ∷ []) ++ request_body params)) ++ request_body params

list_request-fits :
    (params : ServerListEngineParams)
    → length (request_body params) + 2 ≤ 256
    → list_request params ≡ ok (request_bytes params)
unfolding list_request request_fields Puts
list_request-fits params h =
    let all =
      Puts-bind _ _ _ _
        (Puts-bind _ _ _ _
          (Puts-bind _ _ _ _
            (Puts-bind _ _ _ _
              (Puts-bind _ _ _ _
                (Puts-bind _ _ _ _
                  (Puts-bind _ _ _ _
                    (Puts-bind _ _ _ _ (Puts-bind _ _ _ _ (Puts-byte 0) (Puts-byte 1))
                      (Puts-byte 3))
                    (Puts-encoded (put_uint32_be 0)))
                  (Puts-bytes (params.query_gamename ++ (0 ∷ []))))
                (Puts-bytes (params.gamename ++ (0 ∷ []))))
              (Puts-bytes challenge_text))
            (Puts-byte 0))
          (Puts-bytes (params.fields ++ (0 ∷ []))))
        (Puts-encoded (put_uint32_be 1)) (0 ∷ 0 ∷ []) (omega (arith, h)) in
    let room : leb (length ((0 ∷ 0 ∷ []) ++ request_body params)) 256 ≡ true = ground (arith, h) in
    rw (all, room) refl

-- The header: two strings of random bytes behind their masked lengths.
abbrev pub header_bytes : Bytes → Bytes → Bytes
header_bytes random key =
    (bit_xor (length random) 0xec ∷ []) ++ (random ++ ((bit_xor (length key) 0xea ∷ []) ++ key))

module _ (C : Cipher) (law : IsStream C) (params : ServerListEngineParams) where
  -- A string behind its masked length.
  masked-Sees :
      (mask : ℕ) (next : Bytes → Step C.Key (Unit {0})) (end : List Read)
      (se : ServerListEngine C.Key) (s rest : Bytes)
      → bit_xor (bit_xor (length s) mask) mask ≡ length s
      → Sees C end se ((bit_xor (length s) mask ∷ []) ++ (s ++ rest))
      → (se' : ServerListEngine C.Key) × (fetch C 1
            (λ b. lift (index b 0) >>= λ a. fetch C (bit_xor a mask) next)
            se
          ≡ next s se')
        × Sees C end se' rest
        × Leaves se se' []
  unfolding ◌>>=◌
  masked-Sees mask next end se s rest undo h =
      let x = bit_xor (length s) mask in
      let (se1, e1, h1, l1) =
        fetch-Sees C law 1 (λ b. lift (index b 0) >>= λ a. fetch C (bit_xor a mask) next) end se
          (x ∷ []) (s ++ rest) refl h in
      let (se2, e2, h2, l2) = fetch-Sees C law (length s) next end se1 s rest refl h1 in
      (se2, rw (e1, first_byte x, undo) e2, h2, Leaves-append l1 l2)

  -- The header makes the key, and what comes behind it is decoded with that.
  wait_for_crypt_header-Sees :
      (end : List Read) (se : ServerListEngine C.Key) (random key rest text : Bytes)
      → length random < 256
      → length key < 256
      → se.enctype_x ≡ none
      → Sees C end se (header_bytes random key ++ rest)
      → (C.func6 (C.funcx params.secretkey se.challenge key) rest).0 ≡ text
      → (se' : ServerListEngine C.Key) × (wait_for_crypt_header C params se ≡ ok (tt, se'))
        × Sees C end se' text
        × (se'.queried ≡ se.queried)
        × (se'.sent ≡ se.sent)
  unfolding wait_for_crypt_header enctypex_init
  wait_for_crypt_header-Sees end se random key rest text hr hk open_text h decoded =
      let next : Bytes → Step C.Key (Unit {0}) = λ _.
        fetch C 1
          λ b. lift (index b 0) >>= λ a. fetch C (bit_xor a 0xea) λ k. enctypex_init C params k in
      let tail = append_assoc random ((bit_xor (length key) 0xea ∷ []) ++ key) rest in
      let h0 = subst (λ t. Sees C end se (bit_xor (length random) 0xec ∷ t)) tail h in
      let (se1, e1, h1, l1) =
        masked-Sees 0xec next end se random ((bit_xor (length key) 0xea ∷ []) ++ (key ++ rest))
          (xor_ec (length random) hr) h0 in
      let (se2, e2, h2, l2) =
        masked-Sees 0xea (enctypex_init C params) end se1 key rest (xor_ea (length key) hk) h1 in
      let l = Leaves-append l1 l2 in
      let means : concat h2.chunks ≡ rest =
        subst (λ k. plain C k (concat h2.chunks) ≡ rest) (l.still_plain open_text) h2.meaning in
      (
        record se2 { enctype_x = some (C.funcx params.secretkey se2.challenge key) },
        e1 ∙ e2,
        record {
          chunks = h2.chunks;
          not_empty = h2.not_empty;
          brings = h2.brings;
          meaning = rw (means, l.challenge) decoded;
          no_error = h2.no_error;
        },
        l.queried ∙ append-nil se.queried,
        l.sent,
      )

-- A whole session: if the request fits its buffer of 256 bytes, and the server answers with a header
-- of two strings of less than 256 bytes and a list that is encoded with the key that the header, the
-- secret key and the challenge make, `writeListRequest` sends the one request, with its length in front, and
-- the servers of the list go to `BeginQuery` in order. What comes behind the list stays on the
-- connection.
pub write_list_request-lists :
    (C : Cipher)
    → IsStream C
    → (params : ServerListEngineParams) (end : List Read) (se : ServerListEngine C.Key)
    → (random key encoded rest : Bytes) (d : Head) (ls : List Listed) (last_flags : ℕ)
    → length (request_body params) + 2 ≤ 256
    → length random < 256
    → length key < 256
    → se.enctype_x ≡ none
    → Sees C end se (header_bytes random key ++ encoded)
    → (C.func6 (C.funcx params.secretkey challenge_text key) encoded).0
      ≡ list_bytes d ls last_flags ++ rest
    → IsHead d
    → All (IsListed (fields_of d.names)) ls
    → (se' : ServerListEngine C.Key) × (write_list_request C params se ≡ ok (tt, se'))
      × (se'.sent ≡ se.sent ++ (request_bytes params ∷ []))
      × (se'.queried ≡ se.queried ++ map (query_address d.default_port) ls)
      × Sees C end se' rest
unfolding write_list_request read_answer ◌>>=◌ unless_failed
write_list_request-lists C law params end se random key encoded rest d ls last_flags fits hr hk
      open_text h decoded hd hls =
    let se0 : ServerListEngine C.Key = record se {
      challenge = challenge_text;
      sent = se.sent ++ (request_bytes params ∷ []);
    } in
    let h0 : Sees C end se0 (header_bytes random key ++ encoded) = record {
      chunks = h.chunks;
      not_empty = h.not_empty;
      brings = h.brings;
      meaning = h.meaning;
      no_error = h.no_error;
    } in
    let (se1, e1, h1, queried1, sent1) =
      wait_for_crypt_header-Sees C law params end se0 random key encoded
        (list_bytes d ls last_flags ++ rest) hr hk open_text h0 decoded in
    let (se2, e2, h2, l2) =
      (read_list_response-Reads C law d ls last_flags hd hls).run end se1 rest h1 in
    (
      se2,
      rw (list_request-fits params fits, e1) (go_on _ h1.no_error e2),
      l2.sent ∙ sent1,
      l2.queried ∙ ap (λ q. q ++ map (query_address d.default_port) ls) queried1,
      h2,
    )
