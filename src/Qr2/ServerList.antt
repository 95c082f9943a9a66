-- ===== src/Qr2/ServerList.antt =====
-- src/Engines/QR2/SBV2ServerListEngine.go: the request to the master server, the cryptographic header,
-- and the list of servers. A loop that ends at the latest with the bytes of the connection has their
-- number, and one, as fuel.
pub mod Parts
pub mod Records
pub mod Session
pub mod Broken
use os_serverlist_sync.Base.{
  ℕ, zero, suc, ◌+◌, ◌*◌, Bool, true, false, not, List, [], ◌∷◌, ◌++◌, some, none, ◌==◌, leb,
  if◌then◌else◌, length, take, drop, Result, ok, panic, slice_range, ◌>>=◌ as bind, bit_xor,
}
use os_serverlist_sync.Base.Bits.{has_bit}
use os_serverlist_sync.Base.Bytes.{
  Bytes, codes, bytes_eq, string_of_byte, put_uint16_be, put_uint32_be,
}
use os_serverlist_sync.Base.Net.{Addr, invalid, v4, AddrPort}
use os_serverlist_sync.Base.SendBuffer.{put_bytes, put_encoded, put_byte}
use os_serverlist_sync.Reader.{index, uint16_be}
use os_serverlist_sync.Qr2.Stream.{
  Cipher, ServerListEngineParams, ServerListEngine, Step, pure, lift, ◌>>=◌, ◌>>◌, return_here,
  unless_failed, wait_for_data_of_len, fetch, read_one, size,
}

pub record FieldKeyInfo : Type 0 where
  pub name : Bytes
  pub type : ℕ

abbrev pub keytype_string : ℕ
keytype_string = 0

abbrev pub keytype_byte : ℕ
keytype_byte = 1

abbrev pub keytype_short : ℕ
keytype_short = 2

abbrev pub private_ip_flag : ℕ
private_ip_flag = 2

abbrev pub icmp_ip_flag : ℕ
icmp_ip_flag = 8

abbrev pub nonstandard_port_flag : ℕ
nonstandard_port_flag = 16

abbrev pub nonstandard_private_port_flag : ℕ
nonstandard_private_port_flag = 32

abbrev pub has_keys_flag : ℕ
has_keys_flag = 64

abbrev pub has_full_rules_flag : ℕ
has_full_rules_flag = 128

-- `netip.AddrFromSlice`, of a slice that has not 16 bytes.
abbrev pub addr_from_slice : Bytes → Addr
addr_from_slice (a ∷ b ∷ c ∷ d ∷ []) = v4 (a * 16777216 + b * 65536 + c * 256 + d)
addr_from_slice _ = invalid

-- The challenge is the same in every request.
abbrev pub challenge_text : Bytes
challenge_text = codes "12345678"

-- The fields of the request behind its length. `currentIndex += len(s) + 1` leaves a zero behind `s`.
unfoldable pub request_fields : ServerListEngineParams → Bytes → Result Bytes
request_fields params done =
    bind
      (bind
        (bind
          (bind
            (bind
              (bind
                (bind (bind (bind (put_byte 0 done) (put_byte 1)) (put_byte 3))
                  (put_encoded (put_uint32_be 0)))
                (put_bytes (params.query_gamename ++ (0 ∷ []))))
              (put_bytes (params.gamename ++ (0 ∷ []))))
            (put_bytes challenge_text))
          (put_byte 0))
        (put_bytes (params.fields ++ (0 ∷ []))))
      (put_encoded (put_uint32_be 1))

-- What is written: the fields, with their number of bytes in the first two.
unfoldable pub list_request : ServerListEngineParams → Result Bytes
list_request params = bind (request_fields params (0 ∷ 0 ∷ [])) λ done.
    if leb (length done) 256
    then ok (put_uint16_be (length done) ++ drop 2 done)
    else panic slice_range

module _ (C : Cipher) where
  -- The loop of `ReadNTS`.
  unfoldable pub nts_loop : ℕ → Bytes → Step C.Key Bytes
  nts_loop zero value = pure value
  nts_loop (suc fuel) value = read_one C >>= λ ch.
      if ch == 0 then pure value else nts_loop fuel (value ++ string_of_byte ch)

  -- `ReadNTS`
  unfoldable pub read_nts : Step C.Key Bytes
  read_nts se = nts_loop (suc (size se.connection)) [] se

  unfoldable pub fields_loop : ℕ → Step C.Key (List FieldKeyInfo)
  fields_loop zero = pure []
  fields_loop (suc n) = do
    type ← read_one C
    name ← read_nts
    rest ← fields_loop n
    pure (record { name = name; type = type } ∷ rest)

  -- `readFields`
  unfoldable pub read_fields : Step C.Key (List FieldKeyInfo)
  read_fields = read_one C >>= fields_loop

  -- The loop over the keys of a server; true where it returns at the index of a popular value.
  unfoldable pub skip_values : List FieldKeyInfo → Step C.Key Bool
  skip_values [] = pure false
  skip_values (v ∷ vs) =
      let rest = skip_values vs in
      if v.type == keytype_string
      then (read_one C >>= λ i. if not (i == 0xff) then pure true else (read_nts >> rest))
      else if v.type == keytype_byte
      then wait_for_data_of_len C 1 >> rest
      else if v.type == keytype_short
      then wait_for_data_of_len C 2 >> rest
      else rest

  -- The loop over the rules of a server.
  unfoldable pub rules_loop : ℕ → Step C.Key (Unit {0})
  rules_loop zero = return_here
  rules_loop (suc fuel) =
      read_nts >>= λ nts. if length nts == 0 then return_here else (read_nts >> rules_loop fuel)

  -- The parts of a server that a flag announces, each with the statements behind it.
  unfoldable pub read_port : ℕ → ℕ → (ℕ → Step C.Key (Unit {0})) → Step C.Key (Unit {0})
  read_port flags default_port next =
      if has_bit flags nonstandard_port_flag
      then fetch C 2 (λ b. lift (uint16_be b) >>= next)
      else next default_port

  unfoldable pub skip_part : ℕ → ℕ → ℕ → Step C.Key (Unit {0}) → Step C.Key (Unit {0})
  skip_part flags flag n next = if has_bit flags flag then fetch C n (λ _. next) else next

  unfoldable pub skip_keys : ℕ → List FieldKeyInfo → Step C.Key (Unit {0}) → Step C.Key (Unit {0})
  skip_keys flags fields next =
      if has_bit flags has_keys_flag
      then (skip_values fields >>= λ returned. if returned then return_here else unless_failed next)
      else next

  unfoldable pub skip_rules : ℕ → Step C.Key (Unit {0}) → Step C.Key (Unit {0})
  skip_rules flags next =
      if has_bit flags has_full_rules_flag
      then (λ se. (rules_loop (suc (size se.connection)) >> unless_failed next) se)
      else next

  -- `BeginQuery` and `Query`
  abbrev pub enqueue : AddrPort → Step C.Key (Unit {0})
  enqueue addr se = ok (tt, record se { queried = se.queried ++ (addr ∷ []) })

  -- The loop over the servers. All the bytes 0xff are the end of the list.
  unfoldable pub servers_loop : ℕ → ℕ → List FieldKeyInfo → Step C.Key (Unit {0})
  servers_loop zero default_port fields = return_here
  servers_loop (suc fuel) default_port fields =
      let rest = servers_loop fuel default_port fields in
      fetch C 1 λ flags_buff. fetch C 4 λ ip_buff.
        if bytes_eq ip_buff (0xff ∷ 0xff ∷ 0xff ∷ 0xff ∷ [])
        then return_here
        else lift (index flags_buff 0) >>= λ flags. read_port flags default_port λ port.
          skip_part flags private_ip_flag 4 (
            skip_part flags nonstandard_private_port_flag 2 (
              skip_part flags icmp_ip_flag 4 (
                skip_keys flags fields (
                  skip_rules flags (
                    unless_failed (
                      enqueue (record { addr = addr_from_slice ip_buff; port = port }) >> rest))))))

  abbrev pub fail : Step C.Key (Unit {0})
  fail se = ok (tt, record se { got_fatal_error = true })

  -- `readListResponse`
  unfoldable pub read_list_response : Step C.Key (Unit {0})
  read_list_response = fetch C 4 λ _. fetch C 2 λ port_buff.
      lift (uint16_be port_buff) >>= λ default_port. read_fields >>= λ fields.
      fetch C 1 λ num_popular_buff. lift (index num_popular_buff 0) >>= λ num_popular.
      if not (num_popular == 0) then fail else λ se.
      servers_loop (suc (size se.connection)) default_port fields se

  -- `enctypex_init`
  unfoldable pub enctypex_init : ServerListEngineParams → Bytes → Step C.Key (Unit {0})
  enctypex_init params key se =
      ok (tt, record se { enctype_x = some (C.funcx params.secretkey se.challenge key) })

  -- `waitForCryptHeader`
  unfoldable pub wait_for_crypt_header : ServerListEngineParams → Step C.Key (Unit {0})
  wait_for_crypt_header params = fetch C 1 λ random_len. lift (index random_len 0) >>= λ a.
      fetch C (bit_xor a 0xec) λ _. fetch C 1 λ key_len.
        lift (index key_len 0) >>= λ b. fetch C (bit_xor b 0xea) λ key. enctypex_init params key

  -- The end of `writeListRequest`, behind the writing.
  unfoldable pub read_answer : ServerListEngineParams → Step C.Key (Unit {0})
  read_answer params = wait_for_crypt_header params >>= λ _. unless_failed read_list_response

  -- `writeListRequest`, which is all that `think` does but closing the connection.
  unfoldable pub write_list_request : ServerListEngineParams → Step C.Key (Unit {0})
  write_list_request params se = bind (list_request params) λ request.
      read_answer params
        (record se { challenge = challenge_text; sent = se.sent ++ (request ∷ []) })
