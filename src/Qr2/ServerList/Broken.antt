-- ===== src/Qr2/ServerList/Broken.antt =====
-- A connection that breaks off inside the fields of a list.
use os_serverlist_sync.Base.{
  ℕ, zero, suc, ◌<◌, ◌^◌, true, false, List, [], ◌∷◌, ◌++◌, ◌≡◌, refl, arith, ◌==◌, append_assoc,
  length, All, panic, index_range,
}
use os_serverlist_sync.Base.Bytes.{Bytes, put_uint16_be, string_of_byte, to_utf8}
use os_serverlist_sync.Base.Conn.{Read, IsEnd}
use os_serverlist_sync.Reader.{uint16_be}
use os_serverlist_sync.Qr2.ServerList.Records.{uint16_from_be}
use os_serverlist_sync.Qr2.Query.Pairs.{HasNoNul}
use os_serverlist_sync.Qr2.ServerList.{
  nts_loop, read_nts, fields_loop, read_fields, read_list_response,
}
use os_serverlist_sync.Qr2.ServerList.Parts.{nts, fields_bytes, read_nts-Reads}
use os_serverlist_sync.Qr2.Stream.{Cipher, ServerListEngine}
use os_serverlist_sync.Qr2.Stream.Broken.{
  Panics, Panics-first, Panics-then, Panics-fetch, Panics-one, Panics-fuel,
}
use os_serverlist_sync.Qr2.Stream.Reads.{Reads-one, Reads-lift}
use os_serverlist_sync.Qr2.Stream.Rules.{IsStream, Sees, is_encoded}

module _ (C : Cipher) (law : IsStream C) where
  nts_loop-Panics :
      (s : Bytes) (fuel : ℕ) (value : Bytes)
      → HasNoNul s
      → length s < fuel
      → Panics C (nts_loop C fuel value) s
  unfolding nts_loop
  nts_loop-Panics s zero value h enough = absurd (omega (arith, enough))
  nts_loop-Panics [] (suc fuel) value h enough = Panics-first C _ _ [] (Panics-one C law)
  nts_loop-Panics (b ∷ s) (suc fuel) value h enough =
      let char : (b == 0) ≡ false = ground (arith, h.0) in
      let ih = nts_loop-Panics s fuel (value ++ string_of_byte b) h.1 (omega (arith, enough)) in
      Panics-then C _ _ (b ∷ []) s b [] (Reads-one C law b) (rw char ih)

  read_nts-Panics : (s : Bytes) → HasNoNul s → Panics C (read_nts C) s
  unfolding read_nts
  read_nts-Panics s h =
      Panics-fuel C law (λ fuel. nts_loop C fuel []) s
        (λ fuel enough. nts_loop-Panics s fuel [] h enough)

  fields_loop-Panics :
      (names : List (Bytes × ℕ)) (n type : ℕ) (s : Bytes)
      → length names < n
      → All (λ f. HasNoNul f.0) names
      → HasNoNul s
      → Panics C (fields_loop C n) (fields_bytes names ++ (type ∷ s))
  unfolding fields_loop
  fields_loop-Panics names zero type s more h k = absurd (omega (arith, more))
  fields_loop-Panics [] (suc n) type s more h k =
      Panics-then C _ _ (type ∷ []) s type [] (Reads-one C law type)
        (Panics-first C _ _ s (read_nts-Panics s k))
  fields_loop-Panics ((name, t) ∷ fs) (suc n) type s more h k =
      let ih = fields_loop-Panics fs n type s (omega (arith, more)) h.1 k in
      let rest = fields_bytes fs ++ (type ∷ s) in
      rw (append_assoc (nts name) (fields_bytes fs) (type ∷ s)) (
        Panics-then C _ _ (t ∷ []) (nts name ++ rest) t [] (Reads-one C law t) (
          Panics-then C _ _ (nts name) rest (to_utf8 name) [] (read_nts-Reads C law name h.0)
            (Panics-first C _ _ rest ih)))

-- A connection that breaks off: if the cipher has been set up, no error has come, and the connection
-- brings the address and port at the head of a list, a number of fields, and then fewer fields than that
-- and the type and a part of the name of one more, without its NUL, and ends there, then
-- `readListResponse` panics.
pub read_list_response-broken :
    (C : Cipher)
    → IsStream C
    → (end : List Read) (se : ServerListEngine C.Key) (own_ip : Bytes) (default_port n : ℕ)
    → (names : List (Bytes × ℕ)) (type : ℕ) (s : Bytes) → length own_ip ≡ 4
    → default_port < 2 ^ 16
    → length names < n
    → All (λ f. HasNoNul f.0) names
    → HasNoNul s
    → IsEnd end
    → is_encoded se.enctype_x ≡ true
    → Sees C end se
        (own_ip ++ (put_uint16_be default_port ++ (n ∷ (fields_bytes names ++ (type ∷ s)))))
    → read_list_response C se ≡ panic index_range
unfolding read_list_response read_fields
read_list_response-broken C law end se own_ip default_port n names type s four fits more h k e
      encoded sees =
    let fields =
      Panics-then C _ (fields_loop C) (n ∷ []) _ n [] (Reads-one C law n)
        (fields_loop-Panics C law names n type s more h k) in
    let whole = Panics-fetch C law 4 _ own_ip _ four (
      Panics-fetch C law 2 _ (put_uint16_be default_port) _ refl (
        Panics-then C _ _ [] _ default_port []
          (Reads-lift C (uint16_be (put_uint16_be default_port)) default_port
            (uint16_from_be default_port fits))
          (Panics-first C _ _ _ fields))) in
    whole.run end se e encoded sees
