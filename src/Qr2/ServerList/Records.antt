-- ===== src/Qr2/ServerList/Records.antt =====
-- The list of servers: its head, the servers with whatever parts their flags announce, and its end.
use os_serverlist_sync.Base.{
  ℕ, zero, suc, ◌+◌, ◌*◌, ◌/◌, ◌%◌, ◌^◌, ◌<◌, false, List, [], ◌∷◌, ◌++◌, map, ◌≡◌, refl, subst,
  arith, All, length, length-append, if◌then◌else◌, Bool-cases, inl, inr, ok,
}
use os_serverlist_sync.Base.Bits.{has_bit}
use os_serverlist_sync.Base.Bytes.{Bytes, bytes_eq, bytes_eq_refl, put_uint16_be, put_uint32_be}
use os_serverlist_sync.Base.Net.{v4, AddrPort}
use os_serverlist_sync.Reader.{index, uint16_be}
use os_serverlist_sync.Qr2.Stream.{Cipher, Step, ◌>>◌}
use os_serverlist_sync.Qr2.Stream.Rules.{IsStream}
use os_serverlist_sync.Qr2.Stream.Reads.{
  Reads, Reads-pure, Reads-lift, Reads-bind, Reads-unless, Reads-one, Reads-fetch, Reads-fuel,
}
use os_serverlist_sync.Qr2.ServerList.{
  FieldKeyInfo, private_ip_flag, icmp_ip_flag, nonstandard_port_flag, nonstandard_private_port_flag,
  has_keys_flag, has_full_rules_flag, addr_from_slice, read_fields, fields_loop, read_port, enqueue,
  servers_loop, read_list_response,
}
use os_serverlist_sync.Qr2.ServerList.Parts.{
  HasNoNul, Value, AreValues, values_bytes, IsRule, rules_bytes, fields_bytes, fields_of, part,
  fields_loop-Reads, skip_part-Reads, skip_keys-Reads, skip_rules-Reads,
}

-- A server, with all parts that its flags may announce.
pub record Listed : Type 0 where
  pub flags : ℕ
  pub ip : ℕ
  pub port : ℕ
  pub private_ip : Bytes
  pub private_port : Bytes
  pub icmp_ip : Bytes
  pub values : List Value
  pub rules : List (Bytes × Bytes)

abbrev pub end_mark : Bytes
end_mark = 0xff ∷ 0xff ∷ 0xff ∷ 0xff ∷ []

pub record IsListed (fields : List FieldKeyInfo) (l : Listed) : Type 0 where
  pub ip_fits : l.ip < 2 ^ 32
  pub no_end : bytes_eq (put_uint32_be l.ip) end_mark ≡ false
  pub port_fits : l.port < 2 ^ 16
  pub private_ip_size : length l.private_ip ≡ 4
  pub private_port_size : length l.private_port ≡ 2
  pub icmp_ip_size : length l.icmp_ip ≡ 4
  pub values_fit : AreValues fields l.values
  pub rules_fit : All IsRule l.rules

-- The parts of a server in the order in which they are sent, in front of what is sent next.
abbrev pub listed_bytes : Listed → Bytes → Bytes
listed_bytes l next =
    (l.flags ∷ [])
    ++ (put_uint32_be l.ip
        ++ (part l.flags nonstandard_port_flag (put_uint16_be l.port)
            ++ (part l.flags private_ip_flag l.private_ip
                ++ (part l.flags nonstandard_private_port_flag l.private_port
                    ++ (part l.flags icmp_ip_flag l.icmp_ip
                        ++ (part l.flags has_keys_flag (values_bytes l.values)
                            ++ (part l.flags has_full_rules_flag (rules_bytes l.rules)
                                ++ next)))))))

-- The servers, and the end of the list: a byte of flags and four bytes 0xff.
abbrev pub servers_bytes : ℕ → List Listed → Bytes
servers_bytes last_flags [] = (last_flags ∷ []) ++ (end_mark ++ [])
servers_bytes last_flags (l ∷ ls) = listed_bytes l (servers_bytes last_flags ls)

abbrev pub query_address : ℕ → Listed → AddrPort
query_address default_port l = record {
  addr = v4 l.ip;
  port = (if has_bit l.flags nonstandard_port_flag then l.port else default_port);
}

length-listed : (l : Listed) (next : Bytes) → length next < length (listed_bytes l next)
length-listed l next = simp (length-append) (omega arith)

pub uint16_from_be : (v : ℕ) → v < 2 ^ 16 → uint16_be (put_uint16_be v) ≡ ok v
unfolding uint16_be
uint16_from_be v h = ground arith

pub first_byte : (b : ℕ) → index (b ∷ []) 0 ≡ ok b
unfolding index
first_byte b = refl

ip_from_be : (ip : ℕ) → ip < 2 ^ 32 → addr_from_slice (put_uint32_be ip) ≡ v4 ip
ip_from_be ip h =
    let e : ip / 16777216 % 256 * 16777216
          + ip / 65536 % 256 * 65536
          + ip / 256 % 256 * 256
          + ip % 256
        ≡ ip =
      omega (arith, h) in
    rw e refl

module _ (C : Cipher) (law : IsStream C) where
  enqueue-Reads :
      (addr : AddrPort) (next : Step C.Key (Unit {0})) (bs : Bytes) (found : List AddrPort)
      → Reads C next bs tt found
      → Reads C (enqueue C addr >> next) bs tt (addr ∷ found)
  enqueue-Reads addr next bs found r =
      Reads-bind C _ _ [] bs tt tt (addr ∷ []) found
        (record {
          run = λ end se rest h. (
            record se { queried = se.queried ++ (addr ∷ []) },
            refl,
            record {
              chunks = h.chunks;
              not_empty = h.not_empty;
              brings = h.brings;
              meaning = h.meaning;
              no_error = h.no_error;
            },
            record {
              queried = refl;
              sent = refl;
              challenge = refl;
              still_plain = λ e. e;
              still_encoded = λ e. e;
            },
          );
        })
        r

  read_port-Reads :
      (flags default_port port : ℕ) (next : ℕ → Step C.Key (Unit {0})) (bs : Bytes)
      (found : List AddrPort)
      → port < 2 ^ 16
      → Reads C
          (next (if has_bit flags nonstandard_port_flag then port else default_port))
          bs
          tt
          found
      → Reads C
          (read_port C flags default_port next)
          (part flags nonstandard_port_flag (put_uint16_be port) ++ bs)
          tt
          found
  unfolding read_port
  read_port-Reads flags default_port port next bs found h r =
      elim (Bool-cases (has_bit flags nonstandard_port_flag)) [
        | inl set ↦
            let r' =
              subst (λ b. Reads C (next (if b then port else default_port)) bs tt found) set r in
            rw set (
              Reads-fetch C law 2 _ (put_uint16_be port) bs found refl (
                Reads-bind C _ next [] bs port tt [] found
                  (Reads-lift C _ port (uint16_from_be port h)) r'))
        | inr clear ↦
            let r' =
              subst (λ b. Reads C (next (if b then port else default_port)) bs tt found) clear r in
            rw clear r'
      ]

  servers_loop-Reads :
      (default_port : ℕ) (fields : List FieldKeyInfo) (ls : List Listed) (last_flags fuel : ℕ)
      → All (IsListed fields) ls
      → length (servers_bytes last_flags ls) < fuel
      → Reads C
          (servers_loop C fuel default_port fields)
          (servers_bytes last_flags ls)
          tt
          (map (query_address default_port) ls)
  unfolding servers_loop
  servers_loop-Reads default_port fields ls last_flags zero h enough =
      absurd (omega (arith, enough))
  servers_loop-Reads default_port fields [] last_flags (suc fuel) h enough =
      Reads-fetch C law 1 _ (last_flags ∷ []) (end_mark ++ []) [] refl
        (Reads-fetch C law 4 _ end_mark [] [] refl (rw (bytes_eq_refl end_mark) (Reads-pure C tt)))
  servers_loop-Reads default_port fields (l ∷ ls) last_flags (suc fuel) h enough =
      let rest =
        servers_loop-Reads default_port fields ls last_flags fuel h.1
          (omega (arith, enough, length-listed l (servers_bytes last_flags ls))) in
      let k = h.0 in
      Reads-fetch C law 1 _ (l.flags ∷ []) _ _ refl (
        Reads-fetch C law 4 _ (put_uint32_be l.ip) _ _ refl (
          rw (k.no_end, ip_from_be l.ip k.ip_fits)
            (Reads-bind C _ _ [] _ l.flags tt [] _
              (Reads-lift C (index (l.flags ∷ []) 0) l.flags (first_byte l.flags))
              (read_port-Reads l.flags default_port l.port _ _ _ k.port_fits (
                skip_part-Reads C law _ _ _
                  (skip_part-Reads C law _ _ _
                    (skip_part-Reads C law _ _ _
                      (skip_keys-Reads C law _ _ _
                        (skip_rules-Reads C law _ _ _
                          (Reads-unless C _ _ _
                            (enqueue-Reads (query_address default_port l) _ _ _ rest))
                          l.flags l.rules k.rules_fit)
                        l.flags fields l.values k.values_fit)
                      l.flags icmp_ip_flag 4 l.icmp_ip k.icmp_ip_size)
                    l.flags nonstandard_private_port_flag 2 l.private_port k.private_port_size)
                  l.flags private_ip_flag 4 l.private_ip k.private_ip_size)))))

-- The head of a list: the address of the client, the usual port, the fields, and that no popular
-- values are listed.
pub record Head : Type 0 where
  pub own_ip : Bytes
  pub default_port : ℕ
  pub names : List (Bytes × ℕ)

pub record IsHead (d : Head) : Type 0 where
  pub own_ip_size : length d.own_ip ≡ 4
  pub port_fits : d.default_port < 2 ^ 16
  pub names_fit : All (λ f. HasNoNul f.0) d.names

abbrev pub list_bytes : Head → List Listed → ℕ → Bytes
list_bytes d ls last_flags =
    d.own_ip
    ++ (put_uint16_be d.default_port
        ++ ((length d.names ∷ fields_bytes d.names) ++ ((0 ∷ []) ++ servers_bytes last_flags ls)))

-- A list is read whole, whether the connection is plain or goes through a stream cipher: with any
-- fields, none with NUL in its name, and any flags of the servers, where each server has the parts that its
-- flags announce, with values of the types of the fields, no rule with an empty key, and an address
-- other than 255.255.255.255, `readListResponse` reads exactly the list, and the servers go to
-- `BeginQuery` in order, each with its own port if it has one and with the usual port if not.
pub read_list_response-Reads :
    (C : Cipher)
    → IsStream C
    → (d : Head) (ls : List Listed) (last_flags : ℕ) → IsHead d
    → All (IsListed (fields_of d.names)) ls
    → Reads C
        (read_list_response C)
        (list_bytes d ls last_flags)
        tt
        (map (query_address d.default_port) ls)
unfolding read_list_response read_fields
read_list_response-Reads C law d ls last_flags k h =
    let addrs = map (query_address d.default_port) ls in
    let fields = fields_of d.names in
    let loop =
      Reads-fuel C law (λ fuel. servers_loop C fuel d.default_port fields)
        (servers_bytes last_flags ls) tt addrs
        (λ fuel enough.
          servers_loop-Reads C law d.default_port fields ls last_flags fuel h enough) in
    let names =
      Reads-bind C _ (fields_loop C) (length d.names ∷ []) (fields_bytes d.names) (length d.names)
        fields [] [] (Reads-one C law (length d.names))
        (fields_loop-Reads C law d.names k.names_fit) in
    Reads-fetch C law 4 _ d.own_ip _ _ k.own_ip_size (
      Reads-fetch C law 2 _ (put_uint16_be d.default_port) _ _ refl (
        Reads-bind C _ _ [] _ d.default_port tt [] addrs
          (Reads-lift C (uint16_be (put_uint16_be d.default_port)) d.default_port
            (uint16_from_be d.default_port k.port_fits))
          (Reads-bind C _ _ (length d.names ∷ fields_bytes d.names) _ fields tt [] addrs names (
            Reads-fetch C law 1 _ (0 ∷ []) (servers_bytes last_flags ls) addrs refl (
              Reads-bind C _ _ [] _ 0 tt [] addrs (Reads-lift C (index (0 ∷ []) 0) 0 (first_byte 0))
                loop)))))
