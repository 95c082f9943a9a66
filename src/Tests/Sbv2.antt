-- ===== src/Tests/Sbv2.antt =====
-- A conversation with a SBV2 master server through a stream cipher that masks the bytes with a counter.
use os_serverlist_sync.Base.{
  ℕ, bit_xor, suc, ◌+◌, ◌%◌, List, [], ◌∷◌, ◌++◌, map, none, some, ◌≡◌, refl, ap, ◌∙◌, arith,
  length, length-append, ok, All, take, drop, false, panic, index_range,
}
use os_serverlist_sync.Base.Bytes.{Bytes, codes, bytes_eq, put_uint16_be}
use os_serverlist_sync.Base.Conn.{eof, arrive}
use os_serverlist_sync.Base.Net.{AddrPort}
use os_serverlist_sync.ListEngine.Session as Session
use os_serverlist_sync.Monitor.{Monitor, Send, init}
use os_serverlist_sync.Qr2.Invoke.{invoke}
use os_serverlist_sync.Qr2.Invoke.Pending.{addresses_of, invoke-lists}
use os_serverlist_sync.Qr2.Stream.{Cipher, ServerListEngineParams, ServerListEngine}
use os_serverlist_sync.Qr2.Stream.Rules.{IsStream, Sees}
use os_serverlist_sync.Qr2.Stream.Reads.{Reads}
use os_serverlist_sync.Qr2.ServerList.{read_list_response, write_list_request}
use os_serverlist_sync.Qr2.ServerList.Broken.{read_list_response-broken}
use os_serverlist_sync.Qr2.ServerList.Parts.{fields_of, text, byte, short}
use os_serverlist_sync.Qr2.ServerList.Records.{
  Listed, IsListed, Head, IsHead, list_bytes, query_address, read_list_response-Reads,
}
use os_serverlist_sync.Qr2.ServerList.Session.{
  request_bytes, header_bytes, write_list_request-lists,
}

abbrev count : ℕ → Bytes → Bytes
count k [] = []
count k (c ∷ b) = bit_xor c (k % 256) ∷ count (k + 1) b

length-count : (k : ℕ) (b : Bytes) → length (count k b) ≡ length b
length-count k [] = refl
length-count k (c ∷ b) = omega (arith, length-count (k + 1) b)

count-append : (k : ℕ) (a b : Bytes) → count k (a ++ b) ≡ count k a ++ count (k + length a) b
count-append k [] b = let e : k + 0 ≡ k = omega arith in rw e refl
count-append k (c ∷ a) b =
    let e : k + 1 + length a ≡ k + suc (length a) = omega arith in
    ap (◌∷◌ (bit_xor c (k % 256)))
      (count-append (k + 1) a b ∙ ap (λ n. count (k + 1) a ++ count n b) e)

abbrev counter : Cipher
counter = record {
  Key = ℕ;
  funcx = λ secret challenge key. length secret + length challenge + length key;
  func6 = λ k b. (count k b, k + length b);
}

counter-IsStream : IsStream counter
counter-IsStream = record {
  length-func6 = length-count;
  func6-append = λ k a b.
      let size : k + length (a ++ b) ≡ k + length a + length b = omega (arith, length-append a b) in
      λ i. (count-append k a b i, size i);
}

abbrev head : Head
head = record {
  own_ip = 10 ∷ 0 ∷ 0 ∷ 1 ∷ [];
  default_port = 6500;
  names = (codes "hostname", 0) ∷ (codes "numplayers", 1) ∷ (codes "hostport", 2) ∷ [];
}

head-IsHead : IsHead head
head-IsHead = record { own_ip_size = refl; port_fits = omega arith; names_fit = ground arith }

-- The first server has a port, a private address and keys; the second has rules.
abbrev servers : List Listed
servers =
    record {
      flags = 0x52;
      ip = 0x01020304;
      port = 7778;
      private_ip = 10 ∷ 0 ∷ 0 ∷ 2 ∷ [];
      private_port = 0 ∷ 0 ∷ [];
      icmp_ip = 0 ∷ 0 ∷ 0 ∷ 0 ∷ [];
      values = text (codes "dm") ∷ byte 3 ∷ short 0 30 ∷ [];
      rules = [];
    }
    ∷ record {
      flags = 0x80;
      ip = 0x05060708;
      port = 0;
      private_ip = 0 ∷ 0 ∷ 0 ∷ 0 ∷ [];
      private_port = 0 ∷ 0 ∷ [];
      icmp_ip = 0 ∷ 0 ∷ 0 ∷ 0 ∷ [];
      values = text [] ∷ byte 0 ∷ short 0 0 ∷ [];
      rules = (codes "map", codes "x") ∷ [];
    }
    ∷ []

servers-IsListed : All (IsListed (fields_of head.names)) servers
unfolding bytes_eq
servers-IsListed = (
  record {
    ip_fits = omega arith;
    no_end = refl;
    port_fits = omega arith;
    private_ip_size = refl;
    private_port_size = refl;
    icmp_ip_size = refl;
    values_fit = ground arith;
    rules_fit = tt;
  },
  (
    record {
      ip_fits = omega arith;
      no_end = refl;
      port_fits = omega arith;
      private_ip_size = refl;
      private_port_size = refl;
      icmp_ip_size = refl;
      values_fit = ground arith;
      rules_fit = ground arith;
    },
    tt,
  ),
)

abbrev queried : List AddrPort
queried = map (query_address 6500) servers

read_list_response-Reads_example :
    Reads counter (read_list_response counter) (list_bytes head servers 0) tt queried
read_list_response-Reads_example =
    read_list_response-Reads counter counter-IsStream head servers 0 head-IsHead servers-IsListed

abbrev params : ServerListEngineParams
params = record {
  gamename = codes "gslive";
  secretkey = codes "Xn221z";
  query_gamename = codes "flatout2pc";
  fields = codes "\\hostname\\numplayers\\hostport";
}

-- The list, encoded with the key of the session, which is 6 + 8 + 2, and one byte behind it.
abbrev encoded : Bytes
encoded = count 16 (list_bytes head servers 0 ++ (99 ∷ []))

abbrev answer : Bytes
answer = header_bytes (1 ∷ 2 ∷ 3 ∷ []) (7 ∷ 8 ∷ []) ++ encoded

-- The answer comes in two pieces, and then the end of the stream.
abbrev start : ServerListEngine ℕ
start = record {
  connection = arrive (take 20 answer ∷ drop 20 answer ∷ []) (eof ∷ []);
  enctype_x = none;
  got_fatal_error = false;
  challenge = [];
  sent = [];
  queried = [];
}

start-Sees : Sees counter (eof ∷ []) start answer
start-Sees = record {
  chunks = take 20 answer ∷ drop 20 answer ∷ [];
  not_empty = (refl, (refl, tt));
  brings = refl;
  meaning = refl;
  no_error = refl;
}

write_list_request-lists_example :
    (se : ServerListEngine ℕ) × (write_list_request counter params start ≡ ok (tt, se))
    × (se.sent ≡ request_bytes params ∷ [])
    × (se.queried ≡ queried)
    × Sees counter (eof ∷ []) se (99 ∷ [])
write_list_request-lists_example =
    write_list_request-lists counter counter-IsStream params (eof ∷ []) start (1 ∷ 2 ∷ 3 ∷ [])
      (7 ∷ 8 ∷ []) encoded (99 ∷ []) head servers 0 (omega arith) (omega arith) (omega arith) refl
      start-Sees refl head-IsHead servers-IsListed

invoke-lists_example :
    (m : Monitor) × (sends : List Send) × (invoke counter params
        (λ k. k)
        (some start.connection)
        7
        1
        init
      ≡ ok (m, sends))
    × Session.Listed (λ k. k) 1 (addresses_of 6500 servers) init m sends
invoke-lists_example =
    invoke-lists counter counter-IsStream params (λ k. k) (eof ∷ []) start.connection
      (1 ∷ 2 ∷ 3 ∷ []) (7 ∷ 8 ∷ []) encoded (99 ∷ []) head servers 0 7 1 init (omega arith)
      (omega arith) (omega arith) start-Sees refl head-IsHead servers-IsListed
      (record { has_ip = tt; distinct = tt; attempts = tt })

-- A list that breaks off inside the name of its second field.
abbrev broken_list : Bytes
broken_list =
    head.own_ip ++ (put_uint16_be 6500 ++ (3 ∷ ((0 ∷ codes "map\0") ++ (1 ∷ codes "num"))))

abbrev broken_engine : ServerListEngine ℕ
broken_engine = record start {
  connection = arrive (count 0 broken_list ∷ []) (eof ∷ []);
  enctype_x = some 0;
}

broken_engine-Sees : Sees counter (eof ∷ []) broken_engine broken_list
broken_engine-Sees = record {
  chunks = count 0 broken_list ∷ [];
  not_empty = (refl, tt);
  brings = refl;
  meaning = refl;
  no_error = refl;
}

read_list_response-broken_example : read_list_response counter broken_engine ≡ panic index_range
read_list_response-broken_example =
    read_list_response-broken counter counter-IsStream (eof ∷ []) broken_engine head.own_ip 6500 3
      ((codes "map", 0) ∷ []) 1 (codes "num") refl (omega arith) (omega arith) (ground arith)
      (ground arith) tt refl broken_engine-Sees
