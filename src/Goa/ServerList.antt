-- ===== src/Goa/ServerList.antt =====
-- src/Engines/GOA/GOA0ServerListEngine.go: the conversation with a master server. The algorithm
-- behind `validate`, the C function `gsseckey`, is a parameter.
pub mod Chunks
pub mod Addresses
pub mod Records
pub mod Session
use os_serverlist_sync.Base.{
  ℕ, zero, suc, ◌+◌, ◌-◌, ◌*◌, Bool, true, false, not, List, [], ◌∷◌, ◌++◌, Option, none, some, leb,
  ltb, ◌==◌, if◌then◌else◌, take, drop, length, Result, ok, ◌>>=◌, slice_range, panic,
}
use os_serverlist_sync.Base.Bytes.{Bytes, codes, bytes_eq}
use os_serverlist_sync.Base.Conn.{Read, got, eof, failed, is_empty}
use os_serverlist_sync.Base.Net.{Addr, v4, AddrPort}
use os_serverlist_sync.Base.Text.{split, index_of}
use os_serverlist_sync.Reader.{slice, slice_from}

pub record ServerListEngineParams : Type 0 where
  pub gamename : Bytes
  pub secretkey : Bytes
  pub query_gamename : Bytes
  pub no_compressed_list : Bool
  pub max_challenge_len : ℕ
  pub gamever : Bytes
  pub location : Bytes
  pub attach_query_id : Bool
  pub attach_list_final : Bool

-- The challenge in `reply`, a buffer of 32 bytes of which all are looked at; `none` where there is
-- no `secure` property.
unfoldable pub challenge_of : ServerListEngineParams → Bytes → Result (Option Bytes)
challenge_of params reply = elim (index_of reply (codes "secure\\")) [
  | none ↦ ok none
  | some secure_idx ↦
      if params.max_challenge_len == 0
      then slice_from reply (secure_idx + 7) >>= (λ c. ok (some c))
      else slice reply (secure_idx + 7) (secure_idx + 7 + params.max_challenge_len)
        >>= (λ c. ok (some c))
]

-- `authQuery`, given the answer to the challenge.
unfoldable pub auth_query : ServerListEngineParams → Bytes → Bytes
auth_query params validation_response =
    codes "\\gamename\\"
    ++ (params.gamename
        ++ ((if is_empty params.gamever then [] else codes "\\gamever\\" ++ params.gamever)
            ++ ((if is_empty params.location then [] else codes "\\location\\" ++ params.location)
                ++ (codes "\\validate\\"
                    ++ (validation_response
                        ++ (codes "\\final\\"
                            ++ (if params.attach_query_id
                                then codes "\\queryid\\1.1\\"
                                else [])))))))

-- `listQuery`
unfoldable pub list_query : ServerListEngineParams → Bytes
list_query params =
    (if params.no_compressed_list
      then codes "\\list\\\\gamename\\"
      else codes "\\list\\cmp\\gamename\\")
    ++ (params.query_gamename ++ (if params.attach_list_final then codes "\\final\\" else []))

abbrev pub ip_marker : Bytes
ip_marker = codes "\\ip\\"

-- The loop over `splitData`: the strings that go to `handleIPString`, and `ipStringAccum`.
unfoldable pub pieces_loop : List Bytes → Bytes → List Bytes × Bytes
pieces_loop [] accum = ([], accum)
pieces_loop (s ∷ []) accum = ([], ip_marker ++ s)
pieces_loop (s ∷ t ∷ rest) accum =
    let (handled, accum') = pieces_loop (t ∷ rest) accum in
    (if is_empty s then handled else s ∷ handled, accum')

-- The loop over `Read`. Bytes that come with no error are taken, and a `Read` of none ends it.
unfoldable pub read_loop : Bytes → List Read → List Bytes × Bytes
read_loop accum [] = ([], accum)
read_loop accum (failed ∷ rest) = ([], accum)
read_loop accum (eof ∷ rest) = ([], accum)
read_loop accum (got input ∷ rest) =
    let (handled, accum') = pieces_loop (split (accum ++ input) ip_marker) (accum ++ input) in
    let (more, last) = read_loop accum' rest in
    if is_empty input then ([], accum) else (handled ++ more, last)

-- What is left in `ipStringAccum` behind the loop.
unfoldable pub tail_string : Bytes → List Bytes
tail_string accum =
    if leb 4 (length accum)
    then (let behind = drop 4 accum in
        let cut : Bytes = elim (index_of behind (codes "\\")) [
          | some i ↦ take i behind
          | none ↦ behind
        ] in
        if is_empty cut then [] else cut ∷ [])
    else []

-- `ReadUncompressedList`: the strings that go to `handleIPString`, in order.
unfoldable pub read_uncompressed_list : List Read → List Bytes
read_uncompressed_list reads =
    let (handled, accum) = read_loop [] reads in handled ++ tail_string accum

-- `handleIPString`, with `netip.ParseAddrPort` given: the addresses that go to `BeginQuery`.
unfoldable pub parsed : (Bytes → Option AddrPort) → List Bytes → List AddrPort
parsed parse_addr_port [] = []
parsed parse_addr_port (s ∷ ss) = elim (parse_addr_port s) [
  | some addr ↦ addr ∷ parsed parse_addr_port ss
  | none ↦ parsed parse_addr_port ss
]

-- The address and port in the first six bytes of the buffer.
unfoldable pub record_address : Bytes → AddrPort
record_address (a ∷ b ∷ c ∷ d ∷ p ∷ q ∷ _) = record {
  addr = v4 (a * 16777216 + b * 65536 + c * 256 + d);
  port = p * 256 + q;
}
record_address _ = record { addr = v4 0; port = 0 }

-- `ReadCompressedResponse`: one buffer of six bytes for all calls of `Read`, which may fill a part of
-- it only; the addresses that go to `BeginQuery`, in order.
unfoldable pub read_compressed : Bytes → List Read → List AddrPort
read_compressed buffer [] = []
read_compressed buffer (failed ∷ rest) = []
read_compressed buffer (eof ∷ rest) = []
read_compressed buffer (got input ∷ rest) =
    let buffer' = take 6 input ++ drop (length (take 6 input)) buffer in
    let more = read_compressed buffer' rest in
    if is_empty input
    then []
    else if bytes_eq buffer' (codes "\\final")
    then []
    else record_address buffer' ∷ more

-- What a `Read` of the greeting into a cleared buffer of 32 bytes leaves there.
abbrev pub reply_buffer : Bytes → Bytes
reply_buffer greeting = take 32 (
    greeting
    ++ (0 ∷ 0 ∷ 0 ∷ 0 ∷ 0 ∷ 0 ∷ 0 ∷ 0 ∷ 0 ∷ 0 ∷ 0 ∷ 0 ∷ 0 ∷ 0 ∷ 0 ∷ 0 ∷ 0 ∷ 0 ∷ 0 ∷ 0 ∷ 0 ∷ 0 ∷ 0
        ∷ 0 ∷ 0 ∷ 0 ∷ 0 ∷ 0 ∷ 0 ∷ 0 ∷ 0 ∷ 0 ∷ []))

-- `think`, with `gsmsalg` and `netip.ParseAddrPort` given: what is written, and the addresses that go
-- to `BeginQuery`, in order; `none` where it returns before it writes.
unfoldable pub think :
    (Bytes → Bytes)
    → (Bytes → Option AddrPort)
    → ServerListEngineParams
    → List Read
    → Result (Option (Bytes × List AddrPort))
think gsmsalg parse_addr_port params [] = ok none
think gsmsalg parse_addr_port params (eof ∷ _) = ok none
think gsmsalg parse_addr_port params (failed ∷ _) = ok none
think gsmsalg parse_addr_port params (got greeting ∷ rest) =
    challenge_of params (reply_buffer greeting) >>= λ found. ok (elim found [
      | none ↦ none
      | some challenge ↦ some (
        auth_query params (gsmsalg challenge) ++ list_query params,
        if params.no_compressed_list
            then parsed parse_addr_port (read_uncompressed_list rest)
            else read_compressed (0 ∷ 0 ∷ 0 ∷ 0 ∷ 0 ∷ 0 ∷ []) rest,
      )
    ])
