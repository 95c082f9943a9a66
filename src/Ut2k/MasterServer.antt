-- ===== src/Ut2k/MasterServer.antt =====
-- src/Engines/UT2K/UTMSServerListEngine.go: the conversation with the master server of Unreal
-- Tournament 2003 and 2004. A message is its length in four bytes and then its bytes. The MD5 sum in
-- hexadecimal is a parameter; all calls of `Write` succeed; a number in the settings is not negative.
pub mod ClientInfo
pub mod Handshake
pub mod Messages
pub mod Servers
use os_serverlist_sync.Base.{
  ℕ, zero, suc, ◌+◌, ◌-◌, ◌*◌, ◌%◌, ◌^◌, Bool, true, false, not, List, [], ◌∷◌, ◌++◌, Option, none,
  some, leb, ltb, if◌then◌else◌, take, drop, length, Result, ok, ◌>>=◌, slice_range, index_range,
  panic,
}
use os_serverlist_sync.Base.Bytes.{Bytes, codes, bytes_eq, put_uint32_le}
use os_serverlist_sync.Base.Conn.{Read, got, eof, failed, is_empty}
use os_serverlist_sync.Base.SendBuffer.{put_bytes, put_encoded, put_byte}
use os_serverlist_sync.Base.Net.{Addr, v4, AddrPort}
use os_serverlist_sync.Reader.{index, slice, slice_from, uint16_le, uint32_le}

pub record UtmsServerListEngineParams : Type 0 where
  pub cd_key : Bytes
  pub client_name : Bytes
  pub client_version : ℕ
  pub running_os : ℕ
  pub language : Bytes
  pub gpu_device_id : ℕ
  pub gpu_vendor_id : ℕ
  pub cpu_cycles : ℕ
  pub running_cpus : ℕ

-- The engine's fields, with the rest of the connection, the messages written, and the addresses
-- that went to `BeginQuery`, in order.
pub record UtmsServerListEngine : Type 0 where
  pub buffer : Bytes
  pub current_offset : ℕ
  pub got_fatal_error : Bool
  pub challenge : Bytes
  pub connection : List Read
  pub sent : List Bytes
  pub queried : List AddrPort

-- `connection.Read` into a buffer of four bytes: what it then holds, and the rest of the connection.
-- A `Read` of fewer bytes leaves zeros behind them.
unfoldable pub read_length : List Read → Option Bytes × List Read
read_length [] = (none, [])
read_length (eof ∷ rest) = (none, rest)
read_length (failed ∷ rest) = (none, rest)
read_length (got c ∷ rest) =
    let buffer = take 4 (c ++ (0 ∷ 0 ∷ 0 ∷ 0 ∷ [])) in
    (some buffer, if leb (length c) 4 then rest else got (drop 4 c) ∷ rest)

-- The loop over `connection.Read` while so many bytes are missing; a `Read` into no bytes returns.
unfoldable pub read_expected : ℕ → List Read → Option Bytes × List Read
read_expected zero conn = (some [], conn)
read_expected (suc n) [] = (none, [])
read_expected (suc n) (eof ∷ rest) = (none, rest)
read_expected (suc n) (failed ∷ rest) = (none, rest)
read_expected (suc n) (got c ∷ rest) =
    let more = read_expected (suc n - length c) rest in
    if ltb (suc n) (length c)
    then (some (take (suc n) c), got (drop (suc n) c) ∷ rest)
    else (elim more.0 [ some b ↦ some (c ++ b) | none ↦ none ], more.1)

abbrev pub fail_with : UtmsServerListEngine → UtmsServerListEngine
fail_with se = record se { got_fatal_error = true }

-- The end of `waitForData`, behind the loop.
abbrev pub receive : UtmsServerListEngine → Option Bytes × List Read → UtmsServerListEngine
receive se (none, conn) = record se { connection = conn; got_fatal_error = true }
receive se (some incoming, conn) = record se {
  connection = conn;
  buffer = incoming;
  current_offset = 0;
}

-- `waitForData`
unfoldable pub wait_for_data : UtmsServerListEngine → Result UtmsServerListEngine
wait_for_data se =
    let header = read_length se.connection in
    elim header.0 [
      | none ↦ ok (fail_with (record se { connection = header.1 }))
      | some length_buffer ↦ uint32_le length_buffer >>= λ expected_len.
          ok (receive se (read_expected expected_len header.1))
    ]

-- `readCompactString`: the second bound of its slice is the length byte itself.
unfoldable pub read_compact_string : UtmsServerListEngine → Result (Bytes × UtmsServerListEngine)
read_compact_string se = index se.buffer se.current_offset >>= λ n.
    slice se.buffer (se.current_offset + 1) n >>= λ s.
    ok (s, record se { current_offset = se.current_offset + 1 })

-- `getCompactStringBuffer`
unfoldable pub get_compact_string_buffer : Bytes → Bytes
get_compact_string_buffer str = ((length str + 1) % 2 ^ 8) ∷ (str ++ (0 ∷ []))

-- `sendBuffer`
unfoldable pub send_buffer : Bytes → UtmsServerListEngine → UtmsServerListEngine
send_buffer b se = record se { sent = se.sent ++ ((put_uint32_le (length b) ++ b) ∷ []) }

-- `binary.LittleEndian.PutUint32(sendBuffer[currentIndex:], v)`
abbrev pub put_uint32 : ℕ → Bytes → Result Bytes
put_uint32 v = put_encoded (put_uint32_le v)

unfoldable pub put_hardware : UtmsServerListEngineParams → Bytes → Result Bytes
put_hardware params done =
    put_uint32 params.gpu_device_id done
    >>= put_uint32 params.gpu_vendor_id
    >>= put_uint32 params.cpu_cycles
    >>= put_byte params.running_cpus

-- `writeClientInfo`
unfoldable pub write_client_info :
    (Bytes → Bytes)
    → UtmsServerListEngineParams
    → UtmsServerListEngine
    → Result UtmsServerListEngine
write_client_info md5_hex params se =
    put_bytes (get_compact_string_buffer (md5_hex params.cd_key)) []
    >>= put_bytes (get_compact_string_buffer (md5_hex (params.cd_key ++ se.challenge)))
    >>= put_bytes (get_compact_string_buffer params.client_name)
    >>= put_uint32 params.client_version
    >>= put_byte params.running_os
    >>= put_bytes (get_compact_string_buffer params.language)
    >>= (λ done. if leb 3000 params.client_version then put_hardware params done else ok done)
    >>= λ done. if leb (length done) 256 then ok (send_buffer done se) else panic slice_range

-- `readChallenge`
unfoldable pub read_challenge :
    (Bytes → Bytes)
    → UtmsServerListEngineParams
    → UtmsServerListEngine
    → Result UtmsServerListEngine
read_challenge md5_hex params se = wait_for_data se >>= λ se1.
    if se1.got_fatal_error
    then ok se1
    else read_compact_string se1 >>= λ r.
        write_client_info md5_hex params (record r.1 { challenge = r.0 })

-- `readVerification`
unfoldable pub read_verification : UtmsServerListEngine → Result UtmsServerListEngine
read_verification se = wait_for_data se >>= λ se1.
    if se1.got_fatal_error
    then ok se1
    else read_compact_string se1 >>= λ r.
        ok (if bytes_eq r.0 (codes "VERIFIED") then r.1 else fail_with r.1)

zeros : ℕ → Bytes
zeros zero = []
zeros (suc n) = 0 ∷ zeros n

abbrev pub verification_data : Bytes
unfolding zeros
verification_data = 0 ∷ 0x14 ∷ 0xe8 ∷ zeros 31

-- `readValidation`
unfoldable pub read_validation :
    UtmsServerListEngineParams → UtmsServerListEngine → Result UtmsServerListEngine
read_validation params se = wait_for_data se >>= λ se1.
    if se1.got_fatal_error
    then ok se1
    else read_compact_string se1 >>= λ r. ok (
        if not (bytes_eq r.0 (codes "APPROVED"))
        then fail_with r.1
        else if leb 3000 params.client_version
        then send_buffer verification_data r.1
        else r.1)

-- `sendListRequest`: both zeros are written to the first byte of a cleared buffer.
unfoldable pub send_list_request : UtmsServerListEngine → UtmsServerListEngine
send_list_request se = send_buffer (0 ∷ 0 ∷ []) se

-- One server of the list, from the bytes at the offset: its address, and the port behind its game port.
unfoldable pub read_server : UtmsServerListEngine → Result UtmsServerListEngine
read_server se =
    let at : ℕ → Result ℕ = λ n. index se.buffer (se.current_offset + n) in
    at 0 >>= λ a. at 1 >>= λ b. at 2 >>= λ c. at 3 >>= λ d.
    slice_from se.buffer (se.current_offset + 6) >>= λ rest. uint16_le rest >>= λ server_port.
    let addr : AddrPort = record {
      addr = v4 (a * 16777216 + b * 65536 + c * 256 + d);
      port = server_port;
    } in
    ok (record se { current_offset = se.current_offset + 6; queried = se.queried ++ (addr ∷ []) })

-- The loop over the servers.
unfoldable pub read_servers : ℕ → UtmsServerListEngine → Result UtmsServerListEngine
read_servers zero se = ok se
read_servers (suc n) se = wait_for_data se >>= λ se1.
    if se1.got_fatal_error then ok se1 else read_server se1 >>= read_servers n

-- `readListResponse`
unfoldable pub read_list_response : UtmsServerListEngine → Result UtmsServerListEngine
read_list_response se = wait_for_data se >>= λ se1.
    if se1.got_fatal_error
    then ok se1
    else slice se1.buffer se1.current_offset 4 >>= λ b. uint32_le b >>= λ num_servers.
        read_servers num_servers (record se1 { current_offset = se1.current_offset + 5 })

-- The end of `readMessage`, from `sendListRequest` on.
unfoldable pub request_list : UtmsServerListEngine → Result UtmsServerListEngine
request_list se =
    let se1 = send_list_request se in if se1.got_fatal_error then ok se1 else read_list_response se1

-- `readMessage`. A fatal error in `readChallenge` does not stop it before `readValidation`.
unfoldable pub read_message :
    (Bytes → Bytes)
    → UtmsServerListEngineParams
    → UtmsServerListEngine
    → Result UtmsServerListEngine
read_message md5_hex params se =
    read_challenge md5_hex params se >>= read_validation params >>= λ se2.
    if se2.got_fatal_error
    then ok se2
    else if leb 3000 params.client_version
    then (read_verification se2 >>= λ se3. if se3.got_fatal_error then ok se3 else request_list se3)
    else request_list se2
