-- ===== src/Ut2k/MasterServer/ClientInfo.antt =====
-- What the client says about itself fits the buffer of 256 bytes, or `writeClientInfo` panics.
use os_serverlist_sync.Base.{
  ◌%◌, ◌^◌, ◌≤◌, true, [], ◌∷◌, ◌++◌, ◌≡◌, refl, arith, leb, if◌then◌else◌, length, ok,
}
use os_serverlist_sync.Base.Bytes.{Bytes, put_uint32_le}
use os_serverlist_sync.Base.SendBuffer.{
  Puts, Puts-bytes, Puts-encoded, Puts-byte, Puts-bind, Puts-if,
}
use os_serverlist_sync.Ut2k.MasterServer.{
  UtmsServerListEngineParams, UtmsServerListEngine, get_compact_string_buffer, put_hardware,
  write_client_info, send_buffer,
}

abbrev pub hardware_bytes : UtmsServerListEngineParams → Bytes
hardware_bytes params =
    ((put_uint32_le params.gpu_device_id ++ put_uint32_le params.gpu_vendor_id)
      ++ put_uint32_le params.cpu_cycles)
    ++ ((params.running_cpus % 2 ^ 8) ∷ [])

-- The fields of the message, in order; the hardware from version 3000 on.
abbrev pub client_info : (Bytes → Bytes) → UtmsServerListEngineParams → Bytes → Bytes
client_info md5_hex params challenge =
    (((((get_compact_string_buffer (md5_hex params.cd_key)
              ++ get_compact_string_buffer (md5_hex (params.cd_key ++ challenge)))
            ++ get_compact_string_buffer params.client_name)
          ++ put_uint32_le params.client_version)
        ++ ((params.running_os % 2 ^ 8) ∷ []))
      ++ get_compact_string_buffer params.language)
    ++ (if leb 3000 params.client_version then hardware_bytes params else [])

Puts-hardware :
    (params : UtmsServerListEngineParams) → Puts (put_hardware params) (hardware_bytes params)
unfolding put_hardware
Puts-hardware params =
    Puts-bind _ _ _ _
      (Puts-bind _ _ _ _
        (Puts-bind _ _ _ _ (Puts-encoded (put_uint32_le params.gpu_device_id))
          (Puts-encoded (put_uint32_le params.gpu_vendor_id)))
        (Puts-encoded (put_uint32_le params.cpu_cycles)))
      (Puts-byte params.running_cpus)

module _ (md5_hex : Bytes → Bytes) (params : UtmsServerListEngineParams) where
  -- The client's message is written field by field: if its fields take at most 256 bytes, one message
  -- that holds them in order, its length in front, is sent, and nothing else changes.
  pub write_client_info-fits :
      (se : UtmsServerListEngine)
      → length (client_info md5_hex params se.challenge) ≤ 256
      → write_client_info md5_hex params se
        ≡ ok (send_buffer (client_info md5_hex params se.challenge) se)
  unfolding write_client_info Puts
  write_client_info-fits se h =
      let all =
        Puts-bind _ _ _ _
          (Puts-bind _ _ _ _
            (Puts-bind _ _ _ _
              (Puts-bind _ _ _ _
                (Puts-bind _ _ _ _
                  (Puts-bind _ _ _ _
                    (Puts-bytes (get_compact_string_buffer (md5_hex params.cd_key)))
                    (Puts-bytes
                      (get_compact_string_buffer (md5_hex (params.cd_key ++ se.challenge)))))
                  (Puts-bytes (get_compact_string_buffer params.client_name)))
                (Puts-encoded (put_uint32_le params.client_version)))
              (Puts-byte params.running_os))
            (Puts-bytes (get_compact_string_buffer params.language)))
          (Puts-if (leb 3000 params.client_version) _ _ (Puts-hardware params)) []
          (omega (arith, h)) in
      let room : leb (length (client_info md5_hex params se.challenge)) 256 ≡ true =
        ground (arith, h) in
      rw (all, room) refl
