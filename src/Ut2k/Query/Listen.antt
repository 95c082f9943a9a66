-- ===== src/Ut2k/Query/Listen.antt =====
-- One round of `listen` of the Unreal Tournament query engine.
use os_serverlist_sync.Base.{
  ℕ, zero, suc, ◌≤◌, ◌<◌, ◌^◌, List, [], ◌∷◌, ◌++◌, some, ◌≡◌, refl, ap, arith, true, length, take,
  drop, set, take-all, ok, ltb,
}
use os_serverlist_sync.Base.Bytes.{Bytes}
use os_serverlist_sync.Base.Net.{UdpAddr}
use os_serverlist_sync.Ut2k.Query.{answer_from, listen_step}
use os_serverlist_sync.Ut2k.Query.Response.{
  Info, IsInfo, answer_bytes, info_props, handle_response-answer,
}

module _ {A : Type 0} where
  length-take_le : (n : ℕ) (xs : List A) → n ≤ length xs → length (take n xs) ≡ n
  length-take_le zero xs h = refl
  length-take_le (suc n) [] h = absurd (omega arith)
  length-take_le (suc n) (x ∷ xs) h = ap suc (length-take_le n xs (omega arith))

  set-length : (xs ys : List A) (v : A) → set (xs ++ ys) (length xs) v ≡ xs ++ set ys 0 v
  set-length [] ys v = refl
  set-length (x ∷ xs) ys v = ap (◌∷◌ x) (set-length xs ys v)

-- The answer of a game server of the configured version is reported with what the server told, whatever
-- earlier datagrams left in the buffer, if the answer is shorter than the receive buffer, the version
-- and the numbers of players have 32 bits, and each text is of pieces that are a byte other than NUL
-- and escape or a colour code, shorter than 2^35 bytes.
pub listen_step-answer :
    (version : ℕ) (i : Info) (source : UdpAddr) (buf : Bytes)
    → version < 2 ^ 32
    → IsInfo i
    → length (answer_bytes version i) < length buf
    → (buf' : Bytes) × (listen_step version buf (answer_bytes version i) source
        ≡ ok (buf', some (answer_from source (info_props version i))))
unfolding listen_step
listen_step-answer version i source buf h k l =
    let sent = answer_bytes version i in
    let whole = take-all (length buf) sent (omega arith) in
    let rest = set (drop (length sent) buf) 0 0 in
    let short : ltb (length sent) (length buf) ≡ true = ground arith in
    (
      sent ++ rest,
      rw
          (
            whole,
            short,
            set-length sent (drop (length sent) buf) 0,
            handle_response-answer version i source (length sent) rest h k,
          )
          refl,
    )
