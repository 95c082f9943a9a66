-- ===== src/Samp/Query/Answers.antt =====
-- The answers of a game server, and a length that the datagram does not hold.
use os_serverlist_sync.Base.{
  ℕ, ◌+◌, ◌^◌, ◌≤◌, ◌<◌, false, ◌&&◌, [], ◌∷◌, ◌++◌, some, ltb, leb, ◌==◌, ◌≡◌, refl, sym, ap, ◌∙◌,
  arith, append-nil, append_assoc, length-append, length-drop, drop-append_eq, take-all,
  if◌then◌else◌, length, drop, ok, panic, slice_range, ◌>>=◌ as bind,
}
use os_serverlist_sync.Base.Bytes.{Bytes, codes, itoa, put_uint16_le, put_uint32_le}
use os_serverlist_sync.Base.Int.{ℤ, itoa_int}
use os_serverlist_sync.Base.Net.{UdpAddr, addr_port}
use os_serverlist_sync.Base.Props.{Props, insert}
use os_serverlist_sync.Reader.{
  QueryParserState, Parser, ◌>>=◌, index, slice, read_uint32, read_slice,
}
use os_serverlist_sync.Reader.Rules.{
  Sees, Reads, Reads-pure, Reads-bind, Reads-byte, Reads-uint16, Reads-uint32, Reads-slice,
}
use os_serverlist_sync.Samp.Query.{read_props, is_foreign, listen_step}

-- What a game server tells.
pub record Info : Type 0 where
  pub password : ℕ
  pub players : ℕ
  pub max_players : ℕ
  pub hostname : Bytes
  pub gamemode : Bytes
  pub language : Bytes

pub record IsInfo (i : Info) : Type 0 where
  pub players_fit : i.players < 2 ^ 16
  pub max_players_fit : i.max_players < 2 ^ 16
  pub hostname_fits : length i.hostname < 2 ^ 32
  pub gamemode_fits : length i.gamemode < 2 ^ 32
  pub language_fits : length i.language < 2 ^ 32

-- A text behind its length.
abbrev pub text_bytes : Bytes → Bytes
text_bytes t = put_uint32_le (length t) ++ t

unfoldable pub info_bytes : Info → Bytes
info_bytes i =
    i.password
    ∷ (put_uint16_le i.players
        ++ (put_uint16_le i.max_players
            ++ (text_bytes i.hostname ++ (text_bytes i.gamemode ++ text_bytes i.language))))

unfoldable pub info_props : ℤ → Info → Props
info_props port i = insert (codes "gamevariant") i.language (
    insert (codes "gamemode") i.gamemode (
      insert (codes "hostname") i.hostname (
        insert (codes "maxplayers") (itoa i.max_players) (
          insert (codes "numplayers") (itoa i.players) (
            insert (codes "password") (if i.password == 0 then codes "0" else codes "1")
              (insert (codes "hostport") (itoa_int port) []))))))

text-Reads :
    {A : Type 0} (t : Bytes) (f : Bytes → Parser A) (bs : Bytes) (a : A)
    → length t < 2 ^ 32
    → Reads (f t) bs a
    → Reads (read_uint32 >>= λ n. read_slice n >>= f) (text_bytes t ++ bs) a
text-Reads t f bs a h r =
    Reads-bind _ _ (put_uint32_le (length t)) (t ++ bs) (length t) a (Reads-uint32 (length t) h)
      (Reads-bind _ f t bs t a (Reads-slice t (length t) refl) r)

read_props-Reads :
    (port : ℤ) (i : Info) → IsInfo i → Reads (read_props port) (info_bytes i) (info_props port i)
unfolding read_props info_bytes info_props
read_props-Reads port i h =
    Reads-bind _ _ (i.password ∷ []) _ i.password _ (Reads-byte i.password) (
      Reads-bind _ _ (put_uint16_le i.players) _ i.players _ (Reads-uint16 i.players h.players_fit)
        (Reads-bind _ _ (put_uint16_le i.max_players) _ i.max_players _
          (Reads-uint16 i.max_players h.max_players_fit)
          (text-Reads i.hostname _ _ _ h.hostname_fits (
            text-Reads i.gamemode _ _ _ h.gamemode_fits (
              rw (← append-nil (text_bytes i.language))
                (text-Reads i.language _ [] _ h.language_fits (Reads-pure _)))))))

-- The head of an answer: the four letters, and seven bytes that the engine skips.
abbrev pub magic : Bytes → Bytes
magic echo = 0x53 ∷ 0x41 ∷ 0x4d ∷ 0x50 ∷ echo

-- The datagram as it stands at the front of the receive buffer.
abbrev pub received : Bytes → Bytes → Bytes
received buf datagram = datagram ++ drop (length datagram) buf

-- The state in which the engine starts to read a datagram.
abbrev start : Bytes → Bytes → Bytes → QueryParserState
start buf echo body = record {
  total_length = length (magic (echo ++ body));
  current_offset = 11;
  buffer = received buf (magic (echo ++ body));
}

module _ (buf echo body : Bytes) (addr : UdpAddr) (seven : length echo ≡ 7) where
  start-Sees :
      length (magic (echo ++ body)) ≤ length buf
      → Sees (start buf echo body) (body ++ drop (length (magic (echo ++ body))) buf)
  start-Sees h =
      let rest = drop (length (magic (echo ++ body))) buf in
      (
        omega (arith, length-append echo body, length-append (magic (echo ++ body)) rest),
        ap (drop 7) (append_assoc echo body rest)
            ∙ drop-append_eq 7 echo (body ++ rest) (sym seven),
      )

  listen_step-start :
      length (magic (echo ++ body)) ≤ length buf
      → listen_step buf (magic (echo ++ body)) addr
        ≡ bind (read_props addr.port (start buf echo body)) λ r. ok (
          received buf (magic (echo ++ body)),
          some (record { source = addr; props = r.0; completed = addr_port addr }),
        )
  unfolding listen_step is_foreign index
  listen_step-start h =
      let whole = take-all (length buf) (magic (echo ++ body)) h in
      let long : ltb (length (magic (echo ++ body))) 11 ≡ false =
        ground (arith, length-append echo body) in
      rw (whole, long) refl

-- An answer that fits the receive buffer, with seven bytes behind the magic ones and lengths and numbers
-- that fit their fields, is reported with what the server told, and completed under the address that
-- it came from, whatever earlier datagrams left in the buffer.
pub listen_step-info :
    (buf echo : Bytes) (i : Info) (addr : UdpAddr)
    → length echo ≡ 7
    → IsInfo i
    → length (magic (echo ++ info_bytes i)) ≤ length buf
    → listen_step buf (magic (echo ++ info_bytes i)) addr
      ≡ ok (
        received buf (magic (echo ++ info_bytes i)),
        some (record { source = addr; props = info_props addr.port i; completed = addr_port addr }),
      )
listen_step-info buf echo i addr seven k h =
    let seen = start-Sees buf echo (info_bytes i) addr seven h in
    let (s', e, _) = (read_props-Reads addr.port i k).run (start buf echo (info_bytes i)) _ seen in
    listen_step-start buf echo (info_bytes i) addr seven h ∙ rw e

-- What stands in front of the name of the server.
abbrev pub counts_bytes : ℕ → ℕ → ℕ → ℕ → Bytes
counts_bytes password players max_players n =
    password ∷ (put_uint16_le players ++ (put_uint16_le max_players ++ put_uint32_le n))

read_slice-panics :
    (s : QueryParserState) (n : ℕ) (rest : Bytes)
    → Sees s rest
    → length rest < n
    → read_slice n s ≡ panic slice_range
unfolding read_slice slice
read_slice-panics s n rest h l =
    let size = length-drop s.current_offset s.buffer in
    let short : (leb s.current_offset (s.current_offset + n)
          && leb (s.current_offset + n) (length s.buffer))
        ≡ false =
      ground (arith, size, ap length h.1, h.0) in
    rw short

read_props-panics :
    (port : ℤ) (password players max_players n : ℕ) (rest : Bytes) (s : QueryParserState)
    → players < 2 ^ 16
    → max_players < 2 ^ 16
    → n < 2 ^ 32
    → Sees s (counts_bytes password players max_players n ++ rest)
    → length rest < n
    → read_props port s ≡ panic slice_range
unfolding read_props ◌>>=◌
read_props-panics port password players max_players n rest s p q r h l =
    let (s1, e1, h1) = (Reads-byte password).run s _ h in
    let (s2, e2, h2) = (Reads-uint16 players p).run s1 _ h1 in
    let (s3, e3, h3) = (Reads-uint16 max_players q).run s2 _ h2 in
    let (s4, e4, h4) = (Reads-uint32 n r).run s3 rest h3 in
    rw (e1, e2, e3, e4, read_slice-panics s4 n rest h4 l)

-- The lengths are not checked: an answer that fits the receive buffer, with seven bytes behind the magic
-- ones and numbers that fit their fields, makes the process panic if the length of its name goes
-- beyond the end of the buffer.
pub listen_step-overlong :
    (buf echo : Bytes) (password players max_players n : ℕ) (rest : Bytes) (addr : UdpAddr)
    → length echo ≡ 7
    → players < 2 ^ 16
    → max_players < 2 ^ 16
    → n < 2 ^ 32
    → length (magic (echo ++ (counts_bytes password players max_players n ++ rest))) ≤ length buf
    → length buf < 20 + n
    → listen_step buf (magic (echo ++ (counts_bytes password players max_players n ++ rest))) addr
      ≡ panic slice_range
listen_step-overlong buf echo password players max_players n rest addr seven p q r h l =
    let body = counts_bytes password players max_players n ++ rest in
    let stale = drop (length (magic (echo ++ body))) buf in
    let seen = start-Sees buf echo body addr seven h in
    let size : length (rest ++ stale) < n = omega (
      arith,
      length-append rest stale,
      length-drop (length (magic (echo ++ body))) buf,
      length-append echo body,
    ) in
    let failed =
      read_props-panics addr.port password players max_players n (rest ++ stale)
        (start buf echo body) p q r seen size in
    listen_step-start buf echo body addr seven h ∙ rw failed
