-- ===== src/Ut2k/Query/Response.antt =====
-- `handleResponse` on the answer of a game server, and what the engine then reports.
use os_serverlist_sync.Base.{
  ℕ, ◌+◌, ◌<◌, ◌^◌, ◌%◌, ◌/◌, true, List, [], ◌∷◌, ◌++◌, none, some, ◌≡◌, ◌≢◌, refl, arith, ltb,
  ◌==◌, append-nil, if◌then◌else◌, Bool-cases, inl, inr, ◌⊎◌, All, length, ok,
}
use os_serverlist_sync.Base.Bytes.{Bytes, codes, itoa, put_uint32_le}
use os_serverlist_sync.Base.Net.{UdpAddr}
use os_serverlist_sync.Base.Props.{Props, insert}
use os_serverlist_sync.Reader.{QueryParserState, pure, ◌>>=◌, ◌>>◌, slice, skip, read_uint32}
use os_serverlist_sync.Reader.Rules.{
  Reads, Reads-pure, Reads-bind, Reads-byte, Reads-skip, Reads-uint32, from_le,
}
use os_serverlist_sync.Ut2k.Query.{
  ut2004_version, read_compact_string, read_props, answer_from, handle_response,
}
use os_serverlist_sync.Ut2k.Query.Strings.{
  Piece, IsText, render, display, compact_string, read_compact_string-Reads,
}

-- What a game server tells. The parts that the engine skips are bytes of any value: the server id,
-- the ports of the game and of the query, the flags behind the players, and those of 2004.
pub record Info : Type 0 where
  pub server_id : ℕ
  pub address : List Piece
  pub game_port : ℕ
  pub query_port : ℕ
  pub hostname : List Piece
  pub level : List Piece
  pub gamegroup : List Piece
  pub num_players : ℕ
  pub max_players : ℕ
  pub ping : ℕ
  pub flags : ℕ
  pub skill : List Piece

abbrev pub Sendable : List Piece → Type 0
Sendable ps = All IsText ps × (length (render ps) + 1 < 2 ^ 35)

pub record IsInfo (i : Info) : Type 0 where
  pub address_fits : Sendable i.address
  pub hostname_fits : Sendable i.hostname
  pub level_fits : Sendable i.level
  pub gamegroup_fits : Sendable i.gamegroup
  pub num_players_fits : i.num_players < 2 ^ 32
  pub max_players_fits : i.max_players < 2 ^ 32
  pub skill_fits : Sendable i.skill

-- What stands behind the players: 2004 has four bytes and the bot level more.
unfoldable pub extra_bytes : ℕ → Info → Bytes
extra_bytes version i =
    if version == ut2004_version then put_uint32_le i.flags ++ compact_string i.skill else []

-- The answer behind its version and query type.
unfoldable pub info_bytes : ℕ → Info → Bytes
info_bytes version i =
    put_uint32_le i.server_id
    ++ (compact_string i.address
        ++ (put_uint32_le i.game_port
            ++ (put_uint32_le i.query_port
                ++ (compact_string i.hostname
                    ++ (compact_string i.level
                        ++ (compact_string i.gamegroup
                            ++ (put_uint32_le i.num_players
                                ++ (put_uint32_le i.max_players
                                    ++ (put_uint32_le i.ping ++ extra_bytes version i)))))))))

unfoldable pub answer_bytes : ℕ → Info → Bytes
answer_bytes version i = put_uint32_le version ++ (0 ∷ info_bytes version i)

-- The properties that describe the server.
unfoldable pub info_props : ℕ → Info → Props
info_props version i =
    let m1 = insert (codes "hostname") (display i.hostname) [] in
    let m2 = insert (codes "mapname") (display i.level) m1 in
    let m3 = insert (codes "gametype") (display i.gamegroup) m2 in
    let m4 = insert (codes "numplayers") (itoa i.num_players) m3 in
    let m5 = insert (codes "maxplayers") (itoa i.max_players) m4 in
    let m6 =
      (if version == ut2004_version then insert (codes "botlevel") (display i.skill) m5 else m5) in
    let m7 =
      insert (codes "freespace") (if ltb i.num_players i.max_players then codes "1" else codes "0")
        m6 in
    insert (codes "nomutators") (codes "false") (
      insert (codes "standard") (codes "true")
        (insert (codes "currentplayers") (itoa i.num_players) m7))

string-Reads :
    (ps : List Piece) → Sendable ps → Reads read_compact_string (compact_string ps) (display ps)
string-Reads ps h = read_compact_string-Reads ps h.0 h.1

skip-Reads : (v : ℕ) → Reads (skip 4) (put_uint32_le v) tt
skip-Reads v = Reads-skip (put_uint32_le v) 4 refl

last-Reads {ℓ} : {A : Type ℓ} (a b : A) → a ≡ b → Reads (pure a) [] b
last-Reads a b e = rw e (Reads-pure b)

extra-Reads :
    (version : ℕ) (i : Info) (m : Props)
    → IsInfo i
    → Reads
        (if version == ut2004_version
          then (do skip 4; skill ← read_compact_string; pure (insert (codes "botlevel") skill m))
          else pure m)
        (extra_bytes version i)
        (if version == ut2004_version then insert (codes "botlevel") (display i.skill) m else m)
unfolding extra_bytes
extra-Reads version i m h = elim (Bool-cases (version == ut2004_version)) [
  | inl e ↦ rw e (
      Reads-bind _ _ _ _ tt _ (skip-Reads i.flags) (
        rw (← append-nil (compact_string i.skill)) (
          Reads-bind _ _ _ [] (display i.skill) _ (string-Reads i.skill h.skill_fits)
            (Reads-pure _))))
  | inr e ↦ rw e (Reads-pure m)
]

-- The reading from the players on; `m` holds what was read before.
counts-Reads :
    (version : ℕ) (i : Info) (m : ℕ → ℕ → Props) (last : ℕ → ℕ → Props → Props)
    → IsInfo i
    → Reads
        (do
          num_players ← read_uint32
          max_players ← read_uint32
          skip 4
          let m5 = m num_players max_players
          m6 ←
              (if version == ut2004_version
                then (do
                  skip 4
                  skill ← read_compact_string
                  pure (insert (codes "botlevel") skill m5))
                else pure m5)
          pure (last num_players max_players m6))
        (put_uint32_le i.num_players
          ++ (put_uint32_le i.max_players ++ (put_uint32_le i.ping ++ extra_bytes version i)))
        (last i.num_players i.max_players (
          if version == ut2004_version
          then insert (codes "botlevel") (display i.skill) (m i.num_players i.max_players)
          else m i.num_players i.max_players))
counts-Reads version i m last h =
    Reads-bind _ _ (put_uint32_le i.num_players) _ i.num_players _
      (Reads-uint32 i.num_players h.num_players_fits)
      (Reads-bind _ _ (put_uint32_le i.max_players) _ i.max_players _
        (Reads-uint32 i.max_players h.max_players_fits)
        (Reads-bind _ _ (put_uint32_le i.ping) _ tt _ (skip-Reads i.ping) (
          rw (← append-nil (extra_bytes version i)) (
            Reads-bind _ _ (extra_bytes version i) [] _ _
              (extra-Reads version i (m i.num_players i.max_players) h) (Reads-pure _)))))

read_props-Reads :
    (version : ℕ) (i : Info)
    → IsInfo i
    → Reads (read_props version) (info_bytes version i) (info_props version i)
unfolding read_props info_bytes info_props
read_props-Reads version i h =
    Reads-bind _ _ (put_uint32_le i.server_id) _ tt _ (skip-Reads i.server_id) (
      Reads-bind _ _ _ _ (display i.address) _ (string-Reads i.address h.address_fits) (
        Reads-bind _ _ (put_uint32_le i.game_port) _ tt _ (skip-Reads i.game_port) (
          Reads-bind _ _ (put_uint32_le i.query_port) _ tt _ (skip-Reads i.query_port) (
            Reads-bind _ _ _ _ (display i.hostname) _ (string-Reads i.hostname h.hostname_fits) (
              Reads-bind _ _ _ _ (display i.level) _ (string-Reads i.level h.level_fits) (
                Reads-bind _ _ _ _ (display i.gamegroup) _
                  (string-Reads i.gamegroup h.gamegroup_fits)
                  (counts-Reads version i
                    (λ n x. insert (codes "maxplayers") (itoa x) (
                      insert (codes "numplayers") (itoa n) (
                        insert (codes "gametype") (display i.gamegroup) (
                          insert (codes "mapname") (display i.level)
                            (insert (codes "hostname") (display i.hostname) [])))))
                    (λ n x m6. insert (codes "nomutators") (codes "false") (
                      insert (codes "standard") (codes "true") (
                        insert (codes "currentplayers") (itoa n) (
                          insert (codes "freespace") (if ltb n x then codes "1" else codes "0")
                            m6))))
                    h)))))))

slice_four : (a b c d : ℕ) (r : Bytes) → slice (a ∷ b ∷ c ∷ d ∷ r) 0 4 ≡ ok (a ∷ b ∷ c ∷ d ∷ [])
unfolding slice
slice_four a b c d r = ground arith

-- An answer of the configured version, at the front of a buffer that may hold anything behind it,
-- is read to the end without a panic, and reported with all the properties of the server.
pub handle_response-answer :
    (version : ℕ) (i : Info) (source : UdpAddr) (total : ℕ) (rest : Bytes)
    → version < 2 ^ 32
    → IsInfo i
    → handle_response version source (record {
      total_length = total;
      current_offset = 0;
      buffer = answer_bytes version i ++ rest;
    })
      ≡ ok (some (answer_from source (info_props version i)))
unfolding handle_response answer_bytes
handle_response-answer version i source total rest h k =
    let buffer = put_uint32_le version ++ (0 ∷ info_bytes version i) ++ rest in
    let s1 : QueryParserState = record {
      total_length = total;
      current_offset = 4;
      buffer = buffer;
    } in
    let (s2, e2, h2) = (Reads-byte 0).run s1 (info_bytes version i ++ rest) (omega arith, refl) in
    let (s3, e3, h3) = (read_props-Reads version i k).run s2 rest h2 in
    let head =
      slice_four (version % 256) (version / 256 % 256) (version / 65536 % 256)
        (version / 16777216 % 256) (0 ∷ (info_bytes version i ++ rest)) in
    let same : (version == version) ≡ true = ground arith in
    rw (head, from_le version [] h, same, e2, e3) refl

-- A packet whose version is not the configured one, or whose query type is not 0, is dropped: nothing
-- is reported and nothing completed, whatever stands behind the query type.
pub handle_response-ignored :
    (version version_id kind : ℕ) (source : UdpAddr) (total : ℕ) (rest : Bytes)
    → version < 2 ^ 32
    → (version ≢ version_id) ⊎ (kind ≢ 0)
    → handle_response version_id source (record {
      total_length = total;
      current_offset = 0;
      buffer = put_uint32_le version ++ (kind ∷ rest);
    })
      ≡ ok none
unfolding handle_response
handle_response-ignored version version_id kind source total rest h k =
    let buffer = put_uint32_le version ++ (kind ∷ rest) in
    let s1 : QueryParserState = record {
      total_length = total;
      current_offset = 4;
      buffer = buffer;
    } in
    let (s2, e2, h2) = (Reads-byte kind).run s1 rest (omega arith, refl) in
    let head =
      slice_four (version % 256) (version / 256 % 256) (version / 65536 % 256)
        (version / 16777216 % 256) (kind ∷ rest) in
    rw (head, from_le version [] h) (ground (arith, e2))
