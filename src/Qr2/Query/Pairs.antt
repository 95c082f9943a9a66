-- ===== src/Qr2/Query/Pairs.antt =====
-- The engine on a well-formed answer: it reports the keys and values that the server sent.
use os_serverlist_sync.Base.{
  ℕ, zero, suc, ◌+◌, ◌≤◌, ◌<◌, false, List, [], ◌∷◌, ◌++◌, some, ◌≡◌, ◌≢◌, refl, sym, ap, ◌∙◌,
  arith, ◌==◌, ltb, All, length, take, drop, take-all, length-append, drop-append_eq, append-nil,
  append_assoc, get_elem?-drop, ok,
}
use native.Mathlib.Numerals.{add-one}
use os_serverlist_sync.Base.Bytes.{Bytes, string_of_byte, to_utf8}
use os_serverlist_sync.Base.Net.{UdpAddr, addr_port}
use os_serverlist_sync.Base.Props.{Props, insert}
use os_serverlist_sync.Reader.{QueryParserState, pure, ◌>>=◌, read_byte}
use os_serverlist_sync.Qr2.Query.{string_loop, read_string, pairs_loop, listen_step}
use os_serverlist_sync.Qr2.Query.Total.{Fits, read_string-total, received}

-- These bytes stand at the offset.
abbrev Sees : QueryParserState → Bytes → Type 0
Sees s bs = drop s.current_offset s.buffer ≡ bs

abbrev pub HasNoNul : Bytes → Type 0
HasNoNul s = All (λ b. b ≢ 0) s

-- A key and a value as they are sent.
abbrev pub pairs_bytes : List (Bytes × Bytes) → Bytes
pairs_bytes [] = 0 ∷ []
pairs_bytes ((k, v) ∷ ps) = k ++ (0 ∷ (v ++ (0 ∷ pairs_bytes ps)))

-- The map that holds the pairs; of two with one key the later wins.
abbrev pub insert_all : List (Bytes × Bytes) → Props → Props
insert_all [] m = m
insert_all ((k, v) ∷ ps) m = insert_all ps (insert (to_utf8 k) (to_utf8 v) m)

abbrev pub IsPair : Bytes × Bytes → Type 0
IsPair (k, v) = (k ≢ []) × HasNoNul k × HasNoNul v

read_byte-Sees :
    (s : QueryParserState) {b : ℕ} {r : Bytes}
    → Sees s (b ∷ r)
    → (read_byte s ≡ ok (b, record s { current_offset = s.current_offset + 1 }))
      × (drop (s.current_offset + 1) s.buffer ≡ r)
unfolding read_byte
read_byte-Sees s h =
    let (e, d, _) = get_elem?-drop s.current_offset s.buffer h in (ground (arith, e), rw add-one d)

string_loop-Sees :
    (str : Bytes) (left : ℕ) (out rest : Bytes) (s : QueryParserState) (k : ℕ)
    → HasNoNul str
    → Sees s (str ++ (0 ∷ rest))
    → length str < left
    → k ≡ s.current_offset + length str + 1
    → (string_loop left out s ≡ ok (out ++ to_utf8 str, record s { current_offset = k }))
      × (drop k s.buffer ≡ rest)
unfolding string_loop ◌>>=◌ pure to_utf8
string_loop-Sees str zero out rest s k t h l e = absurd (omega arith)
string_loop-Sees [] (suc left) out rest s k t h l e =
    let (r, d) = read_byte-Sees s h in
    let e' : k ≡ s.current_offset + 1 = omega arith in rw (e', append-nil) (rw r refl, d)
string_loop-Sees (b ∷ str) (suc left) out rest s k t h l e =
    let (r, d) = read_byte-Sees s h in
    let s1 : QueryParserState = record s { current_offset = s.current_offset + 1 } in
    let (r', d') =
      string_loop-Sees str left (out ++ string_of_byte b) rest s1 k t.1 d (omega arith)
        (omega arith) in
    let go : (b == 0) ≡ false = ground (arith, t.0) in (rw (r, go, ← append_assoc) r', d')

read_string-Sees :
    (str rest : Bytes) (s : QueryParserState) (k : ℕ)
    → HasNoNul str
    → Sees s (str ++ (0 ∷ rest))
    → s.current_offset + length str < s.total_length
    → k ≡ s.current_offset + length str + 1
    → (read_string s ≡ ok (to_utf8 str, record s { current_offset = k })) × (drop k s.buffer ≡ rest)
unfolding read_string
read_string-Sees str rest s k t h l e = string_loop-Sees str _ [] rest s k t h (omega arith) e

pub to_utf8-pos : (s : Bytes) → s ≢ [] → (length (to_utf8 s) == 0) ≡ false
unfolding to_utf8 string_of_byte
to_utf8-pos [] h = absurd (h refl)
to_utf8-pos (b ∷ s) h = ground (arith, length-append (string_of_byte b) (to_utf8 s))

pairs_loop-Sees :
    (ps : List (Bytes × Bytes)) (fuel : ℕ) (m : Props) (rest : Bytes) (s : QueryParserState)
    → All IsPair ps
    → Fits s
    → Sees s (pairs_bytes ps ++ rest)
    → s.current_offset + length (pairs_bytes ps) ≤ s.total_length
    → length ps < fuel
    → (s' : QueryParserState) × (pairs_loop fuel m s ≡ ok (insert_all ps m, s'))
unfolding pairs_loop ◌>>=◌ pure
pairs_loop-Sees ps zero m rest s t f h l e = absurd (omega arith)
pairs_loop-Sees [] (suc fuel) m rest s t f h l e =
    let (r1, d1) =
      read_string-Sees [] rest s (s.current_offset + 1) tt h (omega arith) (omega arith) in
    let s1 : QueryParserState = record s { current_offset = s.current_offset + 1 } in
    let (v, s2, r2, _, _) = read_string-total s1 (record { within = omega arith; fits = f.fits }) in
    (s2, unfold to_utf8 in rw (r1, r2) refl)
pairs_loop-Sees ((k, v) ∷ ps) (suc fuel) m rest s (t, ts) f h l e =
    let after = v ++ (0 ∷ pairs_bytes ps) in
    let o1 = s.current_offset + length k + 1 in
    let size1 = length-append k (0 ∷ after) in
    let size2 = length-append v (0 ∷ pairs_bytes ps) in
    let (r1, d1) =
      read_string-Sees k (after ++ rest) s o1 t.1 (h ∙ append_assoc k (0 ∷ after) rest)
        (omega (arith, size1)) refl in
    let s1 : QueryParserState = record s { current_offset = o1 } in
    let o2 = o1 + length v + 1 in
    let (r2, d2) =
      read_string-Sees v (pairs_bytes ps ++ rest) s1 o2 t.2
        (d1 ∙ append_assoc v (0 ∷ pairs_bytes ps) rest) (omega (arith, size1, size2)) refl in
    let s2 : QueryParserState = record s { current_offset = o2 } in
    let (s', r3) =
      pairs_loop-Sees ps fuel (insert (to_utf8 k) (to_utf8 v) m) rest s2 ts
        (record { within = omega (arith, size1, size2); fits = f.fits }) d2
        (omega (arith, size1, size2)) (omega arith) in
    (s', rw (r1, r2, to_utf8-pos k t.0) r3)

length-pairs_bytes : (ps : List (Bytes × Bytes)) → length ps < length (pairs_bytes ps)
length-pairs_bytes [] = omega arith
length-pairs_bytes ((k, v) ∷ ps) = omega (
  arith,
  length-append k (0 ∷ (v ++ (0 ∷ pairs_bytes ps))),
  length-append v (0 ∷ pairs_bytes ps),
  length-pairs_bytes ps,
)

-- An answer that fits the receive buffer, with five bytes in front and any keys and values that
-- hold no NUL, no key empty, is reported with those keys and values (their bytes as UTF-8), and
-- completed under the address that it came from.
pub listen_step-pairs :
    (buf head : Bytes) (ps : List (Bytes × Bytes)) (addr : UdpAddr)
    → length head ≡ 5
    → All IsPair ps
    → length (head ++ pairs_bytes ps) ≤ length buf
    → listen_step buf (head ++ pairs_bytes ps) addr
      ≡ ok (
        received buf (head ++ pairs_bytes ps),
        some (record { source = addr; props = insert_all ps []; completed = addr_port addr }),
      )
unfolding listen_step
listen_step-pairs buf head ps addr five t h =
    let sent = head ++ pairs_bytes ps in
    let rest = drop (length sent) buf in
    let size = length-append head (pairs_bytes ps) in
    let pos = length-pairs_bytes ps in
    let state : QueryParserState = record {
      total_length = length sent;
      current_offset = 5;
      buffer = sent ++ rest;
    } in
    let whole : take (length buf) sent ≡ sent = take-all (length buf) sent h in
    let long : ltb (length sent) 6 ≡ false = ground (arith, size, pos) in
    let seen : Sees state (pairs_bytes ps ++ rest) =
      ap (drop 5) (append_assoc head (pairs_bytes ps) rest)
      ∙ drop-append_eq 5 head (pairs_bytes ps ++ rest) (sym five) in
    let fit : Fits state = record {
      within = omega (arith, size, pos);
      fits = omega (arith, length-append sent rest);
    } in
    let (s', e) =
      pairs_loop-Sees ps (length sent + 1) [] rest state t fit seen (omega (arith, size))
        (omega (arith, size, pos)) in
    rw (whole, long, e)
