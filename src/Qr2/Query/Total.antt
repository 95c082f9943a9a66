-- ===== src/Qr2/Query/Total.antt =====
-- No datagram makes the engine panic, and its loop over keys and values ends.
use os_serverlist_sync.Base.{
  ℕ, zero, suc, ◌+◌, ◌-◌, ◌≤◌, ◌<◌, true, List, [], ◌∷◌, ◌++◌, some, none, ◌≡◌, refl, ap, arith,
  ◌==◌, inl, inr, Bool-cases, ◌≢◌, ◌⊎◌, length, ltb, min, take, drop, length-take, length-overlay,
  length-pos, get_elem?, ok,
}
use os_serverlist_sync.Base.Bytes.{Bytes, string_of_byte}
use os_serverlist_sync.Base.Net.{UdpAddr, addr_port}
use os_serverlist_sync.Base.Props.{Props, insert}
use os_serverlist_sync.Reader.{QueryParserState, pure, ◌>>=◌, read_byte}
use os_serverlist_sync.Qr2.Query.{string_loop, read_string, pairs_loop, listen_step}

-- The offset is within the datagram, and the datagram within the buffer.
pub record Fits (s : QueryParserState) : Type 0 where
  pub within : s.current_offset ≤ s.total_length
  pub fits : s.total_length ≤ length s.buffer

get_elem?-some :
    {A : Type 0} (xs : List A) (n : ℕ) → n < length xs → (x : A) × (get_elem? xs n ≡ some x)
get_elem?-some [] n h = absurd (omega arith)
get_elem?-some (x ∷ xs) zero h = (x, refl)
get_elem?-some (x ∷ xs) (suc n) h = get_elem?-some xs n (omega arith)

pub read_byte_lem :
    (s : QueryParserState)
    → s.current_offset < length s.buffer
    → (b : ℕ) × (read_byte s ≡ ok (b, record s { current_offset = s.current_offset + 1 }))
unfolding read_byte
read_byte_lem s h =
    let (b, e) = get_elem?-some s.buffer s.current_offset h in (b, ground (arith, e))

-- A string is read without a panic, in the same buffer; if it is not empty, the offset moved.
StringRead : ℕ → Bytes → QueryParserState → Type 0
StringRead left out s =
    (v : Bytes) × (s' : QueryParserState) × (string_loop left out s ≡ ok (v, s'))
    × (s'.buffer ≡ s.buffer)
    × (s'.total_length ≡ s.total_length)
    × (s'.current_offset ≤ s.current_offset + left)
    × (s.current_offset ≤ s'.current_offset)
    × ((length out < length v) → s.current_offset < s'.current_offset)

string_loop-StringRead :
    (left : ℕ) (out : Bytes) (s : QueryParserState)
    → s.current_offset + left ≤ length s.buffer
    → StringRead left out s
unfolding StringRead string_loop ◌>>=◌ pure
string_loop-StringRead zero out s h =
    (out, s, refl, refl, refl, omega arith, omega arith, λ l. absurd (omega arith))
string_loop-StringRead (suc left) out s h =
    let (b, e) = read_byte_lem s (omega arith) in
    let s1 : QueryParserState = record s { current_offset = s.current_offset + 1 } in
    let (v, s', r, q, t, up, lo, grow) =
      string_loop-StringRead left (out ++ string_of_byte b) s1 (omega arith) in
    elim (Bool-cases (b == 0)) [
      | inl nul ↦ (
        out,
        s1,
        rw (e, nul) refl,
        refl,
        refl,
        omega arith,
        omega arith,
        λ l. absurd (omega arith),
      )
      | inr go ↦ (v, s', rw (e, go) r, q, t, omega arith, omega arith, λ _. omega arith)
    ]

-- What one call of `readString` leaves of a state that fits.
pub record ReadOn (s s' : QueryParserState) : Type 0 where
  pub still : Fits s'
  pub same_buffer : s'.buffer ≡ s.buffer
  pub same_total : s'.total_length ≡ s.total_length
  pub forward : s.current_offset ≤ s'.current_offset

pub read_string-total :
    (s : QueryParserState)
    → Fits s
    → (v : Bytes) × (s' : QueryParserState) × (read_string s ≡ ok (v, s'))
      × ReadOn s s'
      × (v ≢ [] → s.current_offset < s'.current_offset)
unfolding read_string StringRead
read_string-total s f =
    let (v, s', r, q, t, up, lo, grow) =
      string_loop-StringRead (s.total_length - s.current_offset) [] s (omega (arith, f)) in
    (
      v,
      s',
      r,
      record {
        still = record { within = omega (arith, f); fits = omega (arith, f, ap length q) };
        same_buffer = q;
        same_total = t;
        forward = lo;
      },
      λ ne. grow (length-pos v ne),
    )

pub pairs_loop-total :
    (fuel : ℕ) (m : Props) (s : QueryParserState)
    → Fits s
    → (m' : Props) × (s' : QueryParserState) × (pairs_loop fuel m s ≡ ok (m', s'))
unfolding pairs_loop ◌>>=◌ pure
pairs_loop-total zero m s f = (m, s, refl)
pairs_loop-total (suc fuel) m s f =
    let (k, s1, e1, o1, _) = read_string-total s f in
    let (v, s2, e2, o2, _) = read_string-total s1 o1.still in
    let (m', s', e3) = pairs_loop-total fuel (insert k v m) s2 o2.still in
    elim (Bool-cases (length k == 0)) [
      | inl end ↦ (m, s2, rw (e1, e2, end) refl)
      | inr go ↦ (m', s', rw (e1, e2, go) e3)
    ]

-- The fuel of the loop over keys and values is enough: where the offset is within the datagram and the
-- datagram within the buffer, all fuel above the number of bytes left gives one result.
pub pairs_loop-fuel :
    (fuel fuel' : ℕ) (m : Props) (s : QueryParserState)
    → Fits s
    → s.total_length - s.current_offset < fuel
    → s.total_length - s.current_offset < fuel'
    → pairs_loop fuel m s ≡ pairs_loop fuel' m s
unfolding pairs_loop ◌>>=◌ pure
pairs_loop-fuel zero fuel' m s f h h' = absurd (omega arith)
pairs_loop-fuel (suc fuel) zero m s f h h' = absurd (omega arith)
pairs_loop-fuel (suc fuel) (suc fuel') m s f h h' =
    let (k, s1, e1, o1, on) = read_string-total s f in
    let (v, s2, e2, o2, _) = read_string-total s1 o1.still in
    elim (Bool-cases (length k == 0)) [
      | inl end ↦ rw (e1, e2, end) refl
      | inr go ↦
          let moved : s.current_offset < s1.current_offset =
            on (λ e. let z : (length k == 0) ≡ true = rw e refl in cc) in
          rw (e1, e2, go)
            (pairs_loop-fuel fuel fuel' (insert k v m) s2 o2.still (omega (arith, o1, o2))
              (omega (arith, o1, o2)))
    ]

-- The datagram as it stands at the front of the receive buffer.
abbrev pub received : Bytes → Bytes → Bytes
received buf datagram = let got = take (length buf) datagram in got ++ drop (length got) buf

-- With a receive buffer of six bytes or more `listen` survives every datagram: one of less than six bytes is skipped, and any other is read to
-- the end and reported and completed under the address that it came from.
pub listen_step-total :
    (buf datagram : Bytes) (addr : UdpAddr)
    → 5 < length buf
    → ((length datagram < 6) × (listen_step buf datagram addr ≡ ok (received buf datagram, none)))
      ⊎ ((6 ≤ length datagram)
          × (props : Props) × (listen_step buf datagram addr
              ≡ ok (
                received buf datagram,
                some (record { source = addr; props = props; completed = addr_port addr }),
              )))
unfolding listen_step
listen_step-total buf datagram addr h =
    let got = take (length buf) datagram in
    let size : length got ≡ min (length buf) (length datagram) =
      length-take (length buf) datagram in
    elim (Bool-cases (ltb (length got) 6)) [
      | inl short ↦ inl (ground (arith, size), rw short)
      | inr long ↦
          let state : QueryParserState = record {
            total_length = length got;
            current_offset = 5;
            buffer = received buf datagram;
          } in
          let fit : Fits state = record {
            within = ground arith;
            fits = omega (arith, length-overlay got buf (omega (arith, size)));
          } in
          let (props, s', e) = pairs_loop-total (length got + 1) [] state fit in
          inr (ground (arith, size), props, rw (long, e))
    ]
