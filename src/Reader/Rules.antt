-- ===== src/Reader/Rules.antt =====
-- A parser that reads some bytes, whatever stands behind them, and how such parsers compose.
use os_serverlist_sync.Base.{
  ℕ, ◌+◌, ◌-◌, ◌^◌, ◌≤◌, ◌<◌, true, ◌&&◌, [], ◌∷◌, ◌++◌, ◌≡◌, refl, sym, ap, ◌∙◌, arith,
  append_assoc, leb, length, length-append, length-drop, drop, drop-drop, drop-length_append,
  take-length_append, get_elem?-drop, ok,
}
use os_serverlist_sync.Base.Bytes.{Bytes, put_uint16_le, put_uint32_le}
use os_serverlist_sync.Reader.{
  QueryParserState, Parser, pure, ◌>>=◌, skip, read_byte, read_uint16, read_uint32, read_slice,
  slice, uint16_le, uint32_le,
}

-- The offset lies inside the buffer, and these bytes stand there.
abbrev pub Sees : QueryParserState → Bytes → Type 0
Sees s bs = (s.current_offset ≤ length s.buffer) × (drop s.current_offset s.buffer ≡ bs)

abbrev pub at_offset : QueryParserState → ℕ → QueryParserState
at_offset s n = record s { current_offset = n }

-- Where `bs` stands at the offset, the parser returns `a`, and what stood behind `bs` comes next.
pub record Reads {ℓ} {A : Type ℓ} (p : Parser A) (bs : Bytes) (a : A) : Type ℓ where
  pub run :
      (s : QueryParserState) (rest : Bytes)
      → Sees s (bs ++ rest)
      → (s' : QueryParserState) × (p s ≡ ok (a, s')) × Sees s' rest

module _ {ℓ} {A : Type ℓ} where
  pub Reads-pure : (a : A) → Reads (pure a) [] a
  unfolding pure
  Reads-pure a = record { run = λ s rest h. (s, refl, h) }

module _ {ℓ κ} {A : Type ℓ} {B : Type κ} where
  pub Reads-bind :
      (p : Parser A) (f : A → Parser B) (bs cs : Bytes) (a : A) (b : B)
      → Reads p bs a
      → Reads (f a) cs b
      → Reads (p >>= f) (bs ++ cs) b
  unfolding ◌>>=◌
  Reads-bind p f bs cs a b r t = record {
    run = λ s rest h.
        let (s1, e1, h1) = r.run s (cs ++ rest) (h.0, h.1 ∙ append_assoc bs cs rest) in
        let (s2, e2, h2) = t.run s1 rest h1 in (s2, rw (e1, ◌>>=◌) e2, h2);
  }

-- Behind `n` bytes that stand at the offset.
Sees-skip :
    (s : QueryParserState) (bs rest : Bytes) (n : ℕ)
    → length bs ≡ n
    → Sees s (bs ++ rest)
    → Sees (at_offset s (s.current_offset + n)) rest
Sees-skip s bs rest n e h =
    let e' : n ≡ length bs = sym e in
    let size = length-drop s.current_offset s.buffer in
    (
      omega (arith, size, ap length h.1, length-append bs rest, h.0),
      sym (drop-drop s.current_offset n _ s.buffer refl)
          ∙ ap (drop n) h.1
          ∙ rw e' (drop-length_append bs rest),
    )

pub Reads-byte : (b : ℕ) → Reads read_byte (b ∷ []) b
unfolding read_byte
Reads-byte b = record {
  run = λ s rest h.
      let (e, _, _) = get_elem?-drop s.current_offset s.buffer h.1 in
      (at_offset s (s.current_offset + 1), ground (arith, e), Sees-skip s (b ∷ []) rest 1 refl h);
}

pub Reads-skip : (bs : Bytes) (n : ℕ) → length bs ≡ n → Reads (skip n) bs tt
unfolding skip
Reads-skip bs n e = record {
  run = λ s rest h. (at_offset s (s.current_offset + n), refl, Sees-skip s bs rest n e h);
}

pub from_le : (v : ℕ) (rest : Bytes) → v < 2 ^ 32 → uint32_le (put_uint32_le v ++ rest) ≡ ok v
unfolding uint32_le
from_le v rest h = ground arith

pub Reads-uint32 : (v : ℕ) → v < 2 ^ 32 → Reads read_uint32 (put_uint32_le v) v
unfolding read_uint32
Reads-uint32 v b = record {
  run = λ s rest h.
      let value : uint32_le (drop s.current_offset s.buffer) ≡ ok v = rw h.1 (from_le v rest b) in
      (
        at_offset s (s.current_offset + 4),
        ground (arith, h.0, value),
        Sees-skip s (put_uint32_le v) rest 4 refl h,
      );
}

pub uint16_from_le :
    (v : ℕ) (rest : Bytes) → v < 2 ^ 16 → uint16_le (put_uint16_le v ++ rest) ≡ ok v
unfolding uint16_le
uint16_from_le v rest h = ground arith

pub Reads-uint16 : (v : ℕ) → v < 2 ^ 16 → Reads read_uint16 (put_uint16_le v) v
unfolding read_uint16
Reads-uint16 v b = record {
  run = λ s rest h.
      let value : uint16_le (drop s.current_offset s.buffer) ≡ ok v =
        rw h.1 (uint16_from_le v rest b) in
      (
        at_offset s (s.current_offset + 2),
        ground (arith, h.0, value),
        Sees-skip s (put_uint16_le v) rest 2 refl h,
      );
}

slice-Sees :
    (s : QueryParserState) (bs rest : Bytes) (n : ℕ)
    → length bs ≡ n
    → Sees s (bs ++ rest)
    → slice s.buffer s.current_offset (s.current_offset + n) ≡ ok bs
unfolding slice
slice-Sees s bs rest n e h =
    let inside = (Sees-skip s bs rest n e h).0 in
    let fits : (leb s.current_offset (s.current_offset + n)
          && leb (s.current_offset + n) (length s.buffer))
        ≡ true =
      ground (arith, inside) in
    let back : s.current_offset + n - s.current_offset ≡ length bs = omega arith in
    rw (fits, back, h.1) (ap ok (take-length_append bs rest))

pub Reads-slice : (bs : Bytes) (n : ℕ) → length bs ≡ n → Reads (read_slice n) bs bs
unfolding read_slice
Reads-slice bs n e = record {
  run = λ s rest h. (
    at_offset s (s.current_offset + n),
    rw (slice-Sees s bs rest n e h),
    Sees-skip s bs rest n e h,
  );
}
