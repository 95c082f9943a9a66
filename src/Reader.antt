-- ===== src/Reader.antt =====
-- Reading a datagram: the `QueryParserState` that src/Engines/UT2K/UT2KQueryEngine.go and
-- src/Engines/QR2/QR2QueryEngine.go both declare, and the accesses to it. A parser takes the state
-- and returns it changed, or panics where an index or a slice is out of range.
pub mod Rules
use os_serverlist_sync.Base.{
  ℕ, ◌+◌, ◌-◌, ◌*◌, Bool, ◌&&◌, List, [], ◌∷◌, Option, none, some, ltb, leb, if◌then◌else◌, length,
  get_elem?, take, drop, Result, ok, panic, ◌>>=◌ as bind, index_range, slice_range,
}
use os_serverlist_sync.Base.Bytes.{Bytes}

pub record QueryParserState : Type 0 where
  pub total_length : ℕ
  pub current_offset : ℕ
  pub buffer : Bytes

abbrev pub Parser {ℓ} : Type ℓ → Type ℓ
Parser A = QueryParserState → Result (A × QueryParserState)

module _ {ℓ} {A : Type ℓ} where
  unfoldable pub pure : A → Parser A
  pure a s = ok (a, s)

module _ {ℓ κ} {A : Type ℓ} {B : Type κ} where
  infixl 5 ◌>>=◌
  unfoldable pub ◌>>=◌ : Parser A → (A → Parser B) → Parser B
  ◌>>=◌ p f s = bind (p s) (λ r. f r.0 r.1)

infixl 5 ◌>>◌
abbrev pub ◌>>◌ {ℓ κ} : {A : Type ℓ} {B : Type κ} → Parser A → Parser B → Parser B
p >> q = p >>= λ _. q

abbrev pub or_out_of_range : Option ℕ → Result ℕ
or_out_of_range none = panic index_range
or_out_of_range (some x) = ok x

-- b[i]
unfoldable pub index : Bytes → ℕ → Result ℕ
index b i = or_out_of_range (get_elem? b i)

-- b[lo:hi], for a slice whose capacity is its length.
unfoldable pub slice : Bytes → ℕ → ℕ → Result Bytes
slice b lo hi =
    if leb lo hi && leb hi (length b) then ok (take (hi - lo) (drop lo b)) else panic slice_range

-- b[lo:]
unfoldable pub slice_from : Bytes → ℕ → Result Bytes
slice_from b lo = if leb lo (length b) then ok (drop lo b) else panic slice_range

-- binary.LittleEndian.Uint16 and Uint32
unfoldable pub uint16_le : Bytes → Result ℕ
uint16_le (a ∷ b ∷ _) = ok (a + b * 256)
uint16_le _ = panic index_range

unfoldable pub uint32_le : Bytes → Result ℕ
uint32_le (a ∷ b ∷ c ∷ d ∷ _) = ok (a + b * 256 + c * 65536 + d * 16777216)
uint32_le _ = panic index_range

-- binary.BigEndian.Uint16
unfoldable pub uint16_be : Bytes → Result ℕ
uint16_be (a ∷ b ∷ _) = ok (a * 256 + b)
uint16_be _ = panic index_range

-- state.CurrentOffset += n
unfoldable pub skip : ℕ → Parser (Unit {0})
skip n s = ok (tt, record s { current_offset = s.current_offset + n })

-- ch := state.Buffer[state.CurrentOffset]; state.CurrentOffset++
unfoldable pub read_byte : Parser ℕ
unfolding index
read_byte s =
    bind (index s.buffer s.current_offset)
      λ b. ok (b, record s { current_offset = s.current_offset + 1 })

-- binary.LittleEndian.Uint32(state.Buffer[state.CurrentOffset:]); state.CurrentOffset += 4
unfoldable pub read_uint32 : Parser ℕ
unfolding slice_from uint32_le
read_uint32 s =
    bind (slice_from s.buffer s.current_offset)
      λ b. bind (uint32_le b) (λ v. ok (v, record s { current_offset = s.current_offset + 4 }))

-- binary.LittleEndian.Uint16(buf[offset:]); offset += 2
unfoldable pub read_uint16 : Parser ℕ
unfolding slice_from uint16_le
read_uint16 s =
    bind (slice_from s.buffer s.current_offset)
      λ b. bind (uint16_le b) (λ v. ok (v, record s { current_offset = s.current_offset + 2 }))

-- buf[offset : offset+n]; offset += n
unfoldable pub read_slice : ℕ → Parser Bytes
unfolding slice
read_slice n s =
    bind (slice s.buffer s.current_offset (s.current_offset + n))
      λ b. ok (b, record s { current_offset = s.current_offset + n })
