-- ===== src/Ut2k/Query/Compact.antt =====
-- Unreal's compact integers, written as the game writes them, and `readCompactInt` on them.
use os_serverlist_sync.Base.{
  ℕ, zero, suc, ◌+◌, ◌*◌, ◌/◌, ◌%◌, ◌^◌, ◌<◌, true, false, [], ◌∷◌, inl, inr, ◌≡◌, arith, ltb,
  append-nil, if◌then◌else◌, Bool-cases, bit_and,
}
use os_serverlist_sync.Base.Bits.{has_bit, low_seven, low_six, top_bit, second_bit}
use os_serverlist_sync.Base.Bytes.{Bytes}
use os_serverlist_sync.Reader.{pure, read_byte}
use os_serverlist_sync.Reader.Rules.{Reads, Reads-pure, Reads-bind, Reads-byte}
use os_serverlist_sync.Ut2k.Query.{read_tail, read_compact_int}

-- The bytes behind the first: seven bits each, lowest first, the top bit while there is more.
unfoldable pub tail_bytes : ℕ → ℕ → Bytes
tail_bytes zero v = v ∷ []
tail_bytes (suc k) v =
    let more = tail_bytes k (v / 128) in if ltb v 128 then v ∷ [] else (v % 128 + 128) ∷ more

-- A number that is not negative: six bits in the first byte, and 0x40 if there is more.
unfoldable pub compact_int : ℕ → Bytes
compact_int n = if ltb n 64 then n ∷ [] else (n % 64 + 64) ∷ tail_bytes 3 (n / 64)

has_top : (b : ℕ) → b < 256 → has_bit b 0x80 ≡ (if ltb b 128 then false else true)
has_top b h = ground (arith, top_bit b h)

has_second : (b : ℕ) → b < 128 → has_bit b 0x40 ≡ (if ltb b 64 then false else true)
has_second b h = ground (arith, second_bit b)

-- What `read_tail k` can hold.
abbrev pub room : ℕ → ℕ
room zero = 256
room (suc k) = 128 * room k

Reads-value : (v w : ℕ) → w ≡ v → Reads (pure w) [] v
Reads-value v w e = rw e (Reads-pure v)

read_tail_step :
    (k b l v : ℕ) (bs : Bytes)
    → Reads (if has_bit b 0x80 then read_tail k else pure 0) bs l
    → l * 128 + bit_and b 0x7f ≡ v
    → Reads (read_tail (suc k)) (b ∷ bs) v
unfolding read_tail
read_tail_step k b l v bs r e =
    Reads-bind read_byte _ (b ∷ []) bs b v (Reads-byte b)
      (rw (← append-nil bs) (Reads-bind _ _ bs [] l v r (Reads-value v _ e)))

read_tail-Reads : (k v : ℕ) → v < room k → Reads (read_tail k) (tail_bytes k v) v
unfolding tail_bytes
read_tail-Reads zero v h = unfold read_tail in Reads-byte v
read_tail-Reads (suc k) v h = elim (Bool-cases (ltb v 128)) [
  | inl last ↦ rw last (
      read_tail_step k v 0 v []
        (let e : has_bit v 0x80 ≡ false = ground (arith, has_top v (ground arith)) in
          rw e (Reads-pure 0))
        (ground (arith, low_seven v (ground arith))))
  | inr more ↦
      let b = v % 128 + 128 in
      rw more (
        read_tail_step k b (v / 128) v (tail_bytes k (v / 128))
          (let e : has_bit b 0x80 ≡ true = ground (arith, has_top b (omega arith)) in
            rw e (read_tail-Reads k (v / 128) (omega arith)))
          (omega (arith, low_seven b (omega arith))))
]

read_compact_int_step :
    (b l v : ℕ) (bs : Bytes)
    → b < 128
    → Reads (if has_bit b 0x40 then read_tail 3 else pure 0) bs l
    → l * 64 + bit_and b 0x3f ≡ v
    → Reads read_compact_int (b ∷ bs) v
unfolding read_compact_int
read_compact_int_step b l v bs h r e =
    let positive : has_bit b 0x80 ≡ false = ground (arith, has_top b (omega arith)) in
    Reads-bind read_byte _ (b ∷ []) bs b v (Reads-byte b)
      (rw (← append-nil bs) (Reads-bind _ _ bs [] l v r (rw positive (Reads-value v _ e))))

-- `readCompactInt` reads back every number below 2^35 that the game writes, and stops behind it.
pub read_compact_int-Reads : (n : ℕ) → n < 2 ^ 35 → Reads read_compact_int (compact_int n) n
unfolding compact_int
read_compact_int-Reads n h = elim (Bool-cases (ltb n 64)) [
  | inl small ↦ rw small (
      read_compact_int_step n 0 n [] (ground arith)
        (let e : has_bit n 0x40 ≡ false = ground (arith, has_second n (ground arith)) in
          rw e (Reads-pure 0))
        (ground (arith, low_six n (ground arith))))
  | inr big ↦
      let b = n % 64 + 64 in
      rw big (
        read_compact_int_step b (n / 64) n (tail_bytes 3 (n / 64)) (omega arith)
          (let e : has_bit b 0x40 ≡ true = ground (arith, has_second b (omega arith)) in
            rw e (read_tail-Reads 3 (n / 64) (omega arith)))
          (omega (arith, low_six b (omega arith))))
]
