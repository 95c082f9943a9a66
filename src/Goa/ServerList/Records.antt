-- ===== src/Goa/ServerList/Records.antt =====
-- The compressed list of a master server: six bytes for each server, `\final` behind the last.
use os_serverlist_sync.Base.{
  ℕ, ◌+◌, ◌*◌, ◌/◌, ◌%◌, ◌^◌, ◌<◌, false, List, [], ◌∷◌, ◌++◌, map, ◌≡◌, refl, ap, arith, All,
  length, length-append, take, take-all, drop,
}
use os_serverlist_sync.Base.Bytes.{Bytes, codes, bytes_eq, put_uint16_be, put_uint32_be}
use os_serverlist_sync.Base.Conn.{Read, got, eof, failed, is_empty, IsEnd}
use os_serverlist_sync.Base.Net.{v4, AddrPort}
use os_serverlist_sync.Goa.ServerList.{record_address, read_compressed}

-- A server as the list holds it.
pub record Listed : Type 0 where
  pub ip : ℕ
  pub port : ℕ

abbrev pub listed_bytes : Listed → Bytes
listed_bytes l = put_uint32_be l.ip ++ put_uint16_be l.port

-- Its numbers fit, and it does not read as the end of the list.
abbrev pub IsListed : Listed → Type 0
IsListed l =
    (l.ip < 2 ^ 32) × (l.port < 2 ^ 16) × (bytes_eq (listed_bytes l) (codes "\\final") ≡ false)

abbrev pub address : Listed → AddrPort
address l = record { addr = v4 l.ip; port = l.port }

-- The reads that bring the list, one record in each, and what comes behind.
abbrev pub list_reads : List Listed → List Read → List Read
list_reads [] end = got (codes "\\final") ∷ end
list_reads (l ∷ ls) end = got (listed_bytes l) ∷ list_reads ls end

pub record_address-listed :
    (l : Listed) → l.ip < 2 ^ 32 → l.port < 2 ^ 16 → record_address (listed_bytes l) ≡ address l
unfolding record_address
record_address-listed l h k =
    let ip : l.ip / 16777216 % 256 * 16777216
          + l.ip / 65536 % 256 * 65536
          + l.ip / 256 % 256 * 256
          + l.ip % 256
        ≡ l.ip =
      omega (arith, h) in
    let port : l.port / 256 % 256 * 256 + l.port % 256 ≡ l.port = omega (arith, k) in
    rw (ip, port) refl

pub drop-six : (buffer : Bytes) → length buffer ≡ 6 → drop 6 buffer ≡ []
drop-six (a ∷ b ∷ c ∷ d ∷ e ∷ f ∷ []) h = refl
drop-six (a ∷ b ∷ c ∷ d ∷ e ∷ f ∷ g ∷ rest) h = absurd (omega (arith, h))
drop-six _ h = refl

-- A compressed list whose records are read one by one: if each address has 32 bits, each port 16, and
-- no record is the text `\final`, then the servers before `\final` go to `BeginQuery` in order, and
-- nothing behind it is read as a record, whatever the buffer of six bytes held before.
pub read_compressed-records :
    (buffer : Bytes) (ls : List Listed) (end : List Read)
    → length buffer ≡ 6
    → All IsListed ls
    → read_compressed buffer (list_reads ls end) ≡ map address ls
unfolding read_compressed
read_compressed-records buffer [] end size h = rw (drop-six buffer size) (unfold bytes_eq in refl)
read_compressed-records buffer (l ∷ ls) end size h =
    let ((ip, port, other), rest) = h in
    rw (drop-six buffer size, other, record_address-listed l ip port)
      (ap (◌∷◌ (address l)) (read_compressed-records (listed_bytes l) ls end refl rest))

read_compressed-ended :
    (buffer : Bytes) (end : List Read) → IsEnd end → read_compressed buffer end ≡ []
unfolding read_compressed
read_compressed-ended buffer [] h = refl
read_compressed-ended buffer (eof ∷ end) h = refl
read_compressed-ended buffer (failed ∷ end) h = refl
read_compressed-ended buffer (got c ∷ end) h = absurd h

-- What the buffer of six bytes holds behind a `Read`.
abbrev pub filled : Bytes → Bytes → Bytes
filled a buffer = a ++ drop (length a) buffer

-- A record that comes in two pieces: if a server's six bytes are split in two that are not empty, each
-- brought by one `Read`, the connection ends behind them, and the buffer does not hold `\final` behind
-- either of them, then not one address goes to `BeginQuery` but two, the first made of the first piece
-- and what the buffer held before, the second of the second piece and the end of that.
pub read_compressed-split :
    (buffer a b : Bytes) (l : Listed) (end : List Read)
    → a ++ b ≡ listed_bytes l
    → is_empty a ≡ false
    → is_empty b ≡ false
    → bytes_eq (filled a buffer) (codes "\\final") ≡ false
    → bytes_eq (filled b (filled a buffer)) (codes "\\final") ≡ false
    → IsEnd end
    → read_compressed buffer (got a ∷ got b ∷ end)
      ≡ record_address (filled a buffer) ∷ record_address (filled b (filled a buffer)) ∷ []
unfolding read_compressed
read_compressed-split buffer a b l end e has_a has_b more more' h =
    let six : length a + length b ≡ 6 = omega (arith, ap length e, length-append a b) in
    let whole : take 6 a ≡ a = take-all 6 a (omega (arith, six)) in
    let whole' : take 6 b ≡ b = take-all 6 b (omega (arith, six)) in
    rw (whole, whole', has_a, has_b, more, more', read_compressed-ended _ end h) refl
