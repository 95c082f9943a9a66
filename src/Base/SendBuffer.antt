-- ===== src/Base/SendBuffer.antt =====
-- Writing a message field by field into a buffer of 256 bytes, with `currentIndex` behind what is
-- written: the steps take the bytes written so far. What goes beyond the buffer panics, at the latest
-- in `sendBuffer[0:currentIndex]`.
use Prim.Native.Nat.{ℕ, ◌+◌, ◌%◌, ◌^◌, ◌≤◌}
use mathlib.Core.Bool.{Bool, true, false}
use mathlib.Core.List.{[], ◌∷◌, ◌++◌, append_assoc, append-nil}
use mathlib.Core.Path.{◌≡◌, sym, ap}
use native.Mathlib.Omega.{arith}
use os_serverlist_sync.Base.Tests.{ltb, leb, if◌then◌else◌}
use os_serverlist_sync.Base.Lists.{length, length-append}
use os_serverlist_sync.Base.Go.{Result, ok, panic, slice_range, index_range, ◌>>=◌}
use os_serverlist_sync.Base.Bytes.{Bytes}

-- `copy(sendBuffer[currentIndex:], b)`
unfoldable pub put_bytes : Bytes → Bytes → Result Bytes
put_bytes b done = if leb (length done) 256 then ok (done ++ b) else panic slice_range

-- `PutUint32(sendBuffer[currentIndex:], v)`, given the bytes of `v`.
unfoldable pub put_encoded : Bytes → Bytes → Result Bytes
put_encoded b done =
    if leb (length done) 256
    then (if leb (length done + length b) 256 then ok (done ++ b) else panic index_range)
    else panic slice_range

-- `sendBuffer[currentIndex] = byte(v)`
unfoldable pub put_byte : ℕ → Bytes → Result Bytes
put_byte v done =
    if ltb (length done) 256 then ok (done ++ ((v % 2 ^ 8) ∷ [])) else panic index_range

-- The step appends these bytes where they fit.
unfoldable pub Puts : (Bytes → Result Bytes) → Bytes → Type 0
Puts p b = (done : Bytes) → length done + length b ≤ 256 → p done ≡ ok (done ++ b)

pub Puts-bytes : (b : Bytes) → Puts (put_bytes b) b
unfolding put_bytes Puts
Puts-bytes b done h = ground arith

pub Puts-encoded : (b : Bytes) → Puts (put_encoded b) b
unfolding put_encoded Puts
Puts-encoded b done h = ground arith

pub Puts-byte : (v : ℕ) → Puts (put_byte v) ((v % 2 ^ 8) ∷ [])
unfolding put_byte Puts
Puts-byte v done h = ground arith

pub Puts-bind :
    (p q : Bytes → Result Bytes) (b c : Bytes)
    → Puts p b
    → Puts q c
    → Puts (λ done. p done >>= q) (b ++ c)
unfolding Puts
Puts-bind p q b c hp hq done h =
    let size = length-append b c in
    let size' = length-append done b in
    let first = hp done (omega (arith, size, h)) in
    let second = hq (done ++ b) (omega (arith, size, size', h)) in
    rw (first, second) (ap ok (append_assoc done b c))

pub Puts-if :
    (b : Bool) (p : Bytes → Result Bytes) (c : Bytes)
    → Puts p c
    → Puts (λ done. if b then p done else ok done) (if b then c else [])
unfolding Puts
Puts-if true p c h done fits = h done fits
Puts-if false p c h done _ = ap ok (sym (append-nil done))
