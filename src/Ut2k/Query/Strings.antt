-- ===== src/Ut2k/Query/Strings.antt =====
-- `readCompactString` on the strings that a game server sends: text with colour codes.
use os_serverlist_sync.Base.{
  ℕ, zero, suc, ◌+◌, ◌-◌, ◌≤◌, ◌<◌, ◌^◌, true, false, List, [], ◌∷◌, ◌++◌, ◌≡◌, ◌≢◌, refl, sym, ap,
  ◌∙◌, arith, ◌==◌, append-nil, append_assoc, if◌then◌else◌, All, length,
}
use mathlib.Core.Path.{fun_ext}
use os_serverlist_sync.Base.Bytes.{Bytes, string_of_byte}
use os_serverlist_sync.Reader.{pure, ◌>>=◌, read_byte, skip}
use os_serverlist_sync.Reader.Rules.{Reads, Reads-pure, Reads-bind, Reads-byte, Reads-skip}
use os_serverlist_sync.Ut2k.Query.{string_loop, read_compact_string}
use os_serverlist_sync.Ut2k.Query.Compact.{compact_int, read_compact_int-Reads}

-- A byte of text, or the escape byte 0x1b with three bytes of colour.
pub data Piece : Type 0 where
  char : ℕ → Piece
  colour : ℕ → ℕ → ℕ → Piece

abbrev pub IsText : Piece → Type 0
IsText (char b) = (b ≢ 0) × (b ≢ 0x1b)
IsText (colour r g b) = Unit

-- The bytes that are sent.
unfoldable pub render : List Piece → Bytes
render [] = []
render (char b ∷ ps) = b ∷ render ps
render (colour r g b ∷ ps) = 0x1b ∷ r ∷ g ∷ b ∷ render ps

-- The text without its colours, in UTF-8.
unfoldable pub display : List Piece → Bytes
display [] = []
display (char b ∷ ps) = string_of_byte b ++ display ps
display (colour r g b ∷ ps) = display ps

-- A string as it stands in a packet: its length with the final NUL, its bytes, the NUL.
unfoldable pub compact_string : List Piece → Bytes
compact_string ps = compact_int (length (render ps) + 1) ++ (render ps ++ 0 ∷ [])

module _ (fuel left : ℕ) (out : Bytes) where
  loop_char :
      (b : ℕ) (bs v : Bytes)
      → b ≢ 0
      → b ≢ 0x1b
      → 0 < left
      → Reads (string_loop fuel (left - 1) (out ++ string_of_byte b)) bs v
      → Reads (string_loop (suc fuel) left out) (b ∷ bs) v
  unfolding string_loop
  loop_char b bs v n e l r =
      let e0 : (left == 0) ≡ false = ground arith in
      let e1 : (b == 0) ≡ false = ground arith in
      let e2 : (b == 0x1b) ≡ false = ground arith in
      rw e0 (Reads-bind read_byte _ (b ∷ []) bs b v (Reads-byte b) (rw (e1, e2) r))

  loop_colour :
      (x y z : ℕ) (bs v : Bytes)
      → 0 < left
      → Reads (string_loop fuel (left - 4) out) bs v
      → Reads (string_loop (suc fuel) left out) (0x1b ∷ x ∷ y ∷ z ∷ bs) v
  unfolding string_loop
  loop_colour x y z bs v l r =
      let e0 : (left == 0) ≡ false = ground arith in
      rw e0 (
        Reads-bind read_byte _ (0x1b ∷ []) (x ∷ y ∷ z ∷ bs) 0x1b v (Reads-byte 0x1b)
          (Reads-bind (skip 3) _ (x ∷ y ∷ z ∷ []) bs tt v (Reads-skip (x ∷ y ∷ z ∷ []) 3 refl) r))

  loop_nul : 0 < left → Reads (string_loop (suc fuel) left out) (0 ∷ []) out
  unfolding string_loop
  loop_nul l =
      let e0 : (left == 0) ≡ false = ground arith in
      rw e0 (Reads-bind read_byte _ (0 ∷ []) [] 0 out (Reads-byte 0) (Reads-pure out))

string_loop-Reads :
    (fuel left : ℕ) (out : Bytes) (ps : List Piece)
    → All IsText ps
    → left ≡ length (render ps) + 1
    → left ≤ fuel
    → Reads (string_loop fuel left out) (render ps ++ 0 ∷ []) (out ++ display ps)
unfolding render display
string_loop-Reads zero left out ps t e f = absurd (omega arith)
string_loop-Reads (suc fuel) left out [] t e f =
    rw append-nil (loop_nul fuel left out (omega arith))
string_loop-Reads (suc fuel) left out (char b ∷ ps) t e f =
    loop_char fuel left out b (render ps ++ 0 ∷ []) _ t.0.0 t.0.1 (omega arith) (
      rw (← append_assoc out (string_of_byte b) (display ps)) (
        string_loop-Reads fuel (left - 1) (out ++ string_of_byte b) ps t.1 (omega arith)
          (omega arith)))
string_loop-Reads (suc fuel) left out (colour x y z ∷ ps) t e f =
    loop_colour fuel left out x y z (render ps ++ 0 ∷ []) _ (omega arith)
      (string_loop-Reads fuel (left - 4) out ps t.1 (omega arith) (omega arith))

-- `readCompactString` returns the text without its colours, its bytes as UTF-8, and stops behind the
-- string, if no byte of text is NUL or the escape byte and the string is shorter than 2^35 bytes.
pub read_compact_string-Reads :
    (ps : List Piece)
    → All IsText ps
    → length (render ps) + 1 < 2 ^ 35
    → Reads read_compact_string (compact_string ps) (display ps)
unfolding read_compact_string compact_string
read_compact_string-Reads ps t h =
    let n = length (render ps) + 1 in
    Reads-bind _ _ (compact_int n) (render ps ++ 0 ∷ []) n (display ps) (read_compact_int-Reads n h)
      (string_loop-Reads n n [] ps t refl (omega arith))

loop_end : (fuel left : ℕ) (out : Bytes) → left ≡ 0 → string_loop fuel left out ≡ pure out
unfolding string_loop
loop_end zero left out e = refl
loop_end (suc fuel) left out e = let z : (left == 0) ≡ true = ground arith in rw z

-- The fuel of the loop is enough: more rounds than the string is long change nothing, whatever the
-- buffer holds.
pub string_loop-fuel :
    (fuel fuel' left : ℕ) (out : Bytes)
    → left ≤ fuel
    → left ≤ fuel'
    → string_loop fuel left out ≡ string_loop fuel' left out
unfolding string_loop
string_loop-fuel zero fuel' left out h h' =
    loop_end zero left out (omega arith) ∙ sym (loop_end fuel' left out (omega arith))
string_loop-fuel (suc fuel) zero left out h h' =
    loop_end (suc fuel) left out (omega arith) ∙ sym (loop_end zero left out (omega arith))
string_loop-fuel (suc fuel) (suc fuel') left out h h' =
    ap (λ k. if left == 0 then pure out else read_byte >>= k)
      (fun_ext λ ch. rw (
        string_loop-fuel fuel fuel' (left - 4) out (omega arith) (omega arith),
        string_loop-fuel fuel fuel' (left - 1) (out ++ string_of_byte ch) (omega arith)
            (omega arith),
      ))
