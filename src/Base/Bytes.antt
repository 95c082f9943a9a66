-- ===== src/Base/Bytes.antt =====
-- Byte strings: Go's `string` and `[]byte` as lists of numbers below 256, the fixed-width reads and
-- writes of encoding/binary, and `strconv.Itoa`.
use Prim.Native.Char.{code}
use Prim.Native.String.{String}
use mathlib.Core.Logic.{dite}
use mathlib.Core.WellFounded.{Acc, WellFounded}
use native.Mathlib.Decide.{dec_lt}
use Prim.Native.Nat.{ℕ, zero, suc, ◌+◌, ◌/◌, ◌%◌, ◌<◌}
use mathlib.Core.Bool.{Bool, true, false, ◌&&◌}
use mathlib.Core.Logic.{◌↔◌}
use mathlib.Core.List.{List, [], ◌∷◌, ◌++◌}
use mathlib.Core.Path.{◌≡◌, refl}
use native.Mathlib.Omega.{arith}
use os_serverlist_sync.Base.Tests.{◌==◌, ltb, if◌then◌else◌}

abbrev pub Bytes : Type 0
Bytes = List ℕ

abbrev pub IsByte : ℕ → Type 0
IsByte b = b < 256

-- The bytes of an ASCII literal.
abbrev pub codes : String → Bytes
codes String.[] = []
codes (String.◌∷◌ c s) = code c ∷ codes s

-- `a == b` on strings.
unfoldable pub bytes_eq : Bytes → Bytes → Bool
bytes_eq [] [] = true
bytes_eq (a ∷ s) (b ∷ t) = a == b && bytes_eq s t
bytes_eq _ _ = false

pub bytes_eq_iff : (s t : Bytes) → (bytes_eq s t ≡ true) ↔ (s ≡ t)
unfolding bytes_eq
bytes_eq_iff [] [] = ground arith
bytes_eq_iff [] (b ∷ t) = ground arith
bytes_eq_iff (a ∷ s) [] = ground arith
bytes_eq_iff (a ∷ s) (b ∷ t) = ground (arith, bytes_eq_iff s t)

pub bytes_eq_refl : (s : Bytes) → bytes_eq s s ≡ true
bytes_eq_refl s = (bytes_eq_iff s s).1 refl

-- `string(b)` for a byte `b`: the byte is read as a code point and written in UTF-8.
unfoldable pub string_of_byte : ℕ → Bytes
string_of_byte b = if ltb b 128 then b ∷ [] else (192 + b / 64) ∷ (128 + b % 64) ∷ []

-- binary.LittleEndian.PutUint16, PutUint32 and binary.BigEndian.PutUint16, PutUint32, on the
-- value wrapped to its width.
abbrev pub put_uint16_le : ℕ → Bytes
put_uint16_le v = (v % 256) ∷ (v / 256 % 256) ∷ []

abbrev pub put_uint32_le : ℕ → Bytes
put_uint32_le v = (v % 256) ∷ (v / 256 % 256) ∷ (v / 65536 % 256) ∷ (v / 16777216 % 256) ∷ []

abbrev pub put_uint16_be : ℕ → Bytes
put_uint16_be v = (v / 256 % 256) ∷ (v % 256) ∷ []

abbrev pub put_uint32_be : ℕ → Bytes
put_uint32_be v = (v / 16777216 % 256) ∷ (v / 65536 % 256) ∷ (v / 256 % 256) ∷ (v % 256) ∷ []

Acc-below : (k n : ℕ) → n < k → Acc ◌<◌ n
Acc-below zero n h = absurd (omega arith)
Acc-below (suc k) n h = Acc.intro n (λ m hm. Acc-below k m (omega arith))

unfoldable pub lt_wf : WellFounded ◌<◌
unfolding Acc-below
lt_wf = record { apply = λ n. Acc-below (suc n) n (omega arith) }

pub tenth_lt : {n : ℕ} → 0 < n / 10 → n / 10 < n
tenth_lt h = omega arith

-- The decimal digits of `n` in front of `out`.
unfoldable pub digits : (n : ℕ) → Acc ◌<◌ n → Bytes → Bytes
digits n (Acc.intro _ smaller) out =
    let head : Bytes = (b'0' + n % 10) ∷ out in
    dite (dec_lt 0 (n / 10)) (λ h. digits (n / 10) (smaller (n / 10) (tenth_lt h)) head) (λ _. head)

-- strconv.Itoa of a number that is not negative.
unfoldable pub itoa : ℕ → Bytes
unfolding digits lt_wf dec_lt tenth_lt
itoa n = digits n (lt_wf.apply n) []

itoa_test : itoa 28910 ≡ codes "28910"
unfolding itoa
itoa_test = refl

-- Every byte as a code point in UTF-8.
unfoldable pub to_utf8 : Bytes → Bytes
to_utf8 [] = []
to_utf8 (b ∷ s) = string_of_byte b ++ to_utf8 s
