-- ===== src/Base/Atoi.antt =====
-- strconv.Atoi: a sign or none, decimal digits, and the bounds of Go's `int`.
use Prim.Native.Nat.{ℕ, zero, suc, ◌+◌, ◌-◌, ◌*◌, ◌/◌, ◌%◌, ◌≤◌, ◌<◌}
use mathlib.Core.Bool.{Bool, true, false}
use mathlib.Core.List.{[], ◌∷◌}
use mathlib.Core.Logic.{dite}
use mathlib.Core.Path.{◌≡◌, refl, ◌∙◌}
use mathlib.Core.WellFounded.{Acc}
use native.Mathlib.Decide.{dec_lt}
use native.Mathlib.Omega.{arith}
use os_serverlist_sync.Base.Tests.{◌==◌, ltb, leb, if◌then◌else◌}
use os_serverlist_sync.Base.Bytes.{Bytes, digits, itoa, lt_wf, tenth_lt}
use os_serverlist_sync.Base.Int.{ℤ, pos, negsuc}

-- What the digits are: none or another byte among them, too many for 64 bits, or a number.
pub data Unsigned : Type 0 where
  syntax overflow : Unsigned
  number : ℕ → Unsigned

abbrev is_digit : ℕ → Bool
is_digit c = if ltb c b'0' then false else leb c b'9'

-- The scan ends at the first digit that makes the number too large, whatever comes behind it.
unfoldable pub scan_digits : ℕ → Bytes → Unsigned
scan_digits v [] = number v
scan_digits v (c ∷ s) =
    let rest = scan_digits (v * 10 + (c - b'0')) s in
    if is_digit c
    then (if ltb (v * 10 + (c - b'0')) 18446744073709551616 then rest else overflow)
    else syntax

unfoldable pub unsigned : Bytes → Unsigned
unsigned [] = syntax
unsigned (c ∷ s) = scan_digits 0 (c ∷ s)

-- The number with its sign, and whether there is no error. Out of range it is the nearest `int`.
abbrev pub positive : Unsigned → ℤ × Bool
positive syntax = (pos 0, false)
positive overflow = (pos 9223372036854775807, false)
positive (number n) =
    if ltb n 9223372036854775808 then (pos n, true) else (pos 9223372036854775807, false)

abbrev pub negative : Unsigned → ℤ × Bool
negative syntax = (pos 0, false)
negative overflow = (negsuc 9223372036854775807, false)
negative (number zero) = (pos 0, true)
negative (number (suc n)) =
    if ltb n 9223372036854775808 then (negsuc n, true) else (negsuc 9223372036854775807, false)

unfoldable pub atoi : Bytes → ℤ × Bool
atoi [] = (pos 0, false)
atoi (c ∷ s) =
    if c == b'-'
    then negative (unsigned s)
    else if c == b'+'
    then positive (unsigned s)
    else positive (unsigned (c ∷ s))

-- One digit more.
scan_digits-digit :
    (n : ℕ) (out : Bytes)
    → n < 18446744073709551616
    → scan_digits (n / 10) ((b'0' + n % 10) ∷ out) ≡ scan_digits n out
unfolding scan_digits
scan_digits-digit n out h =
    let e : n / 10 * 10 + (48 + n % 10 - 48) ≡ n = omega arith in
    let digit : is_digit (48 + n % 10) ≡ true = ground arith in
    let fits : ltb n 18446744073709551616 ≡ true = ground arith in rw (digit, e, fits) refl

-- The digits of a number are digits, and are read as the number.
abbrev Scans : ℕ → Bytes → Bytes → Type 0
Scans n out s =
    (c : ℕ) × (r : Bytes) × (s ≡ c ∷ r) × (b'0' ≤ c) × (scan_digits 0 (c ∷ r) ≡ scan_digits n out)

scan_digits-digits :
    (n : ℕ) (acc : Acc ◌<◌ n) (out : Bytes)
    → n < 18446744073709551616
    → Scans n out (digits n acc out)
unfolding digits
scan_digits-digits n (Acc.intro _ smaller) out h =
    let head : Bytes = (b'0' + n % 10) ∷ out in
    elim (dec_lt 0 (n / 10))
      as (λ d.
        Scans n out
          (dite d (λ h. digits (n / 10) (smaller (n / 10) (tenth_lt h)) head) (λ _. head))) [
            | yes more ↦
                let (c, r, e, low, same) =
                  scan_digits-digits (n / 10) (smaller (n / 10) (tenth_lt more)) head
                    (omega (arith, h)) in
                (c, r, e, low, same ∙ scan_digits-digit n out h)
            | no single ↦
                let e : 0 ≡ n / 10 = omega (arith, single) in
                (b'0' + n % 10, out, refl, omega arith, rw e (scan_digits-digit n out h))
          ]

-- `Atoi` reads what `Itoa` writes.
pub atoi-itoa : (n : ℕ) → n < 9223372036854775808 → atoi (itoa n) ≡ (pos n, true)
unfolding atoi itoa unsigned scan_digits
atoi-itoa n h =
    let (c, r, e, low, same) = scan_digits-digits n (lt_wf.apply n) [] (omega (arith, h)) in
    let minus : (c == b'-') ≡ false = ground (arith, low) in
    let plus : (c == b'+') ≡ false = ground (arith, low) in
    let fits : ltb n 9223372036854775808 ≡ true = ground (arith, h) in
    rw (e, minus, plus, same, fits) refl
