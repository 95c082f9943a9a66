-- ===== src/Base/Bits.antt =====
-- Tests and masks on one byte as arithmetic; each is a table of 256 entries, checked by evaluation.
use Prim.Native.Nat.{ℕ, zero, suc, ◌*◌, ◌/◌, ◌%◌, ◌<◌, bit_and, bit_xor}
use mathlib.Core.Bool.{Bool, true, false}
use mathlib.Core.Path.{◌≡◌, refl}
use native.Mathlib.Omega.{arith}
use os_serverlist_sync.Base.Tests.{◌==◌, ==_iff, if◌then◌else◌}

-- b & mask != 0
abbrev pub has_bit : ℕ → ℕ → Bool
has_bit b mask = elim (bit_and b mask == 0) [ true ↦ false | false ↦ true ]

-- The two functions agree below `limit`.
agree : (ℕ → ℕ) → (ℕ → ℕ) → ℕ → Bool
agree f g zero = true
agree f g (suc limit) = if f limit == g limit then agree f g limit else false

agree-eq : (f g : ℕ → ℕ) (limit b : ℕ) → agree f g limit ≡ true → b < limit → f b ≡ g b
unfolding agree
agree-eq f g zero b table below = absurd (omega arith)
agree-eq f g (suc limit) b table below =
    ground (arith, ==_iff (f limit) (g limit), agree-eq f g limit b)

pub low_seven : (b : ℕ) → b < 256 → bit_and b 0x7f ≡ b % 128
unfolding agree
low_seven b = agree-eq (λ x. bit_and x 0x7f) (λ x. x % 128) 256 b refl

pub low_six : (b : ℕ) → b < 256 → bit_and b 0x3f ≡ b % 64
unfolding agree
low_six b = agree-eq (λ x. bit_and x 0x3f) (λ x. x % 64) 256 b refl

pub top_bit : (b : ℕ) → b < 256 → bit_and b 0x80 ≡ b / 128 * 128
unfolding agree
top_bit b = agree-eq (λ x. bit_and x 0x80) (λ x. x / 128 * 128) 256 b refl

pub second_bit : (b : ℕ) → b < 256 → bit_and b 0x40 ≡ b / 64 % 2 * 64
unfolding agree
second_bit b = agree-eq (λ x. bit_and x 0x40) (λ x. x / 64 % 2 * 64) 256 b refl

-- A mask that is applied twice.
pub xor_ec : (b : ℕ) → b < 256 → bit_xor (bit_xor b 0xec) 0xec ≡ b
unfolding agree
xor_ec b = agree-eq (λ x. bit_xor (bit_xor x 0xec) 0xec) (λ x. x) 256 b refl

pub xor_ea : (b : ℕ) → b < 256 → bit_xor (bit_xor b 0xea) 0xea ≡ b
unfolding agree
xor_ea b = agree-eq (λ x. bit_xor (bit_xor x 0xea) 0xea) (λ x. x) 256 b refl
