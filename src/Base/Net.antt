-- ===== src/Base/Net.antt =====
-- netip.Addr and netip.AddrPort.
use Prim.Native.Nat.{ℕ, ◌/◌, ◌%◌, ◌^◌}
use mathlib.Core.Bool.{Bool, true, false, ◌&&◌}
use mathlib.Core.Logic.{◌↔◌}
use mathlib.Core.Path.{◌≡◌}
use native.Mathlib.Omega.{arith}
use os_serverlist_sync.Base.Tests.{◌==◌, if◌then◌else◌}
use os_serverlist_sync.Base.Int.{ℤ, uint16}
use os_serverlist_sync.Base.Go.{Result, ok, panic, not_ipv4}

-- The zero value, an IPv4 address as its 32 bits, an IPv6 address as its 128 bits with the
-- number of its zone (0 for none).
pub data Addr : Type 0 where
  invalid : Addr
  v4 : ℕ → Addr
  v6 : ℕ → ℕ → Addr

pub record AddrPort : Type 0 where
  pub addr : Addr
  pub port : ℕ

-- `Is4In6` on the bits: ::ffff:0:0/96.
abbrev pub is_mapped : ℕ → Bool
is_mapped bits = bits / 2 ^ 32 == 0xffff

-- `AddrFrom4(a.As4())`: an IPv4 address as it is, a mapped one without its prefix; `As4` panics on
-- any other.
unfoldable pub as4 : Addr → Result ℕ
as4 invalid = panic not_ipv4
as4 (v4 ip) = ok ip
as4 (v6 bits zone) = if is_mapped bits then ok (bits % 2 ^ 32) else panic not_ipv4

-- `a.Compare(b) == 0`.
unfoldable pub addr_eq : Addr → Addr → Bool
addr_eq invalid invalid = true
addr_eq (v4 a) (v4 b) = a == b
addr_eq (v6 a z) (v6 b y) = a == b && z == y
addr_eq _ _ = false

pub addr_eq_iff : (a b : Addr) → (addr_eq a b ≡ true) ↔ (a ≡ b)
unfolding addr_eq
addr_eq_iff invalid b = ground arith
addr_eq_iff (v4 a) b = ground arith
addr_eq_iff (v6 a z) b = ground arith

-- net.UDPAddr, with its IP in netip's form.
pub record UdpAddr : Type 0 where
  pub ip : Addr
  pub port : ℤ

-- (*net.UDPAddr).AddrPort
unfoldable pub addr_port : UdpAddr → AddrPort
addr_port a = record { addr = a.ip; port = uint16 a.port }
