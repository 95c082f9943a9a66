-- ===== src/Redis/Input/Refresh.antt =====
-- The input handler reads what the output handler has stored.
use os_serverlist_sync.Base.{
  ℕ, ◌+◌, ◌<◌, Bool, false, ◌||◌, ◌++◌, Option, some, inl, inr, ◌≡◌, refl, arith, ◌==◌, Bool-cases,
  if◌then◌else◌,
}
use os_serverlist_sync.Base.Atoi.{atoi-itoa}
use os_serverlist_sync.Base.Bytes.{Bytes, codes, bytes_eq, bytes_eq_refl, itoa}
use os_serverlist_sync.Base.Int.{pos, itoa_int}
use os_serverlist_sync.Base.Net.{AddrPort}
use os_serverlist_sync.Base.Props.{Props, lookup, lookup-insert}
use os_serverlist_sync.Redis.{insert_all, Redis}
use os_serverlist_sync.Redis.Input.{Fields, succ, query_port, parsed, check_server}
use os_serverlist_sync.Redis.Output.{OpenSpyRedisOutputHandler, standard}

abbrev pub is_ut : Bytes → Bool
is_ut gamename = bytes_eq gamename (codes "ut2004") || bytes_eq gamename (codes "ut2003")

-- The answer to HMGET for a hash.
abbrev pub fields_of : Props → Fields
fields_of m = (lookup (codes "wan_ip") m, lookup (codes "wan_port") m, lookup (codes "injected") m)

query_port-pos :
    (gamename : Bytes) (p : ℕ)
    → p < 9223372036854775807
    → query_port gamename (pos p) ≡ pos (if is_ut gamename then p + 1 else p)
unfolding succ
query_port-pos gamename p h = elim (Bool-cases (is_ut gamename)) [
  | inl e ↦ let fits : (p == 9223372036854775807) ≡ false = ground (arith, h) in rw (e, fits) refl
  | inr e ↦ rw e refl
]

fields_of-standard :
    (R : Redis) (oh : OpenSpyRedisOutputHandler) (ip : Bytes) (p : ℕ) (m : Props)
    → let all = insert_all (standard R oh (record { ip = ip; port = pos p })) m in
      (lookup (codes "wan_ip") all ≡ some ip)
      × (lookup (codes "wan_port") all ≡ some (itoa p))
      × (lookup (codes "injected") all ≡ some (codes "1"))
unfolding itoa_int bytes_eq
fields_of-standard R oh ip p m = (
  rw (lookup-insert, lookup-insert, lookup-insert, lookup-insert, lookup-insert) refl,
  rw (lookup-insert, lookup-insert, lookup-insert, lookup-insert) refl,
  rw lookup-insert refl,
)

-- Whatever else the hash of a server holds: after the output handler has written its standard keys
-- for a source, the input handler takes the server for injected and queries what the source's
-- address and port parse as, with one more on the port for the games ut2004 and ut2003.
pub check_server-standard :
    (R : Redis) (oh : OpenSpyRedisOutputHandler) (parse_addr_port : Bytes → Option AddrPort)
    (gamename : Bytes)
    → (ip : Bytes) (p : ℕ) (m : Props) → p < 9223372036854775807
    → check_server parse_addr_port gamename
        (some (fields_of (insert_all (standard R oh (record { ip = ip; port = pos p })) m)))
      ≡ parsed (parse_addr_port (ip ++ (codes ":" ++ itoa (if is_ut gamename then p + 1 else p))))
unfolding check_server itoa_int
check_server-standard R oh parse_addr_port gamename ip p m h =
    let (a, b, c) = fields_of-standard R oh ip p m in
    rw
      (
        a,
        b,
        c,
        atoi-itoa p (omega (arith, h)),
        bytes_eq_refl (codes "1"),
        query_port-pos gamename p h,
      )
      refl
