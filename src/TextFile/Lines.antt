-- ===== src/TextFile/Lines.antt =====
-- What the lines of a file mean.
use mathlib.Core.List.{filter_map, filter_map-cons-none, filter_map-cons-some}
use mathlib.Core.Option
use os_serverlist_sync.Base.{
  ℕ, suc, ◌+◌, ◌%◌, ◌^◌, ◌<◌, ◌≢◌, false, List, [], ◌∷◌, ◌++◌, Option, none, some, ◌≡◌, refl, ap,
  ◌∙◌, arith, ◌==◌, All, length, drop, take-length_append,
}
use os_serverlist_sync.Base.Atoi.{atoi-itoa}
use os_serverlist_sync.Base.Bytes.{Bytes, codes, itoa}
use os_serverlist_sync.Base.Int.{uint16}
use os_serverlist_sync.Base.Net.{v4, AddrPort}
use os_serverlist_sync.Base.Text.{starts_with, index_of}
use os_serverlist_sync.TextFile.{line_address, file_addresses}

-- A line of a file: a host with a port, a host without an address, or no colon at all.
pub data Line : Type 0 where
  server : Bytes → ℕ → ℕ → Line
  unresolved : Bytes → Bytes → Line
  remark : Bytes → Line

abbrev pub HasNoColon : Bytes → Type 0
HasNoColon s = All (λ c. c ≢ b':') s

abbrev pub line_bytes : Line → Bytes
line_bytes (server host ip port) = host ++ (b':' ∷ itoa port)
line_bytes (unresolved host behind) = host ++ (b':' ∷ behind)
line_bytes (remark s) = s

abbrev pub IsLine : (Bytes → Option ℕ) → Line → Type 0
IsLine resolve (server host ip port) = HasNoColon host × (resolve host ≡ some ip) × (port < 2 ^ 16)
IsLine resolve (unresolved host behind) = HasNoColon host × (resolve host ≡ none)
IsLine resolve (remark s) = HasNoColon s

abbrev pub lines_bytes : List Line → List Bytes
lines_bytes [] = []
lines_bytes (l ∷ ls) = line_bytes l ∷ lines_bytes ls

abbrev pub lines_addresses : List Line → List AddrPort
lines_addresses [] = []
lines_addresses (server host ip port ∷ ls) =
    record { addr = v4 ip; port = port } ∷ lines_addresses ls
lines_addresses (_ ∷ ls) = lines_addresses ls

index_of-colon :
    (s r : Bytes) → HasNoColon s → index_of (s ++ (b':' ∷ r)) (codes ":") ≡ some (length s)
unfolding index_of starts_with
index_of-colon [] r h = refl
index_of-colon (c ∷ s) r h =
    let other : (b':' == c) ≡ false = ground (arith, h.0) in rw (other, index_of-colon s r h.1) refl

index_of-no_colon : (s : Bytes) → HasNoColon s → index_of s (codes ":") ≡ none
unfolding index_of starts_with
index_of-no_colon [] h = refl
index_of-no_colon (c ∷ s) h =
    let other : (b':' == c) ≡ false = ground (arith, h.0) in
    rw (other, index_of-no_colon s h.1) refl

drop-suc_append : (s r : Bytes) (c : ℕ) → drop (length s + 1) (s ++ (c ∷ r)) ≡ r
drop-suc_append s r c = let e : length s + 1 ≡ suc (length s) = omega arith in rw e (go s)
  where
    go : (s : Bytes) → drop (suc (length s)) (s ++ (c ∷ r)) ≡ r
    go [] = refl
    go (x ∷ s) = go s

line_address-server :
    (resolve : Bytes → Option ℕ) (host : Bytes) (ip port : ℕ)
    → HasNoColon host
    → resolve host ≡ some ip
    → port < 2 ^ 16
    → line_address resolve (line_bytes (server host ip port))
      ≡ some (record { addr = v4 ip; port = port })
unfolding line_address Option.bind uint16
line_address-server resolve host ip port h found fits =
    let e : port % 65536 ≡ port = omega (arith, fits) in
    rw
      (
        index_of-colon host (itoa port) h,
        take-length_append host (b':' ∷ itoa port),
        drop-suc_append host (itoa port) b':',
        found,
        atoi-itoa port (omega (arith, fits)),
        e,
      )
      refl

line_address-unresolved :
    (resolve : Bytes → Option ℕ) (host behind : Bytes)
    → HasNoColon host
    → resolve host ≡ none
    → line_address resolve (host ++ (b':' ∷ behind)) ≡ none
unfolding line_address Option.bind
line_address-unresolved resolve host behind h found =
    rw (index_of-colon host behind h, take-length_append host (b':' ∷ behind), found) refl

line_address-remark :
    (resolve : Bytes → Option ℕ) (s : Bytes) → HasNoColon s → line_address resolve s ≡ none
unfolding line_address Option.bind
line_address-remark resolve s h = rw (index_of-no_colon s h) refl

-- The addresses of a file are those of its lines `host:port` whose host resolves, in order, with
-- their ports; lines without a colon, and lines whose host does not resolve, are passed over. (No host has a colon in
-- it, and the ports are printed numbers below 2^16.)
file_addresses-lines :
    (resolve : Bytes → Option ℕ) (ls : List Line)
    → All (IsLine resolve) ls
    → file_addresses resolve (lines_bytes ls) ≡ lines_addresses ls
file_addresses-lines resolve [] h = unfold filter_map in refl
file_addresses-lines resolve (server host ip port ∷ ls) ((colon, found, fits), h) =
    filter_map-cons-some _ _ _ (line_address-server resolve host ip port colon found fits)
    ∙ ap (◌∷◌ (record { addr = v4 ip; port = port })) (file_addresses-lines resolve ls h)
file_addresses-lines resolve (unresolved host behind ∷ ls) ((colon, found), h) =
    filter_map-cons-none _ _ _ (line_address-unresolved resolve host behind colon found)
    ∙ file_addresses-lines resolve ls h
file_addresses-lines resolve (remark s ∷ ls) (colon, h) =
    filter_map-cons-none _ _ _ (line_address-remark resolve s colon)
    ∙ file_addresses-lines resolve ls h
