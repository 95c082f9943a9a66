-- ===== src/Api/Run.antt =====
-- Runs of the API engines: when they panic.
use mathlib.Core.List.{filter_map, filter_map-cons-none, filter_map-cons-some}
use mathlib.Core.Option.{none-ne-some, some-injective}
use os_serverlist_sync.Base.{
  ℕ, List, [], ◌∷◌, Option, none, some, ◌⊎◌, inl, inr, ◌↔◌, ◌≡◌, refl, subst, sym, ◌∙◌, panic,
  not_ipv4, Option-cases,
}
use os_serverlist_sync.Base.Bytes.{Bytes}
use os_serverlist_sync.Base.Int.{uint16}
use os_serverlist_sync.Base.Net.{Addr}
use os_serverlist_sync.ListEngine.Run.{HasForeign, run-panic_iff}
use os_serverlist_sync.Monitor.{Monitor}
use os_serverlist_sync.Monitor.Mapped.{IsForeign}
use os_serverlist_sync.Api.{
  entries, entry_addresses, invoke, ServerEntry, entry_address, game_server_lister_invoke,
}

-- The entries have one whose address parses, as neither IPv4 nor IPv4-mapped.
abbrev pub NamesForeign : (Bytes → Option Addr) → List ServerEntry → Type 0
NamesForeign parse_addr [] = ⊥
NamesForeign parse_addr (e ∷ es) =
    ((a : Addr) × (parse_addr e.ip ≡ some a) × IsForeign a) ⊎ NamesForeign parse_addr es

foreign_iff :
    (parse_addr : Bytes → Option Addr) (es : List ServerEntry)
    → HasForeign (filter_map (entry_address parse_addr) es) ↔ NamesForeign parse_addr es
foreign_iff parse_addr [] = unfold filter_map in (λ h. h, λ h. h)
foreign_iff parse_addr (e ∷ es) =
    let (out, back) = foreign_iff parse_addr es in
    elim (Option-cases (parse_addr e.ip)) [
      | inl p ↦
          let passed : entry_address parse_addr e ≡ none = unfold entry_address in (rw p refl) in
          rw (filter_map-cons-none (entry_address parse_addr) e es passed) (
            λ h. inr (out h),
            λ h. elim h [ inl (a, q, f) ↦ absurd (none-ne-some a (sym p ∙ q)) | inr f ↦ back f ],
          )
      | inr (a, p) ↦
          let given : entry_address parse_addr e
              ≡ some (record { addr = a; port = uint16 e.query_port }) =
            unfold entry_address in (rw p refl) in
          rw (filter_map-cons-some (entry_address parse_addr) e es given) (
            λ h. elim h [ inl f ↦ inl (a, p, f) | inr f ↦ inr (out f) ],
            λ h. elim h [
              | inl (b, q, f) ↦ inl (subst IsForeign (some-injective b a (sym q ∙ p)) f)
              | inr f ↦ inr (back f)
            ],
          )
    ]

-- The engine of the game server lister makes the process panic exactly if some entry of the answer
-- has an address that parses as one that is neither IPv4 nor IPv4-mapped, whatever its port is.
pub game_server_lister_invoke-panic_iff :
    (parse_addr : Bytes → Option Addr) (clock : ℕ → ℕ) (es : List ServerEntry)
    (list_engine engine : ℕ) (m : Monitor)
    → (game_server_lister_invoke parse_addr clock (entries es) list_engine engine m
        ≡ panic not_ipv4)
      ↔ NamesForeign parse_addr es
unfolding invoke entry_addresses
game_server_lister_invoke-panic_iff parse_addr clock es list_engine engine m =
    let (to, from) =
      run-panic_iff list_engine engine clock (filter_map (entry_address parse_addr) es) m in
    let (out, back) = foreign_iff parse_addr es in (λ h. out (to h), λ h. from (back h))
