-- ===== src/TextFile/Run.antt =====
-- A run of the text file engine, whatever the file and the host names are.
use mathlib.Core.List.{filter_map, filter_map-cons-none, filter_map-cons-some}
use mathlib.Core.Option
use mathlib.Core.Option.{none-ne-some}
use os_serverlist_sync.Base.{
  ℕ, ◌+◌, ◌||◌, List, [], ◌∷◌, Option, some, map, inl, inr, ◌≡◌, refl, sym, ap, ◌∙◌, ok,
  Option-cases,
}
use os_serverlist_sync.Base.Bytes.{Bytes, codes}
use os_serverlist_sync.Base.Net.{AddrPort}
use os_serverlist_sync.Base.Text.{index_of}
use os_serverlist_sync.ListEngine.{stamp}
use os_serverlist_sync.ListEngine.Keys.{Server, found, names, news}
use os_serverlist_sync.ListEngine.Run.{run-pending}
use os_serverlist_sync.Monitor.{Monitor, Send}
use os_serverlist_sync.Monitor.Matching.{IsValid}
use os_serverlist_sync.Monitor.Queries.{at4, pending}
use os_serverlist_sync.TextFile.{line_address, file_addresses, invoke}

line_address-v4 :
    (resolve : Bytes → Option ℕ) (input : Bytes) {a : AddrPort}
    → line_address resolve input ≡ some a
    → (ip : ℕ) × (a ≡ at4 ip a.port)
unfolding line_address Option.bind
line_address-v4 resolve input h = elim (Option-cases (index_of input (codes ":"))) [
  | inl e ↦ let h' = rw e at h in absurd (none-ne-some _ h')
  | inr (delim, e) ↦
      let (ip, _, q) = (Option.map-eq-some_iff _ _).0 (rw e at h) in
      (ip, sym q ∙ ap (λ x. at4 ip x.port) q)
]

-- The servers of a file.
file_servers :
    (resolve : Bytes → Option ℕ) (clock : ℕ → ℕ) (k : ℕ) (lines : List Bytes)
    → (ss : List Server) × (found ss ≡ stamp clock k (file_addresses resolve lines))
      × (map (λ s. at4 s.ip s.port) ss ≡ file_addresses resolve lines)
file_servers resolve clock k [] = ([], unfold filter_map in refl, unfold filter_map in refl)
file_servers resolve clock k (l ∷ ls) = elim (Option-cases (line_address resolve l)) [
  | inl e ↦
      rw (filter_map-cons-none (line_address resolve) l ls e) (file_servers resolve clock k ls)
  | inr (a, e) ↦
      let (ip, v) = line_address-v4 resolve l e in
      let (ss, p, q) = file_servers resolve clock (k + 1) ls in
      rw (filter_map-cons-some (line_address resolve) l ls e) (
        record { ip = ip; port = a.port; now = clock k } ∷ ss,
        (λ i. (sym v i, clock k) ∷ p i),
        (λ i. sym v i ∷ q i),
      )
]

-- Whatever the file and the host names are, a run of the engine from a valid monitor on does not panic.
-- Afterwards a query is pending exactly if it was before or a line of the file gives its address, and
-- `Query` was called once for each that was not pending, in the order of the lines.
pub invoke-pending :
    (resolve : Bytes → Option ℕ) (clock : ℕ → ℕ) (lines : List Bytes)
    → (list_engine engine : ℕ) (m : Monitor) → IsValid m
    → (m' : Monitor) × (sends : List Send) × (ss : List Server) × (invoke resolve clock lines
          list_engine engine m
        ≡ ok (m', sends))
      × IsValid m'
      × (m'.server_engine_list ≡ m.server_engine_list)
      × (map (λ s. at4 s.ip s.port) ss ≡ file_addresses resolve lines)
      × ((engine' ip port : ℕ)
          → pending m' engine' ip port
            ≡ (pending m engine' ip port || names engine engine' ip port ss))
      × (sends ≡ news engine ss (pending m engine))
unfolding invoke
invoke-pending resolve clock lines list_engine engine m v =
    let (ss, e, addresses) = file_servers resolve clock 0 lines in
    let (m', sends, r, v', same, p, n) = run-pending list_engine engine ss m v in
    (m', sends, ss, rw (← e) r, v', same, addresses, p, n)
