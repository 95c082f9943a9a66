-- ===== src/ListEngine/Keys.antt =====
-- Which queries are pending after a server list has been read, and which were sent.
use os_serverlist_sync.Base.{
  ℕ, Bool, true, not, ◌||◌, List, [], ◌∷◌, map, ◌≡◌, refl, ap, ◌∙◌, arith, if◌then◌else◌, any, ok,
}
use mathlib.Core.Path.{fun_ext}
use os_serverlist_sync.Base.Net.{AddrPort}
use os_serverlist_sync.Monitor.{Monitor, Send}
use os_serverlist_sync.Monitor.Matching.{IsValid}
use os_serverlist_sync.Monitor.Queries.{
  at4, pending, same_key, pending-begin_query, begin_query-IsValid,
}
use os_serverlist_sync.ListEngine.{enqueue_all}

-- A server of the list: IPv4 address, port, and the time at which it was found.
pub record Server : Type 0 where
  pub ip : ℕ
  pub port : ℕ
  pub now : ℕ

abbrev pub found : List Server → List (AddrPort × ℕ)
found = map (λ s. (at4 s.ip s.port, s.now))

-- Whether the list names the key.
abbrev pub names : ℕ → ℕ → ℕ → ℕ → List Server → Bool
names engine engine' ip port = any (λ s. same_key engine s.ip s.port engine' ip port)

-- The keys that are known behind `s`.
abbrev pub seen : ℕ → Server → (ℕ → ℕ → Bool) → ℕ → ℕ → Bool
seen engine s known ip port =
    if same_key engine s.ip s.port engine ip port then true else known ip port

-- The servers whose first place this is in the list, and that `m` was not waiting for.
unfoldable pub news : ℕ → List Server → (ℕ → ℕ → Bool) → List Send
news engine [] known = []
news engine (s ∷ ss) known =
    let rest = news engine ss (seen engine s known) in
    if known s.ip s.port then rest else record { engine = engine; address = at4 s.ip s.port } ∷ rest

-- Reading a list of IPv4 servers into a valid monitor does not panic and leaves a valid monitor. A
-- query is pending afterwards exactly if it was before or the list names its server, and `Query` is
-- called once for each server that was not pending, in the order of the list.
pub enqueue_all-pending :
    (list_engine engine : ℕ) (ss : List Server) (m : Monitor)
    → IsValid m
    → (m' : Monitor) × (sends : List Send) × (enqueue_all list_engine engine (found ss) m
        ≡ ok (m', sends))
      × IsValid m'
      × ((engine' ip port : ℕ)
          → pending m' engine' ip port
            ≡ (pending m engine' ip port || names engine engine' ip port ss))
      × (sends ≡ news engine ss (pending m engine))
unfolding enqueue_all news
enqueue_all-pending list_engine engine [] m v = (m, [], refl, v, λ e i p. ground arith, refl)
enqueue_all-pending list_engine engine (s ∷ ss) m v =
    let (m1, e1, p1) = pending-begin_query m list_engine engine s.ip s.port s.now in
    let v1 = begin_query-IsValid m list_engine engine s.ip s.port s.now v e1 in
    let (m2, sends, e2, v2, p2, n2) = enqueue_all-pending list_engine engine ss m1 v1 in
    let fresh = not (pending m engine s.ip s.port) in
    let call : Send = record { engine = engine; address = at4 s.ip s.port } in
    let known : pending m1 engine ≡ seen engine s (pending m engine) =
      fun_ext (λ ip. fun_ext (λ port. p1 engine ip port)) in
    (
      m2,
      if fresh then call ∷ sends else sends,
      rw (e1, e2) refl,
      v2,
      λ e i p. ground (arith, p1 e i p, p2 e i p),
      ground (arith, n2 ∙ ap (news engine ss) known),
    )
