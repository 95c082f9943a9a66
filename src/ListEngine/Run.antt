-- ===== src/ListEngine/Run.antt =====
-- A list engine's run from `Invoke` to `EndServerListEngine`.
use os_serverlist_sync.Base.{
  ℕ, ◌+◌, Bool, ◌||◌, List, [], ◌∷◌, ◌⊎◌, inl, inr, ◌↔◌, ◌≡◌, refl, sym, ap, ◌∙◌, arith, Result, ok,
  panic, ◌>>=◌, ◌%◌, ◌^◌, not_ipv4, >>=-eq-ok, ok-injective, Bool-cases, >>=-eq-panic,
  >>=-panic_iff,
}
use os_serverlist_sync.Base.Net.{Addr, invalid, v4, v6, AddrPort, as4, is_mapped}
use os_serverlist_sync.Monitor.{
  Monitor, Send, begin_server_list_engine, end_loop, end_server_list_engine, begin_query,
}
use os_serverlist_sync.Monitor.Mapped.{IsForeign, begin_complete_panic_iff}
use os_serverlist_sync.Monitor.Matching.{IsValid}
use os_serverlist_sync.Monitor.Queries.{pending}
use os_serverlist_sync.ListEngine.{enqueue_all, stamp, run}
use os_serverlist_sync.ListEngine.Keys.{Server, found, names, news, enqueue_all-pending}

server_engine_list-begin_query :
    (m : Monitor) (list_engine engine : ℕ) (a : AddrPort) (now : ℕ) {m' : Monitor} {fresh : Bool}
    → begin_query m list_engine engine a now ≡ ok (m', fresh)
    → m'.server_engine_list ≡ m.server_engine_list
unfolding begin_query
server_engine_list-begin_query m list_engine engine a now h =
    let (ip, e, r) = >>=-eq-ok (as4 a.addr) _ h in ground arith

server_engine_list-enqueue_all :
    (list_engine engine : ℕ) (l : List (AddrPort × ℕ)) (m : Monitor) {m' : Monitor}
    {sends : List Send}
    → enqueue_all list_engine engine l m ≡ ok (m', sends)
    → m'.server_engine_list ≡ m.server_engine_list
unfolding enqueue_all
server_engine_list-enqueue_all list_engine engine [] m h = ground arith
server_engine_list-enqueue_all list_engine engine ((a, now) ∷ l) m h =
    let ((m1, fresh), e1, r1) = >>=-eq-ok (begin_query m list_engine engine a now) _ h in
    let ((m2, sends), e2, r2) = >>=-eq-ok (enqueue_all list_engine engine l m1) _ r1 in
    (sym (ap (λ x. x.0.server_engine_list) (ok-injective r2))
      ∙ server_engine_list-enqueue_all list_engine engine l m1 e2)
    ∙ server_engine_list-begin_query m list_engine engine a now e1

-- A run of an engine that finds IPv4 servers, from a valid monitor on, does not panic. Afterwards the
-- engine is not among the running engines any more, the others still are; a query is pending exactly
-- if it was before or its server has been found, and `Query` was called once for each server that was
-- not pending, in the order of the list.
pub run-pending :
    (list_engine engine : ℕ) (ss : List Server) (m : Monitor)
    → IsValid m
    → (m' : Monitor) × (sends : List Send) × (run list_engine engine (found ss) m ≡ ok (m', sends))
      × IsValid m'
      × (m'.server_engine_list ≡ m.server_engine_list)
      × ((engine' ip port : ℕ)
          → pending m' engine' ip port
            ≡ (pending m engine' ip port || names engine engine' ip port ss))
      × (sends ≡ news engine ss (pending m engine))
unfolding run begin_server_list_engine end_server_list_engine end_loop pending
run-pending list_engine engine ss m v =
    let m0 = begin_server_list_engine m list_engine in
    let v0 : IsValid m0 = record {
      has_ip = v.has_ip;
      distinct = v.distinct;
      attempts = v.attempts;
    } in
    let (m1, sends, e, v1, p, n) = enqueue_all-pending list_engine engine ss m0 v0 in
    let same = server_engine_list-enqueue_all list_engine engine (found ss) m0 e in
    let back : end_loop list_engine m1.server_engine_list ≡ m.server_engine_list =
      rw same (ground arith) in
    (
      end_server_list_engine m1 list_engine,
      sends,
      rw e refl,
      record { has_ip = v1.has_ip; distinct = v1.distinct; attempts = v1.attempts },
      back,
      p,
      n,
    )

-- Some address is neither IPv4 nor IPv4-mapped.
abbrev pub HasForeign : List AddrPort → Type 0
HasForeign [] = ⊥
HasForeign (a ∷ rest) = IsForeign a.addr ⊎ HasForeign rest

ok-ne-panic : {A : Type 0} {a : A} → ok a ≡ panic not_ipv4 → ⊥
ok-ne-panic h = cc

>>=-ok :
    {A B : Type 0} (first : Result A) (g : A → B) {a : A}
    → first ≡ ok a
    → (b : B) × ((first >>= λ x. ok (g x)) ≡ ok b)
>>=-ok first g {a} e = (g a, rw e refl)

as4-cases : (a : Addr) → (as4 a ≡ panic not_ipv4) ⊎ ((ip : ℕ) × (as4 a ≡ ok ip))
unfolding as4
as4-cases invalid = inl refl
as4-cases (v4 ip) = inr (ip, refl)
as4-cases (v6 bits zone) = elim (Bool-cases (is_mapped bits)) [
  | inl e ↦ inr (bits % 2 ^ 32, rw e refl)
  | inr e ↦ inl (rw e refl)
]

begin_query-cases :
    (m : Monitor) (list_engine engine : ℕ) (a : AddrPort) (now : ℕ)
    → (begin_query m list_engine engine a now ≡ panic not_ipv4)
      ⊎ ((r : Monitor × Bool) × (begin_query m list_engine engine a now ≡ ok r))
unfolding begin_query
begin_query-cases m list_engine engine a now = elim (as4-cases a.addr) [
  | inl e ↦ inl (rw e refl)
  | inr (ip, e) ↦ inr (>>=-ok (as4 a.addr) _ e)
]

enqueue_all-panic_iff :
    (list_engine engine k : ℕ) (clock : ℕ → ℕ) (l : List AddrPort) (m : Monitor)
    → (enqueue_all list_engine engine (stamp clock k l) m ≡ panic not_ipv4) ↔ HasForeign l
unfolding enqueue_all
enqueue_all-panic_iff list_engine engine k clock [] m = (λ h. cc, λ h. absurd h)
enqueue_all-panic_iff list_engine engine k clock (a ∷ l) m =
    let foreign = (begin_complete_panic_iff m list_engine engine a (clock k)).0 in
    (
      λ h. elim (>>=-eq-panic (begin_query m list_engine engine a (clock k)) _ h) [
        | inl first ↦ inl (foreign.0 first)
        | inr ((m1, fresh), e, later) ↦
            let behind =
              (>>=-panic_iff (enqueue_all list_engine engine (stamp clock (k + 1) l) m1) _
                  not_ipv4).0
                later in
            inr ((enqueue_all-panic_iff list_engine engine (k + 1) clock l m1).0 behind)
      ],
      λ h. elim (begin_query-cases m list_engine engine a (clock k)) [
        | inl e ↦ rw e refl
        | inr ((m1, fresh), e) ↦ elim h [
          | inl here ↦ absurd (ok-ne-panic (sym e ∙ foreign.1 here))
          | inr later ↦
              let behind = (enqueue_all-panic_iff list_engine engine (k + 1) clock l m1).1 later in
              rw (e, behind) refl
        ]
      ],
    )

-- A list engine's addresses make the process panic exactly if one of them is neither IPv4 nor
-- IPv4-mapped, wherever it stands among the others.
pub run-panic_iff :
    (list_engine engine : ℕ) (clock : ℕ → ℕ) (l : List AddrPort) (m : Monitor)
    → (run list_engine engine (stamp clock 0 l) m ≡ panic not_ipv4) ↔ HasForeign l
unfolding run
run-panic_iff list_engine engine clock l m =
    let m0 = begin_server_list_engine m list_engine in
    let (to, from) = enqueue_all-panic_iff list_engine engine 0 clock l m0 in
    let (out, back) =
      >>=-panic_iff (enqueue_all list_engine engine (stamp clock 0 l) m0) _ not_ipv4 in
    (λ h. to (out h), λ h. back (from h))
