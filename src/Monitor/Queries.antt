-- ===== src/Monitor/Queries.antt =====
-- `BeginQuery` and `CompleteQuery` against what they promise: the pending queries are a set of
-- keys (query engine, IPv4 address, port).
use os_serverlist_sync.Base.{
  ℕ, Bool, true, false, not, ◌&&◌, List, [], ◌∷◌, Option, none, some, inl, inr, ◌≡◌, refl, subst,
  ◌∙◌, arith, ◌==◌, if◌then◌else◌, Bool-cases, All, any, remove_first, ok, ok-injective,
}
use os_serverlist_sync.Base.Net.{v4, AddrPort, as4, addr_eq, addr_eq_iff}
use os_serverlist_sync.Monitor.{
  QueryItem, Monitor, is_same_query, begin_query, complete_loop, end_idle, complete_query,
}
use os_serverlist_sync.Monitor.Matching.{
  clash, HasIp, Distinct, AttemptsFit, IsValid, any-All, All-remove_first,
  complete_loop-remove_first,
}

-- Whether a query of `engine` to `ip` and `port` waits for an answer.
unfoldable pub pending : Monitor → ℕ → ℕ → ℕ → Bool
pending m engine ip port = any (is_same_query engine ip port) m.query_list

abbrev pub at4 : ℕ → ℕ → AddrPort
at4 ip port = record { addr = v4 ip; port = port }

abbrev pub same_key : ℕ → ℕ → ℕ → ℕ → ℕ → ℕ → Bool
same_key engine ip port engine' ip' port' = engine == engine' && ip == ip' && port == port'

pub query_list-end_idle :
    (found : Option ℕ) (m : Monitor) → (end_idle found m).query_list ≡ m.query_list
unfolding end_idle
query_list-end_idle none m = refl
query_list-end_idle (some sl) m = ground arith

pub same_key-eq :
    (engine ip port engine' ip' port' : ℕ)
    → same_key engine ip port engine' ip' port' ≡ true
    → (engine ≡ engine') × (ip ≡ ip') × (port ≡ port')
same_key-eq engine ip port engine' ip' port' h = ground arith

-- A key that is pending stays so when it is added.
pending-same_key :
    (m : Monitor) (engine ip port engine' ip' port' : ℕ)
    → pending m engine ip port ≡ true
    → pending m engine' ip' port'
      ≡ (if same_key engine ip port engine' ip' port' then true else pending m engine' ip' port')
pending-same_key m engine ip port engine' ip' port' h =
    elim (Bool-cases (same_key engine ip port engine' ip' port')) [
      | inl e ↦
          let (p, q, r) = same_key-eq engine ip port engine' ip' port' e in
          rw e (rw (← p, ← q, ← r) h)
      | inr e ↦ rw e refl
    ]

-- `BeginQuery` on an IPv4 address does not panic. Behind it the query is pending, whether a query of
-- any other engine, address or port is pending has not changed, and the result tells whether the
-- query was new.
pub pending-begin_query :
    (m : Monitor) (list_engine engine ip port now : ℕ)
    → (m' : Monitor) × (begin_query m list_engine engine (at4 ip port) now
        ≡ ok (m', not (pending m engine ip port)))
      × ((engine' ip' port' : ℕ)
          → pending m' engine' ip' port' ≡ (
              if same_key engine ip port engine' ip' port'
              then true
              else pending m engine' ip' port'))
unfolding begin_query as4
pending-begin_query m list_engine engine ip port now =
    elim (Bool-cases (pending m engine ip port)) [
      | inl old ↦
          (m, unfold pending in ground arith, λ e i p. pending-same_key m engine ip port e i p old)
      | inr new ↦ (
        record m {
          query_list =
              record {
                address = at4 ip port;
                engine = engine;
                list_engine = list_engine;
                last_performed = now;
                num_attempts = 1;
              }
              ∷ m.query_list;
        },
        unfold pending in ground arith,
        λ e i p. unfold pending is_same_query addr_eq in ground arith,
      )
    ]

-- Two items that the same test takes have one key.
is_same_query-clash_both :
    (engine ip port : ℕ) (c d : QueryItem)
    → is_same_query engine ip port c ≡ true
    → clash c d ≡ is_same_query engine ip port d
unfolding is_same_query clash
is_same_query-clash_both engine ip port c d h = ground (arith, addr_eq_iff c.address.addr (v4 ip))

module _ (engine ip port : ℕ) where
  All-clash-is_same_query :
      (c : QueryItem) (l : List QueryItem)
      → is_same_query engine ip port c ≡ true
      → All (λ d. clash c d ≡ false) l
      → any (is_same_query engine ip port) l ≡ false
  All-clash-is_same_query c [] s h = refl
  All-clash-is_same_query c (d ∷ ds) s h =
      ground (arith, is_same_query-clash_both engine ip port c d s, All-clash-is_same_query c ds s)

  any-is_same_query-remove_first :
      (l : List QueryItem)
      → Distinct l
      → any (is_same_query engine ip port) (remove_first (is_same_query engine ip port) l) ≡ false
  any-is_same_query-remove_first [] h = refl
  any-is_same_query-remove_first (c ∷ cs) h =
      ground (arith, All-clash-is_same_query c cs, any-is_same_query-remove_first cs h.1)

  -- Two keys that take one item are the same.
  is_same_query-same_key :
      (engine' ip' port' : ℕ) (c : QueryItem)
      → is_same_query engine ip port c ≡ true
      → is_same_query engine' ip' port' c ≡ same_key engine ip port engine' ip' port'
  unfolding is_same_query addr_eq
  is_same_query-same_key engine' ip' port' c h = ground (arith, addr_eq_iff c.address.addr (v4 ip))

  any-remove_first_other :
      (engine' ip' port' : ℕ) (l : List QueryItem)
      → same_key engine ip port engine' ip' port' ≡ false
      → any (is_same_query engine' ip' port') (remove_first (is_same_query engine ip port) l)
        ≡ any (is_same_query engine' ip' port') l
  any-remove_first_other engine' ip' port' [] h = refl
  any-remove_first_other engine' ip' port' (c ∷ cs) h = ground (
    arith,
    is_same_query-same_key engine' ip' port' c,
    any-remove_first_other engine' ip' port' cs,
  )

-- On a valid monitor `CompleteQuery` of an IPv4 address does not panic. Behind it the query is not
-- pending, and whether a query of any other engine, address or port is pending has not changed.
pub pending-complete_query :
    (m : Monitor) (engine ip port : ℕ)
    → IsValid m
    → (m' : Monitor) × (complete_query m engine (at4 ip port) ≡ ok m')
      × ((engine' ip' port' : ℕ)
          → pending m' engine' ip' port' ≡ (
              if same_key engine ip port engine' ip' port'
              then false
              else pending m engine' ip' port'))
unfolding complete_query as4
pending-complete_query m engine ip port v =
    let (found, rest) = complete_loop engine ip port m.query_list in
    let left : rest ≡ remove_first (is_same_query engine ip port) m.query_list =
      complete_loop-remove_first engine ip port m.query_list in
    (
      end_idle found (record m { query_list = rest }),
      refl,
      λ e i p.
          unfold pending in
          rw (query_list-end_idle, left)
            (elim (Bool-cases (same_key engine ip port e i p)) [
              | inl s ↦
                  let (x, y, z) = same_key-eq engine ip port e i p s in
                  rw s (
                    rw (← x, ← y, ← z)
                      (any-is_same_query-remove_first engine ip port m.query_list v.distinct))
              | inr d ↦ rw d (any-remove_first_other engine ip port e i p m.query_list d)
            ]),
    )

abbrev pub new_item : ℕ → ℕ → ℕ → ℕ → ℕ → QueryItem
new_item list_engine engine ip port now = record {
  address = at4 ip port;
  engine = engine;
  list_engine = list_engine;
  last_performed = now;
  num_attempts = 1;
}

fresh-Distinct :
    (list_engine engine ip port now : ℕ) (l : List QueryItem)
    → any (is_same_query engine ip port) l ≡ false
    → All (λ d. clash (new_item list_engine engine ip port now) d ≡ false) l
unfolding is_same_query clash
fresh-Distinct list_engine engine ip port now l h =
    any-All (clash (new_item list_engine engine ip port now)) l h

-- A query to an IPv4 address leaves the monitor valid.
pub begin_query-IsValid :
    (m : Monitor) (list_engine engine ip port now : ℕ) {m' : Monitor} {fresh : Bool}
    → IsValid m
    → begin_query m list_engine engine (at4 ip port) now ≡ ok (m', fresh)
    → IsValid m'
unfolding begin_query as4
begin_query-IsValid m list_engine engine ip port now {m'} {fresh} v h =
    elim (Bool-cases (any (is_same_query engine ip port) m.query_list)) [
      | inl old ↦ let e : m ≡ m' = ground arith in subst IsValid e v
      | inr new ↦
          let m2 : Monitor = record m {
            query_list = new_item list_engine engine ip port now ∷ m.query_list;
          } in
          let e : m2 ≡ m' = ground arith in
          subst IsValid e (record {
            has_ip = ((ip, refl), v.has_ip);
            distinct = (fresh-Distinct list_engine engine ip port now m.query_list new, v.distinct);
            attempts = (omega arith, v.attempts);
          })
    ]

pub IsValid-of_list :
    (m : Monitor) (l : List QueryItem)
    → m.query_list ≡ l
    → All HasIp l × Distinct l × All AttemptsFit l
    → IsValid m
IsValid-of_list m l e (a, d, t) = record { has_ip = rw e a; distinct = rw e d; attempts = rw e t }

remove_first-Distinct :
    (p : QueryItem → Bool) (l : List QueryItem) → Distinct l → Distinct (remove_first p l)
remove_first-Distinct p [] h = tt
remove_first-Distinct p (c ∷ cs) h =
    ground
      (arith, All-remove_first (λ d. clash c d ≡ false) p cs h.0, remove_first-Distinct p cs h.1)

pub complete_query-IsValid :
    (m : Monitor) (engine ip port : ℕ) {m' : Monitor}
    → IsValid m
    → complete_query m engine (at4 ip port) ≡ ok m'
    → IsValid m'
unfolding complete_query as4
complete_query-IsValid m engine ip port v h =
    let p = is_same_query engine ip port in
    let left = complete_loop-remove_first engine ip port m.query_list in
    let found = (complete_loop engine ip port m.query_list).0 in
    let m'' : Monitor =
      end_idle found (record m { query_list = (complete_loop engine ip port m.query_list).1 }) in
    subst IsValid (ok-injective h) (
      IsValid-of_list m'' (remove_first p m.query_list) (query_list-end_idle found _ ∙ left) (
        All-remove_first HasIp p m.query_list v.has_ip,
        remove_first-Distinct p m.query_list v.distinct,
        All-remove_first AttemptsFit p m.query_list v.attempts,
      ))
