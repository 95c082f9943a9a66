-- ===== src/Monitor/Refines.antt =====
-- What the monitor is to its callers: a set of keys, that `BeginQuery` adds to and tells whether the key
-- was new, and that `CompleteQuery` takes from.
use mathlib.Core.Path.{fun_ext}
use os_serverlist_sync.Base.{
  ℕ, Bool, true, false, not, List, [], ◌∷◌, ◌≡◌, refl, ap, ◌∙◌, if◌then◌else◌, Result, ok, ◌>>=◌,
}
use os_serverlist_sync.Monitor.{
  Monitor, begin_server_list_engine, end_server_list_engine, begin_query, complete_query,
}
use os_serverlist_sync.Monitor.Matching.{IsValid}
use os_serverlist_sync.Monitor.Queries.{
  pending, at4, same_key, pending-begin_query, begin_query-IsValid, pending-complete_query,
}
use os_serverlist_sync.Monitor.Trace.{Step-IsValid, answer, begin_engine, end_engine}

-- A call of a method, with an IPv4 address.
pub data Call : Type 0 where
  begins ends : (list_engine : ℕ) → Call
  asks : (list_engine engine ip port now : ℕ) → Call
  answers : (engine ip port : ℕ) → Call

-- The monitor behind the calls, and what the calls of `BeginQuery` returned.
abbrev pub run_calls : List Call → Monitor → Result (Monitor × List Bool)
run_calls [] m = ok (m, [])
run_calls (begins sl ∷ cs) m = run_calls cs (begin_server_list_engine m sl)
run_calls (ends sl ∷ cs) m = run_calls cs (end_server_list_engine m sl)
run_calls (asks sl engine ip port now ∷ cs) m = do
  (m1, fresh) ← begin_query m sl engine (at4 ip port) now
  (m2, rest) ← run_calls cs m1
  ok (m2, fresh ∷ rest)
run_calls (answers engine ip port ∷ cs) m = do
  m1 ← complete_query m engine (at4 ip port)
  run_calls cs m1

abbrev pub KeySet : Type 0
KeySet = ℕ → ℕ → ℕ → Bool

abbrev put : Bool → ℕ → ℕ → ℕ → KeySet → KeySet
put b engine ip port keys engine' ip' port' =
    if same_key engine ip port engine' ip' port' then b else keys engine' ip' port'

-- The same on a set of keys.
abbrev pub run_keys : List Call → KeySet → KeySet × List Bool
run_keys [] keys = (keys, [])
run_keys (begins sl ∷ cs) keys = run_keys cs keys
run_keys (ends sl ∷ cs) keys = run_keys cs keys
run_keys (asks sl engine ip port now ∷ cs) keys =
    let (keys', rest) = run_keys cs (put true engine ip port keys) in
    (keys', not (keys engine ip port) ∷ rest)
run_keys (answers engine ip port ∷ cs) keys = run_keys cs (put false engine ip port keys)

-- From a valid monitor on, any calls of `BeginServerListEngine`, `EndServerListEngine`, `BeginQuery` and
-- `CompleteQuery` with IPv4 addresses do not panic, the calls of `BeginQuery` return what they return on
-- a set of keys, and the monitor stays valid and its pending queries are that set: on these, the times,
-- the list engines and the order in the list have no effect. (Calls of `Think` and
-- `AllEnginesComplete` are not among them.)
pub run_calls-refines :
    (cs : List Call) (m : Monitor)
    → IsValid m
    → (m' : Monitor) × (run_calls cs m ≡ ok (m', (run_keys cs (pending m)).1))
      × IsValid m'
      × (pending m' ≡ (run_keys cs (pending m)).0)
run_calls-refines [] m v = (m, refl, v, refl)
run_calls-refines (begins sl ∷ cs) m v =
    let same : pending (begin_server_list_engine m sl) ≡ pending m =
      unfold pending begin_server_list_engine in refl in
    let (m', e, v', p) =
      run_calls-refines cs (begin_server_list_engine m sl) (Step-IsValid (begin_engine m sl) v) in
    (m', rw (← same) e, v', rw (← same) p)
run_calls-refines (ends sl ∷ cs) m v =
    let same : pending (end_server_list_engine m sl) ≡ pending m =
      unfold pending end_server_list_engine in refl in
    let (m', e, v', p) =
      run_calls-refines cs (end_server_list_engine m sl) (Step-IsValid (end_engine m sl) v) in
    (m', rw (← same) e, v', rw (← same) p)
run_calls-refines (asks sl engine ip port now ∷ cs) m v =
    let (m1, e1, p1) = pending-begin_query m sl engine ip port now in
    let v1 = begin_query-IsValid m sl engine ip port now v e1 in
    let (m2, e2, v2, p2) = run_calls-refines cs m1 v1 in
    let now_keys : pending m1 ≡ put true engine ip port (pending m) =
      fun_ext (λ e. fun_ext (λ i. fun_ext (λ p. p1 e i p))) in
    (m2, rw (e1, e2, now_keys) refl, v2, p2 ∙ ap (λ k. (run_keys cs k).0) now_keys)
run_calls-refines (answers engine ip port ∷ cs) m v =
    let (m1, e1, p1) = pending-complete_query m engine ip port v in
    let v1 = Step-IsValid (answer engine (at4 ip port) (ip, refl) e1) v in
    let (m2, e2, v2, p2) = run_calls-refines cs m1 v1 in
    let now_keys : pending m1 ≡ put false engine ip port (pending m) =
      fun_ext (λ e. fun_ext (λ i. fun_ext (λ p. p1 e i p))) in
    (m2, rw (e1, e2, now_keys) refl, v2, p2 ∙ ap (λ k. (run_keys cs k).0) now_keys)
