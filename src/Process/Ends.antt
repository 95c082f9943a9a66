-- ===== src/Process/Ends.antt =====
-- The process ends.
use os_serverlist_sync.Base.{
  ℕ, zero, suc, ◌+◌, arith, Bool, true, List, [], ◌∷◌, Option, none, some, inl, inr, ◌≡◌, refl, sym,
  ap, ◌∙◌, All, ◌≤◌, Bool-cases, Result, ok, >>=-eq-ok, ok-injective,
}
use os_serverlist_sync.Base.Net.{AddrPort, as4}
use os_serverlist_sync.Monitor.{
  is_same_query, QueryItem, Monitor, end_loop, end_server_list_engine, engine_has_pending_queries,
  complete_loop, end_idle, complete_query, all_engines_complete, sweep, complete_all, Send, think,
}
use os_serverlist_sync.Monitor.Abandon.{think_lem}
use os_serverlist_sync.Monitor.Matching.{IsValid, All-remove_first, complete_loop-remove_first}
use os_serverlist_sync.Monitor.Queries.{at4, query_list-end_idle, pending-complete_query}
use os_serverlist_sync.Monitor.Trace.{Step-IsValid, answer}
use os_serverlist_sync.Monitor.Rounds.{
  Ripe, soon, apart, Counted, kept-soon, kept-apart, none_over, Counted-start,
}
use os_serverlist_sync.Monitor.Refines.{begins, ends, asks, answers}
use os_serverlist_sync.Process.{Event, tick, call, watch}

end_idle-none_left :
    (found : Option ℕ) (m : Monitor)
    → m.server_engine_list ≡ []
    → (end_idle found m).server_engine_list ≡ []
unfolding end_idle end_server_list_engine end_loop
end_idle-none_left none m h = h
end_idle-none_left (some sl) m h = elim (Bool-cases (engine_has_pending_queries m sl)) [
  | inl e ↦ rw e h
  | inr e ↦ rw (e, h) refl
]

complete_query-none_left :
    (m : Monitor) (engine : ℕ) (a : AddrPort) {m' : Monitor}
    → complete_query m engine a ≡ ok m'
    → m.server_engine_list ≡ []
    → m'.server_engine_list ≡ []
unfolding complete_query
complete_query-none_left m engine a h none_left =
    let (ip, e, r) = >>=-eq-ok (as4 a.addr) _ h in
    let l = complete_loop engine ip a.port m.query_list in
    ap (λ x. x.server_engine_list) (sym (ok-injective r))
    ∙ end_idle-none_left l.0 (record m { query_list = l.1 }) none_left

complete_all-none_left :
    (cs : List QueryItem) (m : Monitor) {m' : Monitor}
    → complete_all cs m ≡ ok m'
    → m.server_engine_list ≡ []
    → m'.server_engine_list ≡ []
unfolding complete_all
complete_all-none_left [] m h none_left =
    ap (λ x. x.server_engine_list) (sym (ok-injective h)) ∙ none_left
complete_all-none_left (c ∷ cs) m h none_left =
    let (m1, e, r) = >>=-eq-ok (complete_query m c.engine c.address) _ h in
    complete_all-none_left cs m1 r (complete_query-none_left m c.engine c.address e none_left)

think-none_left :
    (clock : ℕ → ℕ) (m : Monitor) {m' : Monitor} {sends : List Send}
    → think clock m ≡ ok (m', sends)
    → m.server_engine_list ≡ []
    → m'.server_engine_list ≡ []
unfolding think
think-none_left clock m h none_left =
    let s = sweep clock 1 m.query_list in
    let (m1, e, r) =
      >>=-eq-ok (complete_all s.to_complete (record m { query_list = s.items })) _ h in
    ap (λ x. x.0.server_engine_list) (sym (ok-injective r))
    ∙ complete_all-none_left s.to_complete (record m { query_list = s.items }) e none_left

is_complete :
    (m : Monitor) → m.server_engine_list ≡ [] → m.query_list ≡ [] → all_engines_complete m ≡ true
unfolding all_engines_complete
is_complete m none_left done = rw (none_left, done) refl

-- An answer takes queries from the list and adds none.
complete_query-All :
    (P : QueryItem → Type 0) (m : Monitor) (engine ip port : ℕ) {m' : Monitor}
    → complete_query m engine (at4 ip port) ≡ ok m'
    → All P m.query_list
    → All P m'.query_list
unfolding complete_query as4
complete_query-All P m engine ip port h all =
    let l = complete_loop engine ip port m.query_list in
    rw (← ok-injective h) (
      rw (query_list-end_idle, complete_loop-remove_first)
        (All-remove_first P (is_same_query engine ip port) m.query_list all))

abbrev pub ticks_of : List Event → List (ℕ → ℕ)
ticks_of [] = []
ticks_of (tick clock ∷ events) = clock ∷ ticks_of events
ticks_of (call c ∷ events) = ticks_of events

-- Nothing but answers comes between the ticks.
abbrev pub OnlyAnswers : List Event → Type 0
OnlyAnswers [] = Unit
OnlyAnswers (tick clock ∷ events) = OnlyAnswers events
OnlyAnswers (call (answers engine ip port) ∷ events) = OnlyAnswers events
OnlyAnswers (call _ ∷ events) = ⊥

-- The loop has ended.
abbrev Ended : Result (Monitor × Bool) → Type 0
Ended r = (m : Monitor) × (r ≡ ok (m, true)) × (all_engines_complete m ≡ true)

module _ (clock : ℕ → ℕ) (events : List Event) (m m1 : Monitor) (sends : List Send)
    (e : think clock m ≡ ok (m1, sends)) where
  watch_complete : all_engines_complete m1 ≡ true → Ended (watch (tick clock ∷ events) m)
  unfolding watch
  watch_complete complete = (m1, rw (e, complete) refl, complete)

  -- Where the loop goes on it ends, it ends.
  watch_goes_on : Ended (watch events m1) → Ended (watch (tick clock ∷ events) m)
  unfolding watch
  watch_goes_on (m2, later, complete) = elim (Bool-cases (all_engines_complete m1)) [
    | inl now ↦ (m1, rw (e, now) refl, now)
    | inr not_yet ↦ (m2, rw (e, not_yet) later, complete)
  ]

watch-call :
    (engine ip port : ℕ) (events : List Event) (m m1 : Monitor)
    → complete_query m engine (at4 ip port) ≡ ok m1
    → watch (call (answers engine ip port) ∷ events) m ≡ watch events m1
unfolding watch
watch-call engine ip port events m m1 e = rw e refl

watch-Ripe :
    (events : List Event) {b t n : ℕ} (j : ℕ) (m : Monitor)
    → OnlyAnswers events
    → Ripe b t (suc n) (ticks_of events)
    → 7 ≤ j + suc n
    → IsValid m
    → m.server_engine_list ≡ []
    → All (Counted b t j) m.query_list
    → Ended (watch events m)
watch-Ripe [] j m o r s v none_left h = elim r [ ]
watch-Ripe (tick clock ∷ events) {b = b} {t = t} j m o (soon _ b' later bound r) s v none_left h =
    let (m1, e1, left, v1) = think_lem clock m v in
    let counted : All (Counted b' t j) m1.query_list =
      rw left (kept-soon b t j b' clock later bound 1 m.query_list h) in
    watch_goes_on clock events m m1 _ e1
      (watch-Ripe events j m1 o r s v1 (think-none_left clock m e1 none_left) counted)
watch-Ripe (tick clock ∷ events) {b = b} {t = t} {n = zero} j m o (apart _ b' later bound late r) s
      v none_left h =
    let (m1, e1, left, v1) = think_lem clock m v in
    let counted : All (Counted b' b' (j + 1)) m1.query_list =
      rw left (kept-apart b t j b' clock later bound 1 m.query_list late h) in
    let done = none_over b' b' (j + 1) m1.query_list (omega (arith, s)) v1.attempts counted in
    watch_complete clock events m m1 _ e1
      (is_complete m1 (think-none_left clock m e1 none_left) done)
watch-Ripe (tick clock ∷ events) {b = b} {t = t} {n = suc n} j m o (apart _ b' later bound late r) s
      v none_left h =
    let (m1, e1, left, v1) = think_lem clock m v in
    let counted : All (Counted b' b' (j + 1)) m1.query_list =
      rw left (kept-apart b t j b' clock later bound 1 m.query_list late h) in
    watch_goes_on clock events m m1 _ e1 (
      watch-Ripe events (j + 1) m1 o r (omega (arith, s)) v1 (think-none_left clock m e1 none_left)
        counted)
watch-Ripe (call (answers engine ip port) ∷ events) j m o r s v none_left h =
    let (m1, e1, _) = pending-complete_query m engine ip port v in
    let v1 = Step-IsValid (answer engine (at4 ip port) (ip, refl) e1) v in
    let left = complete_query-none_left m engine (at4 ip port) e1 none_left in
    let counted = complete_query-All _ m engine ip port e1 h in
    let (m2, e2, complete) = watch-Ripe events j m1 o r s v1 left counted in
    (m2, watch-call engine ip port events m m1 e1 ∙ e2, complete)
watch-Ripe (call (begins sl) ∷ events) j m o r s v none_left h = absurd o
watch-Ripe (call (ends sl) ∷ events) j m o r s v none_left h = absurd o
watch-Ripe (call (asks sl e i p k) ∷ events) j m o r s v none_left h = absurd o

-- Once the server lists have been read, servers that never answer do not keep the process alive:
-- from a valid monitor without server-list engines on, whose queries were last sent by time `b`,
-- ticks that hold six, of which the first comes more than 30 seconds behind `b` and each other more
-- than 30 seconds behind the one before, end the ticker loop, and with it the process, whatever
-- IPv4 answers come between them, and then nothing is pending.
pub watch-ends :
    (b : ℕ) (events : List Event) (m : Monitor)
    → IsValid m
    → m.server_engine_list ≡ []
    → All (λ c. c.last_performed ≤ b) m.query_list
    → OnlyAnswers events
    → Ripe b b 6 (ticks_of events)
    → (m' : Monitor) × (watch events m ≡ ok (m', true)) × (all_engines_complete m' ≡ true)
watch-ends b events m v none_left h o r =
    watch-Ripe events 1 m o r (omega arith) v none_left (Counted-start b m.query_list v.attempts h)
