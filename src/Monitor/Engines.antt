-- ===== src/Monitor/Engines.antt =====
-- The list of running server-list engines: when `CompleteQuery` takes an engine off it.
use os_serverlist_sync.Base.{
  ℕ, Bool, true, false, ◌&&◌, List, [], ◌∷◌, ◌++◌, ◌≢◌, ap, All, Bool-cases, none, some, ◌⊎◌, inl,
  inr, ◌≡◌, refl, arith, ◌==◌, Option-cases, any, ok, ok-injective,
}
use os_serverlist_sync.Base.Net.{as4, addr_eq}
use os_serverlist_sync.Monitor.{
  QueryItem, Monitor, end_loop, end_server_list_engine, engine_has_pending_queries, is_same_query,
  begin_query, complete_loop, end_idle, complete_query,
}
use os_serverlist_sync.Monitor.Queries.{at4, pending}

complete_loop-absent :
    (engine ip port : ℕ) (l : List QueryItem)
    → (complete_loop engine ip port l).0 ≡ none
    → (any (is_same_query engine ip port) l ≡ false) × ((complete_loop engine ip port l).1 ≡ l)
unfolding complete_loop
complete_loop-absent engine ip port [] h = (refl, refl)
complete_loop-absent engine ip port (c ∷ cs) h =
    ground (arith, complete_loop-absent engine ip port cs)

complete_loop-found :
    (engine ip port : ℕ) (l : List QueryItem) (sl : ℕ)
    → (complete_loop engine ip port l).0 ≡ some sl
    → any (λ c. is_same_query engine ip port c && c.list_engine == sl) l ≡ true
unfolding complete_loop
complete_loop-found engine ip port [] sl h = cc
complete_loop-found engine ip port (c ∷ cs) sl h =
    ground (arith, complete_loop-found engine ip port cs sl)

-- The first `sl` of the list is gone, or there is none and the list is the same.
abbrev pub IsTakenOff : ℕ → List ℕ → List ℕ → Type 0
IsTakenOff sl l l' =
    (All (λ e. e ≢ sl) l × (l' ≡ l))
    ⊎ ((before : List ℕ) × (after : List ℕ) × (l ≡ before ++ (sl ∷ after))
        × All (λ e. e ≢ sl) before
        × (l' ≡ before ++ after))

end_loop-IsTakenOff : (sl : ℕ) (l : List ℕ) → IsTakenOff sl l (end_loop sl l)
unfolding end_loop
end_loop-IsTakenOff sl [] = inl (tt, refl)
end_loop-IsTakenOff sl (c ∷ l) = elim (Bool-cases (c == sl)) [
  | inl same ↦
      let e : c ≡ sl = ground (arith, same) in rw same (inr ([], l, ap (λ x. x ∷ l) e, tt, refl))
  | inr other ↦
      let c_ne : c ≢ sl = λ e. ground (arith, other, e) in
      rw other (elim (end_loop-IsTakenOff sl l) [
        | inl (absent, e) ↦ inl ((c_ne, absent), ap (◌∷◌ c) e)
        | inr (before, after, e, absent, e') ↦
            inr (c ∷ before, after, ap (◌∷◌ c) e, (c_ne, absent), ap (◌∷◌ c) e')
      ])
]

-- Whether a query that the list engine has begun is pending.
abbrev pub waits_for : ℕ → List QueryItem → Bool
waits_for sl = any (λ c. c.list_engine == sl)

server_engine_list-end_idle :
    (sl : ℕ) (m : Monitor)
    → ((waits_for sl (end_idle (some sl) m).query_list ≡ true)
        × ((end_idle (some sl) m).server_engine_list ≡ m.server_engine_list))
      ⊎ ((waits_for sl (end_idle (some sl) m).query_list ≡ false)
          × IsTakenOff sl m.server_engine_list (end_idle (some sl) m).server_engine_list)
unfolding end_idle engine_has_pending_queries end_server_list_engine
server_engine_list-end_idle sl m = elim (Bool-cases (waits_for sl m.query_list)) [
  | inl e ↦ rw e (inl (e, refl))
  | inr e ↦ rw e (inr (e, end_loop-IsTakenOff sl m.server_engine_list))
]

-- After an answer from an IPv4 address, if `CompleteQuery` does not panic, the list engine that began the
-- query is kept where one of its queries is still pending, and where none is it is taken off the list,
-- once, and the other engines stay as they stand, whether or not it has read its server list to the end.
-- An answer that no query waits for changes nothing.
pub complete_query-server_engine_list :
    (m : Monitor) (engine ip port : ℕ) {m' : Monitor}
    → complete_query m engine (at4 ip port) ≡ ok m'
    → ((pending m engine ip port ≡ false) × (m' ≡ m))
      ⊎ ((sl : ℕ) × (any (λ c. is_same_query engine ip port c && c.list_engine == sl) m.query_list
            ≡ true)
          × (((waits_for sl m'.query_list ≡ true) × (m'.server_engine_list ≡ m.server_engine_list))
              ⊎ ((waits_for sl m'.query_list ≡ false)
                  × IsTakenOff sl m.server_engine_list m'.server_engine_list)))
unfolding complete_query as4
complete_query-server_engine_list m engine ip port {m'} h =
    elim (Option-cases (complete_loop engine ip port m.query_list).0) [
      | inl e ↦
          let (absent, same) = complete_loop-absent engine ip port m.query_list e in
          inl (unfold pending in absent, unfold end_idle in ground arith)
      | inr (sl, e) ↦ inr (
        sl,
        complete_loop-found engine ip port m.query_list sl e,
        rw (← ok-injective h) (rw e (server_engine_list-end_idle sl _)),
      )
    ]

-- If one engine runs, no query is pending, and the engine has begun a query that is answered before it
-- finds the next server, then the answer takes the engine off the list, and no engine and no query is
-- left, though the engine has not read its list to the end.
pub complete_query-ends_early :
    (sl engine ip port now : ℕ) (m m' : Monitor)
    → m.server_engine_list ≡ sl ∷ []
    → m.query_list ≡ []
    → begin_query m sl engine (at4 ip port) now ≡ ok (m', true)
    → complete_query m' engine (at4 ip port)
      ≡ ok (record { server_engine_list = []; query_list = [] })
unfolding begin_query complete_query as4 complete_loop is_same_query addr_eq end_idle end_loop
complete_query-ends_early sl engine ip port now m m' e q h = ground arith
