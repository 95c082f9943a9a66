-- ===== src/Process/Start.antt =====
-- `invokeMsEngines` of src/main.go: the list engines of all configurations, with their goroutines in any
-- order, and no answer yet.
use os_serverlist_sync.Base.{
  ℕ, Bool, true, false, not, ◌||◌, List, [], ◌∷◌, ◌++◌, ◌≡◌, ◌≢◌, refl, sym, ap, ◌∙◌, arith, All,
  any, ok, Bool-cases, inl, inr, if◌then◌else◌,
}
use os_serverlist_sync.Base.Net.{Addr, v4}
use os_serverlist_sync.ListEngine.Once.{sent, Apart, All-weaken, known-same, sent-first}
use os_serverlist_sync.Monitor.{Monitor, Send, begin_server_list_engine, end_server_list_engine}
use os_serverlist_sync.Monitor.Matching.{IsValid}
use os_serverlist_sync.Monitor.Queries.{
  at4, pending, same_key, pending-begin_query, begin_query-IsValid,
}
use os_serverlist_sync.Monitor.Refines.{Call, begins, ends, asks, answers, run_calls}
use os_serverlist_sync.Monitor.Trace.{Step-IsValid, begin_engine, end_engine}
use os_serverlist_sync.Process.{EngineCalls, Runs, all_ended, invokes, returns, goes_on, ends_now}

abbrev pub is_answer : Call → Bool
is_answer (answers engine ip port) = true
is_answer _ = false

-- A call of `BeginQuery` with the key.
abbrev pub is_ask : ℕ → ℕ → ℕ → Call → Bool
is_ask engine' ip' port' (asks sl engine ip port now) = same_key engine ip port engine' ip' port'
is_ask _ _ _ _ = false

-- Whether any of the engines, or of the goroutines, makes such a call.
abbrev pub by_engines : (Call → Bool) → List EngineCalls → Bool
by_engines p = any (λ e. any p e.now || any p e.later)

abbrev by_goroutines : (Call → Bool) → List (List Call) → Bool
by_goroutines p = any (any p)

-- The calls of `Query`: one for each `BeginQuery` that returned true.
abbrev pub queries : List Call → List Bool → List Send
queries [] fresh = []
queries (asks sl engine ip port now ∷ cs) [] = []
queries (asks sl engine ip port now ∷ cs) (true ∷ fresh) =
    record { engine = engine; address = at4 ip port } ∷ queries cs fresh
queries (asks sl engine ip port now ∷ cs) (false ∷ fresh) = queries cs fresh
queries (begins sl ∷ cs) fresh = queries cs fresh
queries (ends sl ∷ cs) fresh = queries cs fresh
queries (answers engine ip port ∷ cs) fresh = queries cs fresh

-- The call is for a key that the monitor waits for, or does not.
abbrev pub Waits : Bool → Monitor → Send → Type 0
Waits b m c = (ip port : ℕ) × (c.address ≡ at4 ip port) × (pending m c.engine ip port ≡ b)

-- Behind calls of which `asked` tells for which keys `BeginQuery` is among them.
pub record Started (asked : ℕ → ℕ → ℕ → Bool) (m m' : Monitor) (sends : List Send) : Type 0 where
  pub valid : IsValid m'
  pub waits :
      (engine ip port : ℕ)
      → pending m' engine ip port ≡ (pending m engine ip port || asked engine ip port)
  pub calls :
      (engine ip port : ℕ)
      → pending m' engine ip port ≡ (pending m engine ip port || sent engine ip port sends)
  pub fresh : All (Waits false m) sends
  pub apart : Apart sends

abbrev ip_of : Addr → ℕ
ip_of (v4 ip) = ip
ip_of _ = 0

Waits-differ : (m : Monitor) (c d : Send) → Waits true m c → Waits false m d → d ≢ c
Waits-differ m c d (ip, port, e, h) (ip', port', e', h') = λ same.
    let one : at4 ip' port' ≡ at4 ip port = sym e' ∙ (ap (λ x. x.address) same ∙ e) in
    let same_pending : pending m d.engine ip' port' ≡ pending m c.engine ip port =
      λ i. pending m (same i).engine (ip_of (one i).addr) (one i).port in
    ground (arith, same_pending, h, h')

earlier :
    (m m1 : Monitor) (engine ip port : ℕ)
    → ((e i p : ℕ)
        → pending m1 e i p ≡ (if same_key engine ip port e i p then true else pending m e i p))
    → (c : Send) → Waits false m1 c
    → Waits false m c
earlier m m1 engine ip port put c (i, p, e, h) = (i, p, e, ground (arith, put c.engine i p, h))

Started-same :
    {asked : ℕ → ℕ → ℕ → Bool} {m m1 m' : Monitor} {sends : List Send}
    → pending m1 ≡ pending m
    → Started asked m1 m' sends
    → Started asked m m' sends
Started-same {asked = asked} {sends = sends} same s = record {
  valid = s.valid;
  waits = λ e i p. s.waits e i p ∙ ap (λ k. k e i p || asked e i p) same;
  calls = λ e i p. s.calls e i p ∙ ap (λ k. k e i p || sent e i p sends) same;
  fresh =
      All-weaken (λ c (i, p, e, h). (i, p, e, sym (ap (λ k. k c.engine i p) same) ∙ h)) _ s.fresh;
  apart = s.apart;
}

-- Any calls but `CompleteQuery` and `Think`.
run_calls-Started :
    (cs : List Call) (m : Monitor)
    → any is_answer cs ≡ false
    → IsValid m
    → (m' : Monitor) × (fresh : List Bool) × (run_calls cs m ≡ ok (m', fresh))
      × Started (λ e i p. any (is_ask e i p) cs) m m' (queries cs fresh)
run_calls-Started [] m h v = (
  m,
  [],
  refl,
  record {
    valid = v;
    waits = λ e i p. ground arith;
    calls = λ e i p. ground arith;
    fresh = tt;
    apart = tt;
  },
)
run_calls-Started (begins sl ∷ cs) m h v =
    let same : pending (begin_server_list_engine m sl) ≡ pending m =
      unfold pending begin_server_list_engine in refl in
    let (m', fresh, e, s) =
      run_calls-Started cs (begin_server_list_engine m sl) h (Step-IsValid (begin_engine m sl) v) in
    (m', fresh, e, Started-same same s)
run_calls-Started (ends sl ∷ cs) m h v =
    let same : pending (end_server_list_engine m sl) ≡ pending m =
      unfold pending end_server_list_engine in refl in
    let (m', fresh, e, s) =
      run_calls-Started cs (end_server_list_engine m sl) h (Step-IsValid (end_engine m sl) v) in
    (m', fresh, e, Started-same same s)
run_calls-Started (answers engine ip port ∷ cs) m h v = absurd (ground (arith, h))
run_calls-Started (asks sl engine ip port now ∷ cs) m h v =
    let (m1, e1, p1) = pending-begin_query m sl engine ip port now in
    let v1 = begin_query-IsValid m sl engine ip port now v e1 in
    let (m', fresh, e, s) = run_calls-Started cs m1 h v1 in
    let older = All-weaken (earlier m m1 engine ip port p1) (queries cs fresh) s.fresh in
    (
      m',
      not (pending m engine ip port) ∷ fresh,
      rw (e1, e) refl,
      elim (Bool-cases (pending m engine ip port)) [
        | inl known ↦ rw known (record {
          valid = s.valid;
          waits = λ e i p. ground (arith, s.waits e i p, p1 e i p);
          calls = λ e i p.
              let once = known-same engine ip port e i p (pending m) in
              ground (arith, s.calls e i p, p1 e i p, once, known);
          fresh = older;
          apart = s.apart;
        })
        | inr new ↦
            let here : pending m1 engine ip port ≡ true = ground (arith, p1 engine ip port) in
            let call : Send = record { engine = engine; address = at4 ip port } in
            rw new (record {
              valid = s.valid;
              waits = λ e i p. ground (arith, s.waits e i p, p1 e i p);
              calls = λ e i p.
                  let first = sent-first engine ip port e i p in
                  ground (arith, s.calls e i p, p1 e i p, first);
              fresh = ((ip, port, refl, new), older);
              apart = (
                All-weaken (λ d. Waits-differ m1 call d (ip, port, refl, here)) (queries cs fresh)
                    s.fresh,
                s.apart,
              );
            })
      ],
    )

any-append : {A : Type 0} (p : A → Bool) (a b : List A) → any p (a ++ b) ≡ (any p a || any p b)
any-append p [] b = refl
any-append p (x ∷ a) b = let ih = any-append p a b in ground (arith, ih)

-- The calls are those of the engines and of the goroutines.
Runs-any :
    (p : Call → Bool) {engines : List EngineCalls} {goroutines : List (List Call)}
    {calls : List Call}
    → Runs engines goroutines calls
    → any p calls ≡ (by_engines p engines || by_goroutines p goroutines)
Runs-any p all_ended = refl
Runs-any p (invokes r) = let ih = Runs-any p r in ground (arith, ih)
Runs-any p (returns r) = let ih = Runs-any p r in ground (arith, ih)
Runs-any p (goes_on before after c cs r) =
    let ih = Runs-any p r in
    let there = any-append (any p) before (cs ∷ after) in
    let here = any-append (any p) before ((c ∷ cs) ∷ after) in ground (arith, ih, there, here)
Runs-any p (ends_now before after r) =
    let ih = Runs-any p r in
    let there = any-append (any p) before after in
    let here = any-append (any p) before ([] ∷ after) in ground (arith, ih, there, here)

-- The engines of all configurations, with a valid monitor and before the first answer or `Think`: in
-- whatever order the goroutines that `invokeMsEngines` starts go on, the calls of `BeginQuery` with IPv4
-- addresses do not panic and the monitor stays valid, a query is pending exactly if it was before or one
-- of the engines has found its server, those not pending before are the ones that `Query` is called
-- for, and no call of `Query` is made twice, whichever of the engines find the server.
pub invoke_ms_engines-starts :
    (engines : List EngineCalls) (calls : List Call) (m : Monitor)
    → Runs engines [] calls
    → by_engines is_answer engines ≡ false
    → IsValid m
    → (m' : Monitor) × (fresh : List Bool) × (run_calls calls m ≡ ok (m', fresh))
      × Started (λ e i p. by_engines (is_ask e i p) engines) m m' (queries calls fresh)
invoke_ms_engines-starts engines calls m r h v =
    let no_answer : any is_answer calls ≡ false =
      (let all = Runs-any is_answer r in ground (arith, all, h)) in
    let (m', fresh, e, s) = run_calls-Started calls m no_answer v in
    (
      m',
      fresh,
      e,
      record {
        valid = s.valid;
        waits = λ e i p. let all = Runs-any (is_ask e i p) r in ground (arith, s.waits e i p, all);
        calls = s.calls;
        fresh = s.fresh;
        apart = s.apart;
      },
    )
