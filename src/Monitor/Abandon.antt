-- ===== src/Monitor/Abandon.antt =====
-- `Think`: it never panics on a valid monitor, which queries it repeats and which it gives up.
use os_serverlist_sync.Base.{
  ℕ, ◌+◌, ◌-◌, Bool, false, List, [], ◌∷◌, ◌≡◌, refl, ap, ◌∙◌, arith, ltb, if◌then◌else◌, All,
  remove_first, ok,
}
use os_serverlist_sync.Base.Net.{as4}
use os_serverlist_sync.Monitor.{
  QueryItem, Monitor, max_attempts, max_wait, complete_loop, end_idle, complete_query, Send, sweep,
  complete_all, think,
}
use os_serverlist_sync.Monitor.Matching.{
  clash, HasIp, Distinct, AttemptsFit, IsValid, clash_refl, clash_comm, is_same_query-clash,
  complete_loop-remove_first,
}
use os_serverlist_sync.Monitor.Queries.{query_list-end_idle, IsValid-of_list}

-- `Think` has given up on the query.
abbrev pub is_spent : QueryItem → Bool
is_spent c = ltb max_attempts c.num_attempts

abbrev pub is_late : (ℕ → ℕ) → QueryItem → Bool
is_late clock c = ltb max_wait (clock 0 - c.last_performed)

-- The pending queries after `Think`: a spent one is gone, a late one is counted and stamped with
-- the next reading of the clock, any other is as it was.
unfoldable pub kept : (ℕ → ℕ) → ℕ → List QueryItem → List QueryItem
kept clock k [] = []
kept clock k (c ∷ cs) =
    let later = kept clock (k + 1) cs in
    let rest = kept clock k cs in
    if is_spent c
    then rest
    else if is_late clock c
    then record c { last_performed = clock k; num_attempts = c.num_attempts + 1 } ∷ later
    else c ∷ rest

-- The calls of `Query` that `Think` makes: one for each late query that is not spent, in order.
unfoldable pub repeats : (ℕ → ℕ) → List QueryItem → List Send
repeats clock [] = []
repeats clock (c ∷ cs) =
    let rest = repeats clock cs in
    if is_spent c
    then rest
    else if is_late clock c
    then record { engine = c.engine; address = c.address } ∷ rest
    else rest

-- The second loop on the list of queries alone.
drain : List QueryItem → List QueryItem → List QueryItem
drain [] l = l
drain (c ∷ cs) l = drain cs (remove_first (clash c) l)

remove_first_ext {ℓ} :
    {A : Type ℓ} (p q : A → Bool) (l : List A)
    → ((x : A) → p x ≡ q x)
    → remove_first p l ≡ remove_first q l
remove_first_ext p q [] h = refl
remove_first_ext p q (x ∷ xs) h = ground (arith, h x, remove_first_ext p q xs h)

complete_query-clash :
    (c : QueryItem) (m : Monitor)
    → HasIp c
    → (m' : Monitor) × (complete_query m c.engine c.address ≡ ok m')
      × (m'.query_list ≡ remove_first (clash c) m.query_list)
unfolding complete_query as4
complete_query-clash c m (ip, e) =
    let l = complete_loop c.engine ip c.address.port m.query_list in
    let known : as4 c.address.addr ≡ ok ip = rw e in
    (
      end_idle l.0 (record m { query_list = l.1 }),
      rw known,
      query_list-end_idle l.0 _
          ∙ complete_loop-remove_first c.engine ip c.address.port m.query_list
          ∙ remove_first_ext _ _ m.query_list (λ d. is_same_query-clash c d ip e),
    )

complete_all-drain :
    (cs : List QueryItem) (m : Monitor)
    → All HasIp cs
    → (m' : Monitor) × (complete_all cs m ≡ ok m') × (m'.query_list ≡ drain cs m.query_list)
unfolding complete_all drain
complete_all-drain [] m h = (m, refl, refl)
complete_all-drain (c ∷ cs) m h =
    let (m1, e1, q1) = complete_query-clash c m h.0 in
    let (m2, e2, q2) = complete_all-drain cs m1 h.1 in (m2, rw e1 e2, q2 ∙ ap (drain cs) q1)

module _ (clock : ℕ → ℕ) where
  to_complete-HasIp :
      (k : ℕ) (l : List QueryItem) → All HasIp l → All HasIp (sweep clock k l).to_complete
  unfolding sweep
  to_complete-HasIp k [] h = tt
  to_complete-HasIp k (c ∷ cs) h =
      ground (arith, to_complete-HasIp k cs, to_complete-HasIp (k + 1) cs)

  to_complete-clash :
      (k : ℕ) (d : QueryItem) (l : List QueryItem)
      → All (λ c. clash d c ≡ false) l
      → All (λ c. clash c d ≡ false) (sweep clock k l).to_complete
  unfolding sweep
  to_complete-clash k d [] h = tt
  to_complete-clash k d (c ∷ cs) h =
      ground (arith, clash_comm c d, to_complete-clash k d cs, to_complete-clash (k + 1) d cs)

drain-cons :
    (cs : List QueryItem) (d : QueryItem) (l : List QueryItem)
    → All (λ c. clash c d ≡ false) cs
    → drain cs (d ∷ l) ≡ d ∷ drain cs l
unfolding drain
drain-cons [] d l h = refl
drain-cons (c ∷ cs) d l h = rw h.0 (drain-cons cs d (remove_first (clash c) l) h.1)

drain_self :
    (cs : List QueryItem) (c : QueryItem) (l : List QueryItem) → drain (c ∷ cs) (c ∷ l) ≡ drain cs l
unfolding drain
drain_self cs c l = rw (clash_refl c)

clash-stamp :
    (d c : QueryItem) (time count : ℕ)
    → clash d (record c { last_performed = time; num_attempts = count }) ≡ clash d c
unfolding clash
clash-stamp d c time count = refl

All-clash-stamp :
    (c : QueryItem) (time count : ℕ) (cs : List QueryItem)
    → All (λ d. clash d c ≡ false) cs
    → All (λ d. clash d (record c { last_performed = time; num_attempts = count }) ≡ false) cs
All-clash-stamp c time count [] h = tt
All-clash-stamp c time count (d ∷ ds) h =
    (clash-stamp d c time count ∙ h.0, All-clash-stamp c time count ds h.1)

All-stamp-clash :
    (c : QueryItem) (time count : ℕ) (cs : List QueryItem)
    → All (λ d. clash c d ≡ false) cs
    → All (λ d. clash (record c { last_performed = time; num_attempts = count }) d ≡ false) cs
unfolding clash
All-stamp-clash c time count [] h = tt
All-stamp-clash c time count (d ∷ ds) h = (h.0, All-stamp-clash c time count ds h.1)

drain-kept :
    (clock : ℕ → ℕ) (k : ℕ) (l : List QueryItem)
    → Distinct l
    → drain (sweep clock k l).to_complete (sweep clock k l).items ≡ kept clock k l
unfolding sweep kept
drain-kept clock k [] h = unfold drain in refl
drain-kept clock k (c ∷ cs) h =
    let rest = sweep clock k cs in
    let late = sweep clock (k + 1) cs in
    let c' : QueryItem = record c { last_performed = clock k; num_attempts = c.num_attempts + 1 } in
    ground (
      arith,
      drain_self rest.to_complete c rest.items,
      drain-cons rest.to_complete c rest.items (to_complete-clash clock k c cs h.0),
      drain-cons late.to_complete c' late.items (
          All-clash-stamp c (clock k) (c.num_attempts + 1) late.to_complete
            (to_complete-clash clock (k + 1) c cs h.0)),
      drain-kept clock k cs h.1,
      drain-kept clock (k + 1) cs h.1,
    )

sends-repeats :
    (clock : ℕ → ℕ) (k : ℕ) (l : List QueryItem) → (sweep clock k l).sends ≡ repeats clock l
unfolding sweep repeats
sends-repeats clock k [] = refl
sends-repeats clock k (c ∷ cs) =
    ground (arith, sends-repeats clock k cs, sends-repeats clock (k + 1) cs)

module _ (clock : ℕ → ℕ) where
  kept-HasIp : (k : ℕ) (l : List QueryItem) → All HasIp l → All HasIp (kept clock k l)
  unfolding kept
  kept-HasIp k [] h = tt
  kept-HasIp k (c ∷ cs) h = ground (arith, kept-HasIp k cs, kept-HasIp (k + 1) cs)

  kept-AttemptsFit :
      (k : ℕ) (l : List QueryItem) → All AttemptsFit l → All AttemptsFit (kept clock k l)
  unfolding kept
  kept-AttemptsFit k [] h = tt
  kept-AttemptsFit k (c ∷ cs) h = ground (arith, kept-AttemptsFit k cs, kept-AttemptsFit (k + 1) cs)

  kept-clash :
      (k : ℕ) (d : QueryItem) (l : List QueryItem)
      → All (λ c. clash d c ≡ false) l
      → All (λ c. clash d c ≡ false) (kept clock k l)
  unfolding kept
  kept-clash k d [] h = tt
  kept-clash k d (c ∷ cs) h = ground (
    arith,
    clash-stamp d c (clock k) (c.num_attempts + 1),
    kept-clash k d cs,
    kept-clash (k + 1) d cs,
  )

  kept-Distinct : (k : ℕ) (l : List QueryItem) → Distinct l → Distinct (kept clock k l)
  unfolding kept
  kept-Distinct k [] h = tt
  kept-Distinct k (c ∷ cs) h =
      let c' : QueryItem = record c {
        last_performed = clock k;
        num_attempts = c.num_attempts + 1;
      } in
      ground (
        arith,
        kept-clash k c cs,
        kept-clash (k + 1) c' cs (All-stamp-clash c (clock k) (c.num_attempts + 1) cs h.0),
        kept-Distinct k cs,
        kept-Distinct (k + 1) cs,
      )

-- On a valid monitor `Think` does not panic. It repeats the late queries that are not spent, gives
-- up the spent ones, and leaves a valid monitor.
pub think_lem :
    (clock : ℕ → ℕ) (m : Monitor)
    → IsValid m
    → (m' : Monitor) × (think clock m ≡ ok (m', repeats clock m.query_list))
      × (m'.query_list ≡ kept clock 1 m.query_list)
      × IsValid m'
unfolding think
think_lem clock m v =
    let s = sweep clock 1 m.query_list in
    let (m', done, left) =
      complete_all-drain s.to_complete (record m { query_list = s.items })
        (to_complete-HasIp clock 1 m.query_list v.has_ip) in
    let left' = left ∙ drain-kept clock 1 m.query_list v.distinct in
    (
      m',
      rw (done, sends-repeats),
      left',
      IsValid-of_list m' (kept clock 1 m.query_list) left' (
        kept-HasIp clock 1 m.query_list v.has_ip,
        kept-Distinct clock 1 m.query_list v.distinct,
        kept-AttemptsFit clock 1 m.query_list v.attempts,
      ),
    )
