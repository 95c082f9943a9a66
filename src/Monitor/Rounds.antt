-- ===== src/Monitor/Rounds.antt =====
-- The ticker of src/main.go calls `Think` again and again: how often a query is sent, and when the
-- monitor has given up all of them.
use os_serverlist_sync.Base.{
  ℕ, zero, suc, ◌+◌, ◌-◌, ◌*◌, ◌≤◌, ◌<◌, List, [], ◌∷◌, ◌++◌, ◌⊎◌, ◌≡◌, refl, ap, ◌∙◌, arith, All,
  length, length-append, Result, ok, panic, ◌>>=◌,
}
use os_serverlist_sync.Monitor.{QueryItem, Monitor, max_wait, Send, think}
use os_serverlist_sync.Monitor.Matching.{AttemptsFit, IsValid}
use os_serverlist_sync.Monitor.Abandon.{kept, repeats, think_lem}

-- `Think` called again and again, as the ticker does, one clock for each call, with all calls of `Query`.
unfoldable pub think_all : List (ℕ → ℕ) → Monitor → Result (Monitor × List Send)
think_all [] m = ok (m, [])
think_all (clock ∷ clocks) m = do
  (m', sends) ← think clock m
  (m'', more) ← think_all clocks m'
  ok (m'', sends ++ more)

-- The ticks hold `n` that stand far enough apart. No reading before is later than `b`; the first
-- of the `n` comes more than 30 seconds behind `t`, and each of the others more than 30 seconds
-- behind the last reading of the one before. There may be any other ticks between them.
pub data Ripe : ℕ → ℕ → ℕ → List (ℕ → ℕ) → Type 0 where
  over : {b t : ℕ} (clocks : List (ℕ → ℕ)) → Ripe b t zero clocks
  soon :
      {b t n : ℕ} {clocks : List (ℕ → ℕ)} (clock : ℕ → ℕ) (b' : ℕ)
      → b ≤ b'
      → ((k : ℕ) → clock k ≤ b')
      → Ripe b' t n clocks
      → Ripe b t n (clock ∷ clocks)
  apart :
      {b t n : ℕ} {clocks : List (ℕ → ℕ)} (clock : ℕ → ℕ) (b' : ℕ)
      → b ≤ b'
      → ((k : ℕ) → clock k ≤ b')
      → t + max_wait < clock 0
      → Ripe b' b' n clocks
      → Ripe b t (suc n) (clock ∷ clocks)

-- The query has been sent `j` times at least, and if not more often, then not after `t`.
abbrev pub Counted : ℕ → ℕ → ℕ → QueryItem → Type 0
Counted b t j c =
    (c.last_performed ≤ b)
    × ((j + 1 ≤ c.num_attempts) ⊎ ((j ≤ c.num_attempts) × (c.last_performed ≤ t)))

module _ (b t j b' : ℕ) (clock : ℕ → ℕ) (later : b ≤ b') (bound : (k : ℕ) → clock k ≤ b') where
  pub kept-soon :
      (k : ℕ) (l : List QueryItem) → All (Counted b t j) l → All (Counted b' t j) (kept clock k l)
  unfolding kept
  kept-soon k [] h = tt
  kept-soon k (c ∷ cs) h = ground (arith, bound k, kept-soon k cs h.1, kept-soon (k + 1) cs h.1)

  pub kept-apart :
      (k : ℕ) (l : List QueryItem)
      → t + max_wait < clock 0
      → All (Counted b t j) l
      → All (Counted b' b' (j + 1)) (kept clock k l)
  unfolding kept
  kept-apart k [] late h = tt
  kept-apart k (c ∷ cs) late h =
      ground (arith, bound k, kept-apart k cs late h.1, kept-apart (k + 1) cs late h.1)

pub none_over :
    (b t j : ℕ) (l : List QueryItem) → 7 ≤ j → All AttemptsFit l → All (Counted b t j) l → l ≡ []
none_over b t j [] s f h = refl
none_over b t j (c ∷ cs) s f h = absurd (ground arith)

abbrev Empties : List (ℕ → ℕ) → Monitor → Type 0
Empties clocks m =
    (m' : Monitor) × (sends : List Send) × (think_all clocks m ≡ ok (m', sends))
    × (m'.query_list ≡ [])

Empties-cons :
    (clock : ℕ → ℕ) (clocks : List (ℕ → ℕ)) (m m1 : Monitor) (sends : List Send)
    → think clock m ≡ ok (m1, sends)
    → Empties clocks m1
    → Empties (clock ∷ clocks) m
unfolding think_all
Empties-cons clock clocks m m1 sends e (m2, more, e2, none_left) =
    (m2, sends ++ more, rw (e, e2), none_left)

Empties-nil :
    (clocks : List (ℕ → ℕ)) (m : Monitor) → IsValid m → m.query_list ≡ [] → Empties clocks m
unfolding think_all
Empties-nil [] m v e = (m, [], refl, e)
Empties-nil (clock ∷ clocks) m v e =
    let (m1, e1, left, v1) = think_lem clock m v in
    Empties-cons clock clocks m m1 _ e1
      (Empties-nil clocks m1 v1 (left ∙ ap (kept clock 1) e ∙ unfold kept in refl))

Ripe-Empties :
    {b t n : ℕ} {clocks : List (ℕ → ℕ)} (j : ℕ) (m : Monitor)
    → Ripe b t n clocks
    → 7 ≤ j + n
    → IsValid m
    → All (Counted b t j) m.query_list
    → Empties clocks m
Ripe-Empties {b} {t} j m (over clocks) s v h =
    Empties-nil clocks m v (none_over b t j m.query_list (omega arith) v.attempts h)
Ripe-Empties {b} {t} j m (soon {clocks = cs} clock b' later bound r) s v h =
    let (m1, e1, left, v1) = think_lem clock m v in
    Empties-cons clock cs m m1 _ e1
      (Ripe-Empties j m1 r s v1 (rw left (kept-soon b t j b' clock later bound 1 m.query_list h)))
Ripe-Empties {b} {t} j m (apart {clocks = cs} clock b' later bound late r) s v h =
    let (m1, e1, left, v1) = think_lem clock m v in
    Empties-cons clock cs m m1 _ e1 (
      Ripe-Empties (j + 1) m1 r (omega arith) v1
        (rw left (kept-apart b t j b' clock later bound 1 m.query_list late h)))

pub Counted-start :
    (b : ℕ) (l : List QueryItem)
    → All AttemptsFit l
    → All (λ c. c.last_performed ≤ b) l
    → All (Counted b b 1) l
Counted-start b [] f h = tt
Counted-start b (c ∷ cs) f h = (ground arith, Counted-start b cs f.1 h.1)

-- Servers that never answer do not keep the process alive: on a valid monitor whose queries were
-- last sent by time `b`, ticks that hold six, of which the first comes more than 30 seconds behind
-- `b` and each other more than 30 seconds behind the one before, leave no query pending, whatever
-- other ticks come between, and no tick panics.
pub think_all-gives_up :
    (b : ℕ) (clocks : List (ℕ → ℕ)) (m : Monitor)
    → IsValid m
    → All (λ c. c.last_performed ≤ b) m.query_list
    → Ripe b b 6 clocks
    → (m' : Monitor) × (sends : List Send) × (think_all clocks m ≡ ok (m', sends))
      × (m'.query_list ≡ [])
think_all-gives_up b clocks m v h r =
    Ripe-Empties 1 m r (omega arith) v (Counted-start b m.query_list v.attempts h)

-- How often the queries may still be sent.
abbrev budget : List QueryItem → ℕ
budget [] = 0
budget (c ∷ cs) = (6 - c.num_attempts) + budget cs

repeats-budget :
    (clock : ℕ → ℕ) (k : ℕ) (l : List QueryItem)
    → length (repeats clock l) + budget (kept clock k l) ≤ budget l
unfolding repeats kept
repeats-budget clock k [] = omega arith
repeats-budget clock k (c ∷ cs) =
    ground (arith, repeats-budget clock k cs, repeats-budget clock (k + 1) cs)

abbrev behind : List Send → Monitor × List Send → Result (Monitor × List Send)
behind first (m, more) = ok (m, first ++ more)

bind-inv :
    (r : Result (Monitor × List Send)) (first : List Send) {m' : Monitor} {sends : List Send}
    → (r >>= behind first) ≡ ok (m', sends)
    → (more : List Send) × (r ≡ ok (m', more)) × (sends ≡ first ++ more)
bind-inv (ok (m2, more)) first h = (more, cc, cc)
bind-inv (panic f) first h = cc

think_all-inv :
    (clock : ℕ → ℕ) (clocks : List (ℕ → ℕ)) (m m1 : Monitor) (first : List Send) {m' : Monitor}
    {sends : List Send}
    → think clock m ≡ ok (m1, first)
    → think_all (clock ∷ clocks) m ≡ ok (m', sends)
    → (more : List Send) × (think_all clocks m1 ≡ ok (m', more)) × (sends ≡ first ++ more)
unfolding think_all
think_all-inv clock clocks m m1 first e h = bind-inv (think_all clocks m1) first (rw e at h)

think_all-budget :
    (clocks : List (ℕ → ℕ)) (m : Monitor) {m' : Monitor} {sends : List Send}
    → IsValid m
    → think_all clocks m ≡ ok (m', sends)
    → length sends + budget m'.query_list ≤ budget m.query_list
unfolding think_all
think_all-budget [] m v h = ground arith
think_all-budget (clock ∷ clocks) m {m'} v h =
    let (m1, e1, left, v1) = think_lem clock m v in
    let (more, e2, e3) = think_all-inv clock clocks m m1 _ e1 h in
    let enough : length more + budget m'.query_list ≤ budget m1.query_list =
      think_all-budget clocks m1 v1 e2 in
    rw e3 (
      omega (
        arith,
        enough,
        length-append (repeats clock m.query_list) more,
        repeats-budget clock 1 m.query_list,
        ap budget left,
      ))

budget-le : (l : List QueryItem) → All AttemptsFit l → budget l ≤ 5 * length l
budget-le [] h = omega arith
budget-le (c ∷ cs) h = ground (arith, budget-le cs h.1)

-- However often `Think` runs on a valid monitor, if it does not panic, it sends no more than five queries for each that was pending.
pub think_all-bounded :
    (clocks : List (ℕ → ℕ)) (m : Monitor) {m' : Monitor} {sends : List Send}
    → IsValid m
    → think_all clocks m ≡ ok (m', sends)
    → length sends ≤ 5 * length m.query_list
think_all-bounded clocks m v h =
    omega (arith, think_all-budget clocks m v h, budget-le m.query_list v.attempts)
