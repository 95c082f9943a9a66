-- ===== src/Tests/Monitor.antt =====
-- The monitor with one pending query: examples of its theorems.
use os_serverlist_sync.Base.{
  ℕ, ◌≤◌, ◌*◌, true, false, ◌||◌, ◌&&◌, List, [], ◌∷◌, ◌≡◌, ◌↔◌, ◌⊎◌, refl, arith, any, length,
  ◌==◌, ok, panic, not_ipv4,
}
use os_serverlist_sync.Base.Net.{v6, AddrPort, addr_eq, as4}
use os_serverlist_sync.Monitor.{
  Monitor, Send, init, begin_query, complete_query, begin_server_list_engine, end_loop,
  engine_has_pending_queries, all_engines_complete, is_same_query, complete_loop, end_idle, think,
  sweep, complete_all,
}
use os_serverlist_sync.Monitor.Matching.{IsValid}
use os_serverlist_sync.Monitor.Queries.{pending, at4, new_item}
use os_serverlist_sync.Monitor.Engines.{
  IsTakenOff, waits_for, complete_query-server_engine_list, complete_query-ends_early,
}
use os_serverlist_sync.Monitor.Abandon.{repeats, kept, think_lem}
use os_serverlist_sync.Monitor.Rounds.{
  think_all, Ripe, over, apart, think_all-gives_up, think_all-bounded,
}
use os_serverlist_sync.Monitor.Trace.{
  Step, Reach, IsIpv4, begin_engine, ask, here, next, Reach-IsValid,
}
use os_serverlist_sync.Monitor.Mapped.{
  IsForeign, stands, begin_query-mapped_stays, begin_complete_panic_iff,
}
use os_serverlist_sync.Monitor.Refines.{answers}
use os_serverlist_sync.Process.{Event, tick, call, watch}
use os_serverlist_sync.Process.Ends.{watch-ends}
use os_serverlist_sync.ListEngine.{enqueue_all}
use os_serverlist_sync.ListEngine.Keys.{Server, found, names, news, enqueue_all-pending}

abbrev localhost : ℕ
localhost = 0x7f000001

-- Engine 7 runs, and has found no server yet.
abbrev started : Monitor
started = record { server_engine_list = 7 ∷ []; query_list = [] }

-- Engine 7 waits for the answer to a query that query engine 1 sent at time 0.
abbrev waiting : Monitor
waiting = record { server_engine_list = 7 ∷ []; query_list = new_item 7 1 localhost 7778 0 ∷ [] }

waiting-IsValid : IsValid waiting
waiting-IsValid = record {
  has_ip = ((localhost, refl), tt);
  distinct = (tt, tt);
  attempts = ((omega arith, omega arith), tt);
}

started-Step : Step IsIpv4 init started
unfolding begin_server_list_engine
started-Step = begin_engine init 7

-- The monitor behind `Init`, `BeginServerListEngine` and `BeginQuery`.
waiting-Reach : Reach IsIpv4 init waiting
waiting-Reach = next (next here started-Step) (
    ask {m = started} {m' = waiting} 7 1 (at4 localhost 7778) 0 true (localhost, refl)
      (unfold begin_query as4 begin_server_list_engine in refl))

Reach-IsValid_example : IsValid waiting
Reach-IsValid_example = Reach-IsValid waiting-Reach

-- A `Think` all of whose readings of the clock are 31 seconds after `n` rounds of 31 seconds.
abbrev clock_at : ℕ → ℕ → ℕ
clock_at n _ = n * 31_000_000_000

think_lem_example :
    (m' : Monitor) × (think (clock_at 1) waiting ≡ ok (m', repeats (clock_at 1) waiting.query_list))
    × (m'.query_list ≡ kept (clock_at 1) 1 waiting.query_list)
    × IsValid m'
think_lem_example = think_lem (clock_at 1) waiting waiting-IsValid

abbrev six_rounds : List (ℕ → ℕ)
six_rounds = clock_at 1 ∷ clock_at 2 ∷ clock_at 3 ∷ clock_at 4 ∷ clock_at 5 ∷ clock_at 6 ∷ []

six_rounds-Ripe : Ripe 0 0 6 six_rounds
six_rounds-Ripe =
    apart (clock_at 1) 31000000000 (omega arith) (λ k. omega arith) (omega arith)
      (apart (clock_at 2) 62000000000 (omega arith) (λ k. omega arith) (omega arith)
        (apart (clock_at 3) 93000000000 (omega arith) (λ k. omega arith) (omega arith)
          (apart (clock_at 4) 124000000000 (omega arith) (λ k. omega arith) (omega arith)
            (apart (clock_at 5) 155000000000 (omega arith) (λ k. omega arith) (omega arith)
              (apart (clock_at 6) 186000000000 (omega arith) (λ k. omega arith) (omega arith)
                (over []))))))

think_all-gives_up_example :
    (m' : Monitor) × (sends : List Send) × (think_all six_rounds waiting ≡ ok (m', sends))
    × (m'.query_list ≡ [])
think_all-gives_up_example =
    think_all-gives_up 0 six_rounds waiting waiting-IsValid (omega arith, tt) six_rounds-Ripe

-- The same query, where engine 7 has read its list to the end.
abbrev read_out : Monitor
read_out = record waiting { server_engine_list = [] }

read_out-IsValid : IsValid read_out
read_out-IsValid = record {
  has_ip = waiting-IsValid.has_ip;
  distinct = waiting-IsValid.distinct;
  attempts = waiting-IsValid.attempts;
}

-- The six rounds, with an answer of another server between the first two.
abbrev six_events : List Event
six_events =
    tick (clock_at 1)
    ∷ call (answers 1 localhost 7779)
    ∷ tick (clock_at 2)
    ∷ tick (clock_at 3)
    ∷ tick (clock_at 4)
    ∷ tick (clock_at 5)
    ∷ tick (clock_at 6)
    ∷ []

watch-ends_example :
    (m' : Monitor) × (watch six_events read_out ≡ ok (m', true)) × (all_engines_complete m' ≡ true)
watch-ends_example =
    watch-ends 0 six_events read_out read_out-IsValid refl (omega arith, tt) tt six_rounds-Ripe

-- The pending query behind one round: repeated once.
abbrev repeated : Monitor
repeated = record {
  server_engine_list = 7 ∷ [];
  query_list =
      record {
        address = at4 localhost 7778;
        engine = 1;
        list_engine = 7;
        last_performed = 31_000_000_000;
        num_attempts = 2;
      }
      ∷ [];
}

abbrev repeat_calls : List Send
repeat_calls = record { engine = 1; address = at4 localhost 7778 } ∷ []

one_round : think_all (clock_at 1 ∷ []) waiting ≡ ok (repeated, repeat_calls)
unfolding think_all think sweep complete_all
one_round = refl

think_all-bounded_example : length repeat_calls ≤ 5 * length waiting.query_list
think_all-bounded_example = think_all-bounded (clock_at 1 ∷ []) waiting waiting-IsValid one_round

complete_query-server_engine_list_example :
    ((pending waiting 1 localhost 7778 ≡ false)
      × (record { server_engine_list = []; query_list = [] } ≡ waiting))
    ⊎ ((sl : ℕ) × (any
            (λ c. is_same_query 1 localhost 7778 c && c.list_engine == sl)
            waiting.query_list
          ≡ true)
        × (((waits_for sl [] ≡ true) × ([] ≡ waiting.server_engine_list))
            ⊎ ((waits_for sl [] ≡ false) × IsTakenOff sl waiting.server_engine_list [])))
complete_query-server_engine_list_example =
    complete_query-server_engine_list waiting 1 localhost 7778 (
      unfold complete_query as4 complete_loop is_same_query addr_eq end_idle
        engine_has_pending_queries end_loop in
      refl)

complete_query-ends_early_example :
    complete_query waiting 1 (at4 localhost 7778)
    ≡ ok (record { server_engine_list = []; query_list = [] })
complete_query-ends_early_example =
    complete_query-ends_early 7 1 localhost 7778 0 started waiting refl refl
      (unfold begin_query as4 in refl)

-- ::ffff:127.0.0.1
abbrev mapped : ℕ
mapped = 0xffff7f000001

abbrev mapped_waiting : Monitor
mapped_waiting = record {
  server_engine_list = 7 ∷ [];
  query_list =
      record {
        address = record { addr = v6 mapped 0; port = 7778 };
        engine = 1;
        list_engine = 7;
        last_performed = 0;
        num_attempts = 1;
      }
      ∷ [];
}

begin_query-mapped_stays_example :
    (stands 1 mapped 0 7778 mapped_waiting.query_list ≡ true)
    × (all_engines_complete mapped_waiting ≡ false)
begin_query-mapped_stays_example =
    begin_query-mapped_stays started 7 1 mapped 0 7778 0 {m' = mapped_waiting}
      (unfold begin_query as4 in refl) here

abbrev foreign : AddrPort
foreign = record { addr = v6 1 0; port = 7778 }

begin_complete_panic_iff_example :
    ((begin_query waiting 7 1 foreign 0 ≡ panic not_ipv4) ↔ IsForeign foreign.addr)
    × ((complete_query waiting 1 foreign ≡ panic not_ipv4) ↔ IsForeign foreign.addr)
begin_complete_panic_iff_example = begin_complete_panic_iff waiting 7 1 foreign 0

-- A list that names one server twice.
abbrev two_servers : List Server
two_servers =
    record { ip = localhost; port = 7780; now = 1 }
    ∷ record { ip = localhost; port = 7780; now = 2 }
    ∷ []

enqueue_all-pending_example :
    (m' : Monitor) × (sends : List Send) × (enqueue_all 7 1 (found two_servers) waiting
      ≡ ok (m', sends))
    × IsValid m'
    × ((engine' ip port : ℕ)
        → pending m' engine' ip port
          ≡ (pending waiting engine' ip port || names 1 engine' ip port two_servers))
    × (sends ≡ news 1 two_servers (pending waiting 1))
enqueue_all-pending_example = enqueue_all-pending 7 1 two_servers waiting waiting-IsValid
