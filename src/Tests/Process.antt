-- ===== src/Tests/Process.antt =====
-- Two list engines that find the same server, and their goroutines in turn.
use os_serverlist_sync.Base.{ℕ, Bool, List, [], ◌∷◌, ◌≡◌, refl, ok}
use os_serverlist_sync.Monitor.{Monitor, init}
use os_serverlist_sync.Monitor.Refines.{Call, begins, ends, asks, run_calls}
use os_serverlist_sync.Process.{EngineCalls, Runs, all_ended, invokes, returns, goes_on, ends_now}
use os_serverlist_sync.Process.Start.{
  is_ask, by_engines, queries, Started, invoke_ms_engines-starts,
}

abbrev asks_there : ℕ → Call
asks_there sl = asks sl 1 0x01020304 7778 0

abbrev engine_calls : ℕ → EngineCalls
engine_calls sl = record { now = begins sl ∷ []; later = asks_there sl ∷ ends sl ∷ [] }

-- The first goroutine has found its server before the second engine is invoked.
abbrev in_turn : List Call
in_turn = begins 7 ∷ asks_there 7 ∷ begins 8 ∷ asks_there 8 ∷ ends 7 ∷ ends 8 ∷ []

in_turn-Runs : Runs (engine_calls 7 ∷ engine_calls 8 ∷ []) [] in_turn
in_turn-Runs = invokes (
    returns (
      goes_on [] [] (asks_there 7) (ends 7 ∷ []) (
        invokes (
          returns (
            goes_on [] ((ends 7 ∷ []) ∷ []) (asks_there 8) (ends 8 ∷ []) (
              goes_on ((ends 8 ∷ []) ∷ []) [] (ends 7) [] (
                goes_on [] ([] ∷ []) (ends 8) []
                  (ends_now [] ([] ∷ []) (ends_now [] [] all_ended)))))))))

invoke_ms_engines-starts_example :
    (m : Monitor) × (fresh : List Bool) × (run_calls in_turn init ≡ ok (m, fresh))
    × Started
        (λ e i p. by_engines (is_ask e i p) (engine_calls 7 ∷ engine_calls 8 ∷ []))
        init
        m
        (queries in_turn fresh)
invoke_ms_engines-starts_example =
    invoke_ms_engines-starts (engine_calls 7 ∷ engine_calls 8 ∷ []) in_turn init in_turn-Runs refl
      (record { has_ip = tt; distinct = tt; attempts = tt })
