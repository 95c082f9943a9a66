-- ===== src/Process.antt =====
-- src/main.go: the ticker loop, `monitor.Think()` and `if monitor.AllEnginesComplete() { cancel(); break }`,
-- with what the other goroutines do to the monitor between the ticks.
pub mod Ends
pub mod Start
use os_serverlist_sync.Base.{
  ℕ, Bool, true, false, List, [], ◌∷◌, ◌++◌, if◌then◌else◌, Result, ok, ◌>>=◌,
}
use os_serverlist_sync.Monitor.{Monitor, think, all_engines_complete}
use os_serverlist_sync.Monitor.Refines.{Call, run_calls}

-- A tick, with the clock of its `Think`, or a call by another goroutine.
pub data Event : Type 0 where
  tick : (ℕ → ℕ) → Event
  call : Call → Event

-- The monitor behind the events, and whether the loop has ended the process.
unfoldable pub watch : List Event → Monitor → Result (Monitor × Bool)
watch [] m = ok (m, false)
watch (tick clock ∷ events) m = think clock m >>= λ r.
    let rest = watch events r.0 in if all_engines_complete r.0 then ok (r.0, true) else rest
watch (call c ∷ events) m = run_calls (c ∷ []) m >>= λ r. watch events r.0

-- What `Invoke` of a list engine calls before it returns, and what its goroutines call behind that. Most
-- engines only begin before they return; in refresh mode they only end behind it.
pub record EngineCalls : Type 0 where
  pub now : List Call
  pub later : List Call

-- `invokeMsEngines` with the goroutines that it starts: from the engines that are left to be invoked, the
-- first perhaps in part, and the goroutines that run, to the calls of the monitor's methods in the order
-- in which they come. The engines are invoked in turn, and a goroutine may go on at any time.
pub data Runs : List EngineCalls → List (List Call) → List Call → Type 0 where
  all_ended : Runs [] [] []
  invokes :
      {c : Call} {now later calls : List Call} {engines : List EngineCalls}
      {goroutines : List (List Call)}
      → Runs (record { now = now; later = later } ∷ engines) goroutines calls
      → Runs (record { now = c ∷ now; later = later } ∷ engines) goroutines (c ∷ calls)
  returns :
      {later calls : List Call} {engines : List EngineCalls} {goroutines : List (List Call)}
      → Runs engines (later ∷ goroutines) calls
      → Runs (record { now = []; later = later } ∷ engines) goroutines calls
  goes_on :
      {calls : List Call} {engines : List EngineCalls}
      → (before after : List (List Call)) (c : Call) (cs : List Call)
      → Runs engines (before ++ (cs ∷ after)) calls
      → Runs engines (before ++ ((c ∷ cs) ∷ after)) (c ∷ calls)
  ends_now :
      {calls : List Call} {engines : List EngineCalls}
      → (before after : List (List Call)) → Runs engines (before ++ after) calls
      → Runs engines (before ++ ([] ∷ after)) calls
