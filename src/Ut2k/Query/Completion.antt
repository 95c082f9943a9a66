-- ===== src/Ut2k/Query/Completion.antt =====
-- Which query an answer of Unreal Tournament completes: `handleResponse` takes the port of the
-- source address down by one for the report, and the same `*net.UDPAddr` goes to `CompleteQuery`.
use os_serverlist_sync.Base.{
  ℕ, zero, suc, ◌<◌, Bool, true, false, Option, none, some, ◌≡◌, refl, ap, ◌∙◌, arith,
  if◌then◌else◌, Result, ok, panic, subst, ◌>>=◌,
}
use os_serverlist_sync.Base.Int.{pos, pred, uint16}
use os_serverlist_sync.Base.Net.{v4, UdpAddr, addr_port}
use os_serverlist_sync.Base.Props.{Props}
use os_serverlist_sync.Monitor.{Monitor, complete_query}
use os_serverlist_sync.Monitor.Matching.{IsValid}
use os_serverlist_sync.Monitor.Queries.{at4, pending, same_key, pending-complete_query}
use os_serverlist_sync.Reader.{QueryParserState, slice, uint32_le, read_byte}
use os_serverlist_sync.Listener.{Answer}
use os_serverlist_sync.Ut2k.Query.{read_props, answer_from, handle_response}

-- A report, if there is one, is `answer_from` of the source.
abbrev Tells : UdpAddr → Result (Option Answer) → Type 0
Tells source (ok (some a)) = a ≡ answer_from source a.props
Tells source (ok none) = Unit
Tells source (panic f) = Unit

module _ (source : UdpAddr) where
  bind-Tells :
      {A : Type 0} (m : Result A) (f : A → Result (Option Answer))
      → ((a : A) → Tells source (f a))
      → Tells source (m >>= f)
  bind-Tells (ok a) f h = h a
  bind-Tells (panic e) f h = tt

  if-Tells :
      (b : Bool) (r : Result (Option Answer))
      → Tells source r
      → Tells source (if b then ok none else r)
  if-Tells true r h = tt
  if-Tells false r h = h

  handle_response-Tells :
      (version_id : ℕ) (state : QueryParserState)
      → Tells source (handle_response version_id source state)
  unfolding handle_response answer_from
  handle_response-Tells version_id state =
      bind-Tells (slice state.buffer state.current_offset 4) _ λ head.
        bind-Tells (uint32_le head) _ λ version. if-Tells _ _ (
          bind-Tells (read_byte _) _
            λ r. if-Tells _ _ (bind-Tells (read_props version r.1) _ (λ t. refl)))

handle_response-answer_from :
    (version_id : ℕ) (source : UdpAddr) (state : QueryParserState) (a : Answer)
    → handle_response version_id source state ≡ ok (some a)
    → a ≡ answer_from source a.props
handle_response-answer_from version_id source state a h =
    subst (Tells source) h (handle_response-Tells source version_id state)

-- The port below, wrapped as a `uint16`.
abbrev pub port_below : ℕ → ℕ
port_below zero = 65535
port_below (suc n) = n

pub completed-answer_from :
    (ip port : ℕ) (props : Props)
    → port < 65536
    → (answer_from (record { ip = v4 ip; port = pos port }) props).completed
      ≡ at4 ip (port_below port)
unfolding answer_from addr_port pred uint16
completed-answer_from ip zero props h = refl
completed-answer_from ip (suc n) props h = ground arith

pub key_below : (engine ip port : ℕ) → same_key engine ip (port_below port) engine ip port ≡ false
key_below engine ip zero = ground arith
key_below engine ip (suc n) = ground arith

-- The answer of a server completes the query of the port below the one that was asked: whatever
-- the packet, a query to the server that sent it is pending afterwards exactly if it was before.
pub handle_response-completes_other :
    (version_id engine ip port : ℕ) (state : QueryParserState) (a : Answer) (m : Monitor)
    → port < 65536
    → IsValid m
    → handle_response version_id (record { ip = v4 ip; port = pos port }) state ≡ ok (some a)
    → (m' : Monitor) × (complete_query m engine a.completed ≡ ok m')
      × (pending m' engine ip port ≡ pending m engine ip port)
      × (pending m' engine ip (port_below port) ≡ false)
handle_response-completes_other version_id engine ip port state a m h v e =
    let wrong : a.completed ≡ at4 ip (port_below port) =
      ap (λ x. x.completed) (handle_response-answer_from version_id _ state a e)
      ∙ completed-answer_from ip port a.props h in
    let (m', done, after) = pending-complete_query m engine ip (port_below port) v in
    (
      m',
      rw wrong done,
      after engine ip port ∙ (let d = key_below engine ip port in rw d),
      after engine ip (port_below port)
          ∙ (let d : same_key engine ip (port_below port) engine ip (port_below port) ≡ true =
                ground arith in
              rw d),
    )
