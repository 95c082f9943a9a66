-- ===== src/Listener.antt =====
-- The end of `listen` of the four query engines, src/Engines/*/*QueryEngine.go: an answer goes to the
-- output handler, and then the address that it came from to `CompleteQuery`. `ip_string` is `IP.String()`.
pub mod Stores
pub mod Qr2
pub mod Goa
pub mod Samp
pub mod Ut2k
pub mod Survives
use os_serverlist_sync.Base.{ℕ, List, [], ◌∷◌, Option, none, some, Result, ok, ◌>>=◌}
use os_serverlist_sync.Base.Bytes.{Bytes}
use os_serverlist_sync.Base.Net.{Addr, AddrPort, UdpAddr}
use os_serverlist_sync.Base.Props.{Props}
use os_serverlist_sync.Monitor.{Monitor, complete_query}
use os_serverlist_sync.Redis.{Redis}
use os_serverlist_sync.Redis.Output.{OpenSpyRedisOutputHandler, Source, on_server_info_response}

-- `OnServerInfoResponse(source, props)` and `CompleteQuery(qe, completed)`.
pub record Answer : Type 0 where
  pub source : UdpAddr
  pub props : Props
  pub completed : AddrPort

-- What `ReadFrom` gives.
pub data Packet : Type 0 where
  failed : Packet
  datagram : Bytes → UdpAddr → Packet

-- One round of the loop of an engine: the new receive buffer, and the answer if there is one.
abbrev pub Step : Type 0
Step = Bytes → Bytes → UdpAddr → Result (Bytes × Option Answer)

module _ (R : Redis) (oh : OpenSpyRedisOutputHandler) (ip_string : Addr → Bytes) (engine : ℕ) where
  abbrev pub source_of : UdpAddr → Source
  source_of a = record { ip = ip_string a.ip; port = a.port }

  -- What an answer works on; `none` behind `log.Fatal`.
  abbrev pub State : Type 0
  State = Option (Monitor × R.Db)

  abbrev pub complete : AddrPort → Monitor → Option R.Db → Result State
  complete address m none = ok none
  complete address m (some d) = do m' ← complete_query m engine address; ok (some (m', d))

  unfoldable pub respond : Answer → Monitor × R.Db → Result State
  respond a (m, d) = do
    stored ← on_server_info_response R oh (source_of a.source) a.props d
    complete a.completed m stored

  abbrev pub respond_to : Option Answer → Monitor × R.Db → Result State
  respond_to none w = ok (some w)
  respond_to (some a) w = respond a w

  abbrev pub unless_exited : State → (Monitor × R.Db → Result State) → Result State
  unless_exited none next = ok none
  unless_exited (some w) next = next w

  -- The loop of `listen`, which an error of `ReadFrom` ends.
  unfoldable pub listen : Step → List Packet → Bytes → Monitor × R.Db → Result State
  listen step [] buf w = ok (some w)
  listen step (failed ∷ packets) buf w = ok (some w)
  listen step (datagram b a ∷ packets) buf w =
      step buf b a >>= λ r. respond_to r.1 w >>= λ s. unless_exited s (listen step packets r.0)
