-- ===== src/Lib.antt =====
-- os-serverlist-sync: a process that collects game servers from master servers, asks each for its
-- properties over UDP and stores the answers. The program is under src/ of the repository.
--
-- Parts, and how they work together. `main` reads a list of configurations. Each has a server-list
-- engine, a query engine and an output handler. The server-list engine announces itself to the
-- monitor, talks to its master server, and gives each address that it finds to `BeginQuery` of the
-- monitor; where that is new it calls `Query` of the query engine, which sends a datagram. The query
-- engine's listener reads the answers, gives the properties to the output handler and the address to
-- `CompleteQuery`. Every two seconds `Think` of the monitor repeats the queries without an answer and
-- gives up those that were repeated often enough. The process ends when the monitor has neither
-- engines nor queries.
--
-- Base: Go's panics (Go), byte strings and encoding/binary (Bytes), bit tests (Bits), the addresses of
--   net/netip and net (Net), `map[string]string` (Props), `strings.Split` and `strings.Index` (Text), a
--   TCP connection as what its next reads return (Conn), writing into a buffer (SendBuffer),
--   `strconv.Atoi` (Atoi), lists, Boolean tests.
-- Monitor: src/Engine/SyncStatusMonitor.go, one function for each method, the loops of `Think` and
--   `CompleteQuery` as functions of their own. Trace has the calls as a step relation.
-- ListEngine: what every server-list engine does with the addresses that it finds, a run of an
--   engine that nothing disturbs, and `Invoke` of an engine that dials, given its conversation. Qr2.Invoke,
--   Ut2k.Invoke and Goa.Invoke fill in their conversations.
-- Listener: the loop over `ReadFrom` of the four query engines, from a datagram to the output handler
--   and the monitor, given the engine's own round of the loop.
-- Reader: `QueryParserState` of the two UDP parsers as a state monad whose reads may panic.
-- Ut2k.Query: src/Engines/UT2K/UT2KQueryEngine.go. Ut2k.MasterServer:
--   src/Engines/UT2K/UTMSServerListEngine.go.
-- Qr2.Query: src/Engines/QR2/QR2QueryEngine.go. Samp.Query: src/Engines/SAMP/SAMPQueryEngine.go.
-- Goa.Query: src/Engines/GOA/GOA0QueryEngine.go. Goa.ServerList:
--   src/Engines/GOA/GOA0ServerListEngine.go.
-- Qr2.Stream and Qr2.ServerList: src/Engines/QR2/SBV2ServerListEngine.go, the reading of plain and
--   encoded bytes as a state monad that may panic, and the conversation. `fetch` is a read with the
--   test of `gotFatalError` behind it.
-- TextFile: src/Engines/TextFileServerListEngine.go. Api: src/Engines/SAMP/OpenMpApiEngine.go and
--   src/Engines/GameServerListerApi/GameServerListerApiEngine.go.
-- Redis: the Redis commands as a record of operations, with a record of their laws. Redis.Output and
--   Redis.Input: src/Engines/OpenSpy/OpenSpyRedisOutputHandler.go and OpenSpyRedisInputHandler.go.
--   Redis.Setup: their options and the id of the game.
-- Config: src/Config/EngineConfiguration.go, and `applyRefreshModeInputEngine` of src/main.go.
-- Process: the ticker loop of src/main.go, with the calls of the other goroutines between the ticks, and
--   `invokeMsEngines` as a relation, with the engines' goroutines in any order.
-- Tests: the theorems at concrete inputs.
--
-- How the model corresponds to the code. A function that may panic returns a `Result`. Engines are
-- numbers, since the monitor compares them by identity only. All copies of the monitor share its two
-- lists, so there is one state, and a call of a method is one step. Readings of the clock are arguments,
-- in nanoseconds. `container/list` clears an element's links when it is removed, so the loops that
-- remove one end there. A listener's state is its receive buffer; one round of its loop is a step that
-- takes a datagram. A TCP connection is a list of reads; behind it is the end of the stream. Go's `int`
-- has 64 bits and holds all lengths and offsets here, so they are natural numbers.
--
-- Bounds and fuel. The loop over a string of Unreal has the string's length as fuel and the loop
-- over keys and values the datagram's length and one; both are enough. The loops of the SBV2 engine
-- that end with the connection have the number of its bytes, and one, which is enough since each
-- round reads a byte. The loop over the cursors of a Redis scan ends if there is more fuel than
-- answers. All other loops are structural.
--
-- Parameters: `netip.ParseAddrPort`, the sum `md5` in hexadecimal, the answer to a GOA challenge
-- (the C function `gsseckey`), the stream cipher of the SBV2 engine (C functions that decode in
-- place, piece by piece), `netip.ParseAddr`, the lookup of host names, what HTTP and JSON decoding
-- give, and Redis on a connection that does not fail, with no other client between the commands of
-- one answer. Calls of `Write` to a TCP connection succeed in the model. Numbers in the
-- configuration are not negative. The query engines are modelled with an output handler.
--
-- Not modelled: the ciphers in C under src/Engines, which are copies of other projects; HTTP, JSON,
-- files and DNS, which are calls of libraries; flags, the limit of five minutes and the shutdown in
-- src/main.go; sockets and their timeouts; the scheduling of goroutines, which share the monitor's
-- lists without a lock.
mod Base
pub mod Monitor
pub mod Reader
pub mod Listener
pub mod Ut2k
pub mod Qr2
pub mod Samp
pub mod Goa
pub mod ListEngine
pub mod TextFile
pub mod Api
pub mod Redis
pub mod Config
pub mod Process
mod Tests
