-- ===== src/Lib.antt =====
-- panapi: path-aware networking for applications. An application builds a preconnection (taps/),
-- dials or listens with one of three protocols (pkg/), and leaves the choice of network paths to
-- a selector. The selector may run in a daemon: rpc/ carries the calls of each connection's
-- selector, and the events that quic-go reports of it, over net/rpc; in the daemon, lua/ hands
-- them to a Lua script. Two processes matter: the application, which `log.Fatalln` ends, and the
-- daemon, which a nil dereference in a handler ends.
--
-- What models what (paths from the repository's root):
-- - Golang: `error` values, and how a call ends (it returns, panics, or exits the process). Mutex
--   has goroutines that share a state under a mutex, an access at a time, in any interleaving.
-- - Pan: the types of the SCION library that the program uses, as parameters.
-- - Prelude: shared names; tests on the native numbers; Go maps with string keys, as lists of
--   entries of which the first with a key counts.
-- - Taps: taps/. Enums and Stringer are enum.go and enum_string.go, its checks at compile time
--   included; Properties and Preferences the property records and their copies; Heap and
--   Preconnection are preconnection.go, with endpoint.go, security.go and
--   transport_preferences.go: structs that are shared by pointer lie in numbered cells, and a
--   copy allocates. What can be read through a pointer is a view. DefaultSelector is selector.go;
--   Defaults has the constructors and the errors of error.go.
-- - Pkg: pkg/. Tcp is pkg/inet/tcp/tcp.go, Inet is pkg/inet/quic/quic.go, Scion is
--   pkg/scion/quic/quic.go; Quic has what the two QUIC protocols share, Properties the `Satisfy`
--   methods, also of pkg/udp/udp.go.
-- - Rpc: rpc/. Interfaces has `taps.Selector` and `ServerSelector`, ServerSelector the
--   `serverSelector`, and Pointers the same with pointers, an access at a time; SelectorServer
--   the handlers and SelectorClient the client of selector.go; PathMsg is path.go.
--   ConnectionTracer is connection_tracer.go, with Client, Server, the calls that quic-go makes
--   in Events, and Delivery, which joins them; Print is the message's `String`. Loopback joins
--   client and handlers as rpc.go does: a call looks its method up by name, the handler works on
--   what the wire makes of the message, an error comes back as text. Tracer is tracer.go, and
--   Tracer/Told joins its two sides. Setup has the constructors of rpc.go.
-- - Convenience: pkg/convenience/, the way of an application to its client of the daemon.
-- - Cmd: cmd/daemon/main.go, up to the point where it waits for a signal. Daemon/Scripted,
--   Daemon/Refreshed, Daemon/Unscripted and Daemon/Fallback join the daemon, with a script and
--   without, to an application.
-- - Debug: debug/selector.go.
-- - Lua: lua/. PathTables is the type `state` of selector.go, Selector the `LuaSelector`, Tables
--   the tables that scripts are handed; Stats and StatsTables are stats.go; Interpreter is what
--   both use of gopher-lua, with the laws that its documentation states as named hypotheses;
--   Script is `LoadScript` of lua.go. Turns takes the methods of `LuaSelector` apart into their
--   accesses to what they share, for Golang/Mutex.
-- - Examples: examples/. Options has the three `main`s up to the call of `runServer` or
--   `runClient`, Clients and Servers those two, on the preconnections of Taps, and
--   Clients/Dialling their dialling with the protocol of Pkg/Scion; Copy and Report are `myCopy`
--   and `report` of examples/capacityseeker/main.go, Workers the conversations of
--   examples/pingpong/main.go and examples/concurrent/main.go, whose client is in Clients.
-- - Scenarios: concrete runs.
--
-- A method with a pointer receiver takes its object's state and returns the new one; a function
-- that can panic or end the process returns a `Run`. nil is `none`. The methods of lua/ hold a
-- mutex from their start to their end and are single steps, but for Lua/Turns, which has them
-- access by access, on schedules that say whose turn it is. A function of a script returns.
-- Recursion is structural everywhere but for fuel: `format_int` takes n + 1 rounds to print n, of
-- which each drops a digit; `myCopy` takes one round more than the reader has bytes, as each
-- round but the last reads one if the reader never gives nothing without an error; a worker takes
-- one more than its peer has lines. The loops that never end by themselves, of `Accept` and of
-- pingpong's client, run for any given number of rounds. Machine integers that are added to keep
-- their wrap-around at 2 ^ 64: Golang/Int64 has those with a sign, in two's complement. A number
-- of Lua is a float64, of a type that is a parameter, as is the conversion of an integer to it.
--
-- Not modelled: log output and log files; the goroutines of the example programs: where a program
-- begins one, the model has a parameter. What gob does to a message is the parameter `wire`. gob
-- sends nothing for a pointer to an empty text or to a zero number, which arrives as nil: the
-- theorems on the selector ask of the wire only that it keeps messages without an empty
-- fingerprint, those on a connection's tracer that it keeps the one message in question, and that
-- on the other tracer that gob refuses a value behind an interface whose type was not registered.
-- Nor are modelled: that Go may end a program whose goroutines race on a map; signals; the
-- generation of keys and TLS configurations, which calls libraries only;
-- internal/measured-appnet, which is other projects' library code with timing output.
pub mod Prelude
pub mod Golang
pub mod Pan
pub mod Taps
pub mod Pkg
pub mod Rpc
pub mod Lua
pub mod Debug
pub mod Cmd
pub mod Convenience
pub mod Examples
pub mod Scenarios
