-- ===== src/Lib.antt =====
-- A verification library of zerock, which shares a local port on a subdomain of one's own domain.
--
-- The server keeps credentials and reserved subdomains in a database (internal/store), reads its
-- configuration (internal/server/config.go), and registers the live tunnels (registry.go). An agent
-- sends a Hello on the control channel; control.go authenticates its token against the store,
-- resolves a subdomain against the configuration, the registry and the reservations, chooses a
-- public port for a TCP tunnel (tcp.go) and adds the tunnel to the registry. The management API
-- (api.go) acts on the store and on the registry for the token that a request carries.
--
-- Which file models which part:
--   Prelude, Prelude/*    shared names; Go's strings, maps, integers and sorting
--   Bolt, Bolt/InMemory   bbolt as a record of operations with laws, and buckets in memory for tests
--   Store/Token           internal/store/token.go: Token, HasScope, Active, Status
--   Store/Secret          internal/store/token.go: NewSecret, HashSecret, ParseToken, matches
--   Store/Db              internal/store/store.go: Store, its errors, Reservation
--   Store/Tokens          internal/store/store.go: CreateToken to CountAdmins, normalizeScopes
--   Store/Reservations    internal/store/store.go: Reserve, Reservation, ListReservations, Release
--   Namegen               internal/namegen/namegen.go: New, ValidSubdomain
--   Server/Config         internal/server/config.go
--   Server/Tunnel         internal/server/registry.go: Tunnel and Close
--   Server/Registry       internal/server/registry.go: registry
--   Server/Tcp            internal/server/tcp.go: bindTCP
--   Server/Control        internal/server/control.go: authorize, resolveSubdomain; the frames of
--                         internal/proto/proto.go that they read and write
--   Server/Http           internal/server/http.go: newFrontend, proxyHTTP, the recorder
--   Server/Session        internal/server/control.go: handleControlConn
--   Server/Lifecycle      registry.go and control.go: closeAll, releaseTunnel
--   Client/Profiles       internal/client/config.go: Profile, SavedTunnel, Resolve, SplitServer
--   Client/Agent          internal/client/agent.go: Run, session, readEvents
--   Cliutil               internal/cliutil/args.go: ParseFlags, with package flag's reading of words
--   Tray/Manager          internal/tray/manager.go: the manager of tunnels, its callbacks, Summary
--   Tray/Spec             internal/tray/spec.go: ParseSpec, uniqueName
--   Clientcli             internal/clientcli/tunnel.go: the commands http and tcp
--   Hosts                 the texts of hosts and addresses, for both sides
--   Proto                 internal/proto/proto.go: WriteMsg, ReadMsg
--   Server/Api            internal/server/api.go: authed and the handlers
-- The proofs stand in the modules below each of these, the tests in modules named Examples. A Go
-- function keeps its name in snake case.
--
-- State is passed explicitly: an operation on the store returns the new database or an error, and
-- an error leaves the database as it was, as a bbolt transaction that rolls back does. A failing
-- write, whatever its cause, is the `none` of the interface. Instants and what was drawn at random
-- are arguments. The address of a tunnel in memory is its field `ref`, and the flag `ready` of a
-- tunnel is read through a function of it. A Go `int` is an integer without a bound.
--
-- A handler and `authorize` are one step each. In the source the test of the limit and the entry
-- in the registry stand apart, so that two Hellos at once can both pass the test; this
-- interleaving is not in the model. `TouchToken` is two transactions: a handler runs
-- `touch_token`, both of them with nothing in between, and Store/Tokens/Races is about what
-- happens between them. The events of an attempt are those that the agent has read when it
-- decides: the source waits a bounded time for the stream of events to end.
--
-- Text is a list of bytes; lowering case and trimming white space are those of ASCII, so texts
-- outside ASCII are not in the model. `sort.Slice` is an insertion sort. The three loops on fuel are
-- the walk over the ports, whose fuel is one more than the length of the range, the digits of a
-- decimal number, whose fuel is one more than the number, and the search of a name that is not
-- taken, whose fuel is one more than the number of names that are.
--
-- The tray runs the client's agent for each saved tunnel: Tray/Manager applies the calls of the
-- Handler that Client/Agent records. What a saved tunnel is written as (Client/Profiles) is read by
-- Tray/Spec, over Cliutil, and by the commands in Clientcli, which run the same agent. On the
-- server's side the agent's session meets Server/Control, and Server/Http finds the tunnel that was
-- granted there.
--
-- Not modelled: the texts of messages and logs, JSON and YAML encoding, TLS, the network, the
-- operating system's services, the terminal and desktop interfaces, the dashboard, the other
-- commands of the command line, and the copy of the systray library.
pub mod Bolt
pub mod Client
pub mod Clientcli
pub mod Cliutil
pub mod Hosts
pub mod Namegen
pub mod Prelude
pub mod Proto
pub mod Server
pub mod Store
pub mod Tray
