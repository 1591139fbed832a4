-- ===== src/Lib.antt =====
-- A verification of nakama-playflow, a fleet manager that gives rooms on game servers to players of
-- Nakama and starts and stops those servers at the PlayFlow provider.
--
-- The program. All state is one document in a store: workers (game servers), allocations (rooms that
-- users wait for or play in) and commands to the agents of workers. Three parties change it, each by
-- transactions on the whole document. Nakama calls the manager (`Allocate`, `Cancel`, `Create`,
-- `Join`, `Update`, `Delete`, `Drain`). The controller runs ticks under a lease: it watches deadlines,
-- places rooms, scales the fleet, and in between talks to the provider (`start`, `reconcileUnknown`,
-- `poll`, `stop`), with one transaction before and one after each call. The agents of workers report
-- over HTTP (`bootstrapHTTP`, `heartbeatHTTP`), and get the commands that are due. Several controller
-- processes may share a store, and answers may come late or twice.
--
-- The parts, and the code that each is about:
--   Base          what a Go program takes for granted: strings, maps, slices, sorting, loops, errors,
--                 base64url (Base64), and what is used of `strings` and `strconv` (Scan)
--   State         internal/state/state.go: the records of the document (`State`, `Worker`,
--                 `Allocation`, `Command`, `Session`, `Metrics`), the tests on phases, and
--                 `Memory.Update`; Postgres is internal/state/postgres.go (`NewPostgres`, `View`,
--                 `Update`), and Postgres/Refinement is about it next to the store in memory
--   Config        pkg/fleetmanager/config.go: Settings has the record `Config`, Validate `FromEnv` and
--                 `Validate`, Environment the variables for the servers (`parseServerEnvironment`,
--                 `validateServerEnvironment`); Limits and Environment/Laws are about what they admit
--   Token         pkg/fleetmanager/token.go: `sign` and `VerifyAdmission`; Laws is about both
--   Manager       pkg/fleetmanager/manager.go: Requests has `allocation`, Core and Users the other
--                 steps (`cancel`, `newWorker`, `reserve`, `beginDrain`), Calls the calls of the
--                 FleetManager interface, Admin the profile check of `New` and smaller transactions,
--                 Instance, Listing and Assignment the calls that read (`Get`, `List`, `Assignment`);
--                 Opening is `New` with the fingerprint of a configuration; Listing/Contents and
--                 Listing/Pages are about walking through the pages, Assignment/Admission about the
--                 tokens that are handed out, Opening/Agreement about managers that share a store
--   Lifecycle     pkg/fleetmanager/lifecycle.go: Lease, Watch (the deadlines), Placement (who gets
--                 which worker), Scaling, and Tick, the transaction of `Tick` built from them;
--                 Choosing is about the choice of a worker. Due is the operation that a tick then
--                 starts at the provider, Notify `notify`, Callbacks `deliverCallbacks`; Due/Next,
--                 Notify/Told, Notify/Honest and Callbacks/Once are about these
--   Provider      the rest of lifecycle.go, with internal/playflow/types.go: Launch (`start`,
--                 `reconcileUnknown`), Poll (`poll`), Stop (`stop`), Instances (`owned`,
--                 `providerLifetime`, `endpoint`), Request (the request that `start` makes);
--                 Safety is about the recheck of `stop`, Exclusion about starting once
--   Agent         pkg/fleetmanager/http.go: Reports (what an agent sends), Rooms, Results, Heartbeat,
--                 and Routes (`HTTPHandler` and `admin`), of which Routes/Guard says who may do what;
--                 Spares, Heard and Replay are about a heartbeat that is sent again
--   Client        internal/playflow/client.go: Requests has `request` and `parseRetryAfter`, Operations
--                 `Start`, `Get` and `Stop`, Listing `List`, Errors `APIError`, Opening
--                 `NewClient`; Creation is about the errors of a start, Snapshot about lists,
--                 Opening/Secure about the address
--   Hooks         pkg/fleetmanager/nakama.go: the hooks of the matchmaker and the remote calls; Matches
--                 and Assignments are about them
--   Evolution     the diagram of an allocation's phases (docs/architecture.md), and for each part the
--                 lemmas that relate its transactions to the diagram
--   System        the transactions of all parts as events, in any order, and what holds of them:
--                 Requests is about who is in which room, Requests/Keys about the keys of requests,
--                 Reachable about the states that a fleet gets to, Replay about a request made twice
--
-- How code corresponds to definitions. A function `name` of the code is the definition `name` in snake
-- case. The callback of a transaction is `name_run`, a function from the state to a result: the new
-- state and what the callback leaves in its captured variables, or an error. `update` is the store: an
-- error leaves the document as it was, a success raises its revision. A field that a worker, an
-- allocation or a command has in Go is a field of the same name here; a state or an error that Go
-- spells as a string is a constructor of a data type. The loops of the code are recursions on the
-- list that they walk, and every definition is total. The only count is that of the pages that the
-- client asks for, which is the code's own limit.
--
-- What stands for what:
--   A map with string keys is an association list, of which the first entry of a key counts. Go walks
--   maps in an order of its own choice at each walk, here they are walked in the order of the list. A
--   statement holds for every list, and so for every order; a request that is made twice finds the map
--   in any order the second time (`IsShuffled`, Requests/Shuffled). Where a write happens through a pointer that the
--   map holds, the changed record is put back under its key.
--   Times are whole seconds and counters are ℕ; they are taken to stay below 2 ^ 63. Where the code
--   subtracts, the comparison is written as one of sums. Integers that come from outside and may be
--   negative are ℤ. A float64 is NaN, an infinity or a multiple of 2 ^ -1074; the code only compares
--   them.
--   The generator `id()` is the parameter `fresh` of a manager, with the number of identifiers drawn
--   so far in the state.
--   What is not code of the repository is an argument: the provider's answers, what the transport of
--   HTTP comes back with (`Exchange`), HMAC-SHA256 and SHA-256, the JSON codec at each type, `url.Parse`,
--   `http.ParseTime`, `strings.ToLower`, and the environment of the process. The handlers of Agent
--   take the tokens that are derived from the signing key as an argument, which Routes fills.
--   The instants that one handler reads from the clock are separate arguments (`now`, `later`, `Readings`), in no
--   assumed relation.
--   What other transactions do between the view and the updates of `notify` is an argument of it.
--
-- What is not modelled: which callbacks a process has noted in `Create`; the composition of the operation
-- that a tick picks with its transactions, for which the events of System may come in any order; setup,
-- commands, the simulator of the provider, scripts; SQL, the router of HTTP beyond its patterns, and the
-- registration of hooks at Nakama.
pub mod Base
pub mod State
pub mod Config
pub mod Token
pub mod Manager
pub mod Lifecycle
pub mod Agent
pub mod Provider
pub mod Client
pub mod Hooks
pub mod Evolution
pub mod System
