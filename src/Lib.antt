-- ===== src/Lib.antt =====
-- Goexpose: an HTTP server that exposes shell commands, queries and other tasks, as its JSON or YAML
-- configuration says. This library models its Go code and proves what the parts do.
--
-- The parts and how they interact:
-- * `Config` (config.go): the configuration, its validation (`QueryParams.Validate` is
--   `validate_query_params`, `TaskConfig.Validate` is `validate_task`, and so on), `GetParams`, and
--   in `Config/Loading` the loading of a file.
-- * `Registry` (registry.go, with the registrations of auth.go and formats.go): the global maps of
--   task factories, authorizer factories and formats.
-- * `Formats` (formats.go): the formatters, `VerifyFormat` and `Format`.
-- * `Response` (response.go): the response with its chained methods; `Response/Writing` has `Write`
--   and `MarshalJSON`, as the events on the writer and the log.
-- * `Http` (http.go): the requester of the http authorizer.
-- * `Auth` (auth.go): `GetAuthorizers`, `Authorizers.Authorize`, and in `Auth/Basic`, `Auth/Ldap` and
--   `Auth/Remote` the three kinds of authorizers.
-- * `Utils` (utils.go): templates and `MethodAllowed`.
-- * `Tasks` (interfaces.go, tasks.go): the interface of a task; `Tasks/Item` has the steps of one
--   command or query with their `goto Append`, `Tasks/Single` the `single_result` index, and
--   `Tasks/Shell`, `Tasks/Postgres`, `Tasks/Mysql`, `Tasks/Redis`, `Tasks/Cassandra`,
--   `Tasks/Multi`, `Tasks/Files` (the filesystem task), `Tasks/Web` (the http task) and `Tasks/Info`
--   a task each.
-- * `Server` (server.go): `Handle` with its deferred recovery, the environment, the parameters of a
--   task; in `Server/Routes` the routes that are made of the configuration; in `Server/Factories` the
--   task factories with the calls of the info and the multi factory back into the server; in
--   `Server/Serving` `NewServer`, `Server.Run` and the way of a request through the router to its
--   handler; in `Server/Concurrent` the requests that are served at the same time, each with the steps
--   of its handler (a call of an authorizer, the reading of its parameters, the run of its task), with
--   the turns of all requests in any order.
-- * `Locks` (the `sync.RWMutex` and the map of registry.go, auth.go and formats.go): the functions with
--   their calls of the lock, as the steps of goroutines; `Locks/Registries` has a program for each
--   function (`RegisterAuthorizer` is `register_program`, `GetAuthorizers` is
--   `get_authorizers_program`, and so on), and `Locks/Alone` compares it with the function that the
--   other modules have.
-- * `Program` (cmd/goexpose/goexpose.go): `main`, from the flags to the exit code.
-- * `Common`, `Text`, `Dict`, `Value`, `Effect` and `Request` are shared: results and errors, the
--   calls of the strings package, maps, interface values, calls with a state, and requests.
--
-- How the code is modelled: a method that changes the structure behind its pointer returns the changed
-- structure. A call that may fail or panic gives a `Result` (a value, an error, or a panic); a call
-- that touches the world outside takes the state of that world, of any type, and returns the next.
-- Maps are association lists in the order in which a `range` loop visits them, which Go leaves open,
-- so the theorems hold for each order. The loops of one call of `Server.routes` go over a map in the
-- same order, which can only change which of several errors is given; each nested call that the info
-- task's factory makes meets the maps in an order of its own (`Pass` in `Server/Factories`). Where the
-- code shares a pointer to a loop variable, the model gives the value that the variable has in the end.
--
-- Parameters: the standard library's json, template, regexp, base64 and url calls, processes, files,
-- the environment, the http client and the listening, and the packages for yaml, LDAP, redis,
-- cassandra, sqlx, sha256 and the router (mux).
-- The theorems on goroutines hold for any number of them and for every order of their steps.
-- All loops run over finite lists, by recursion on them. Only the factories of the info and the multi
-- task can call each other without end: `Server/Factories` bounds the depth of their calls;
-- which depth is enough is the subject of `Server/Factories/Depth`.
--
-- Not modelled: the package comment (doc.go), log lines other than that of `Write` and the error that
-- `main` logs, entries that are null in a configuration's lists, and memory exhaustion. A request
-- handler gets the time that it takes as an argument. The call of an authorizer and the run of a task
-- are one step each, so that what other requests do in the middle of one is left out. The
-- configuration that a nested call of `Server.routes` meets is a parameter, which need not tell that
-- the endpoints passed so far have been validated in place (`Config/Again` is about validating them
-- again). The locks are in `Locks`; the other modules have each function that takes one as one step.
-- Whether a goroutine that waits for a lock gets it in the end is left to the scheduler. The mutex in
-- the `init` function of config.go guards one registration of a closure and is left out.
pub mod Common
pub mod Text
pub mod Dict
pub mod Value
pub mod Response
pub mod Registry
pub mod Formats
pub mod Config
pub mod Effect
pub mod Request
pub mod Http
pub mod Locks
pub mod Auth
pub mod Utils
pub mod Tasks
pub mod Server
pub mod Program
