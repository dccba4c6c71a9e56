-- ===== src/Lib.antt =====
-- bebo: a model of the parts of the web framework that carry its own logic, and theorems about
-- them.
--
-- The program. An application (app.go) keeps a table of routes beside its router. A request is
-- matched by method, host and path (router/router.go), passes the middleware of the application
-- and of its route, and an error goes to the error handler. Routes may have a deadline
-- (timeout.go), stand in groups (group.go) and have names from which paths are built (path.go). A
-- request passes middleware such as the rate limiter (middleware/ratelimit.go), and reads and
-- writes a session (session/memory.go). Outgoing calls go through transports that retry and that
-- break the circuit (httpclient/httpclient.go). Background jobs are queued and run with retries
-- (tasks/tasks.go), a database schema is brought up to date by numbered scripts
-- (migrate/runner.go), and queries are put together by builders (db/builder.go). Requests are
-- authenticated by signed tokens and authorized by roles and permissions (auth/jwt.go,
-- auth/jwt_keys.go, auth/roles.go). Stores talk to a Redis server by its protocol
-- (redis/redis.go). A request may be upgraded to a WebSocket connection (realtime/websocket.go).
--
-- The files.
-- - Prelude: numbers, texts as byte lists, Go maps as association lists over a key type with an
--   equality (Dict.Eq), results, and the functions of the packages strings and net that the
--   sources call. int and time.Duration, where they may be negative, are the integers of
--   Prelude/Int.
-- - Router: router/router.go. parse_pattern, host_matches, match_segments, match_host,
--   allowed_host and add_with_host are parsePattern, hostMatches, matchSegments, MatchHost,
--   AllowedHost and AddWithHost. Router/Fits says independently which paths fit a pattern (the
--   data type Fits), and Router/Select which route is the first to serve a request; the other
--   files are about what parsing, registering and listing methods do.
-- - HttpClient: httpclient/httpclient.go. HttpClient/Backoff is ExponentialBackoff with the
--   wrap-around of int64; HttpClient/Breaker is CircuitBreaker, each locked method one step that
--   is given the time, and BreakerRoundTripper; HttpClient/Retry is RetryRoundTripper, where the
--   base transport, GetBody and the waits are functions of the attempt, and what the loop does is
--   a list of events.
-- - Middleware/RateLimit: the token bucket of middleware/ratelimit.go, Middleware/RateLimit/Apply
--   its applyRateLimit, clientIPKey and formatRetryAfter. Middleware/Etag: the writer of the ETag
--   middleware of middleware/cache.go; etag_write, etag_flush and finalize are Write, Flush and
--   finalize, and Etag/Complete and Etag/Served follow the body through them.
-- - Tasks/Job: runJob of tasks/tasks.go with the settings that it merges; Tasks/Runner:
--   EnqueueContext, Shutdown and the workers as a step relation on the state of the queue, so that
--   every interleaving is a sequence of steps.
-- - Session/Memory: session/memory.go, each of Get, Save and Clear one step that is given the time
--   and the new id.
-- - Session/CookieStore: the signed cookies of session/session.go; HMAC, base64 and JSON are the
--   fields of Codec.
-- - Migrate: loadMigrations of migrate/runner.go; Migrate/Database: Up, Down and Plan over a
--   database whose content and scripts are parameters.
-- - Db/Builder: the builders of db/builder.go over arguments of any type, strconv.Itoa being a
--   parameter; Db/Builder/Placeholders counts and numbers placeholders, Counts is about Build,
--   Chains about calls of Set and Where.
-- - Realtime/WebSocket: realtime/websocket.go. read_frame, write_message and read_message are
--   readFrame, WriteMessage and ReadMessage; the input is a byte list, and the output is what has
--   been flushed and what bufio holds. WebSocket/Frames has the frames of a client and
--   WebSocket/Written the reader of a client, both after RFC 6455.
-- - App/Table: handleWithOptions, Use, UsePre and RouteInfo of app.go with the options of
--   route_options.go; App/Serve: ServeHTTP, runPreMiddleware, runWithMiddleware and
--   defaultErrorHandler of app.go, and TimeoutHandler of timeout.go; App/Response: timeoutWriter
--   over the response of net/http; App/Errors: apperr/apperr.go; App/Groups: group.go; App/Paths:
--   buildPath of path.go with url.PathEscape as a parameter. A handler is a function from a
--   context to a context and an error.
-- - Auth/Jwt: auth/jwt.go and auth/jwt_keys.go. verify, check_claims and sign_hs256 are verify
--   (and its last part) and SignHS256; Jwt/Fine says independently which claims pass, and Jwt/Keys
--   which keys may sign; HMAC, base64 and JSON are the fields of TokenCodec, and the time is
--   given. Auth/Roles: auth/roles.go.
-- - Redis: the protocol of redis/redis.go. read_response and write_command are readResponse and
--   writeCommand; the fields of Platform are the decimals of fmt and strconv and the limit of
--   make; Redis/Panics and WebSocket/Panics say which input makes the readers panic.
--
-- Bounds and fuel. The retry loops of HttpClient/Retry and of Tasks/Job run on fuel, one unit for
-- a round. A fuel above the allowed retries is enough (round_trip_total, run_job_total).
-- ReadMessage runs on fuel too, one unit for a frame, and one unit more than the input has bytes
-- is enough (read_message_total). readResponse runs on fuel for nested arrays, and one unit more
-- than the input has bytes is enough (read_response_total). All other loops are structural
-- recursion. A delay is an int64: shifts wrap around at 2^64. Times are natural numbers of
-- nanoseconds and do not overflow; other counters do not either.
--
-- What is simplified. Texts are byte lists, and lower-casing, case folding and trimming white
-- space are those of ASCII. net.SplitHostPort is read as: the text has a host and a port around
-- its last colon, with the brackets of IPv6. The arithmetic of float64 in the rate limiter is a
-- parameter, of which IsRounding in RateLimit/Rounding says what is relied on; the bound on
-- granted calls is about a limiter without eviction. The heap of sessions' expirations is kept by
-- its contract, sorted. A query builder is a value, where in Go two builders derived from one may
-- share the array behind a slice. A migration's transaction is all or nothing, reading the version
-- table and creating it succeed, and a script that cannot be read fails as one that cannot be run.
-- On a WebSocket connection the deadlines do not pass, writes succeed, and make succeeds for a
-- size that is not negative; in the Redis reader make succeeds up to its limit. Under a deadline,
-- whether it passes before the handler returns and what the handler has done by then are given
-- (Timing). A context's writer is the response or timeoutWriters over it; the names of headers are
-- taken as they are written, and a header map is committed in the order of its keys' first uses.
--
-- What is not modelled. Servers and signals, the reading of requests, rendering, static files,
-- templates, configuration, the command, metrics, logging, health, tracing and the other
-- middleware; session stores in Redis and Postgres; the other database helpers, the cache,
-- validation, the upgrade to a WebSocket connection and server-sent events. They are mostly input,
-- output and glue. In the modelled files: the options that set a field, NewClient, the refusal of
-- a job without a handler, the contexts of jobs and requests beyond the ends of their waits, the
-- advisory lock's polling, and the cookie's attributes other than its value and age.
pub mod Prelude
pub mod Router
pub mod HttpClient
pub mod Middleware
pub mod Tasks
pub mod Session
pub mod Migrate
pub mod Db
pub mod Realtime
pub mod App
pub mod Auth
pub mod Redis
