-- ===== src/Lib.antt =====
-- Verification of jig-mcp, a server of the Model Context Protocol that runs configured tools: processes,
-- HTTP requests and shell commands. A request comes in over stdio or over HTTP with server-sent events,
-- ProcessRequest answers it or hands it to HandleToolCall, which looks the tool up in the registry, takes a
-- slot of the semaphore, runs the tool's Handle, writes an entry of the audit log and counts the call.
--
-- What models which part:
-- - Value: the JSON values (map[string]any) that arguments and results are.
-- - Http: a request and a reply of net/http, as far as the handlers read and write them, and the settings of a
--   server.
-- - Auth: internal/auth/auth.go (Caller: CallerIdentity, WithCaller, CallerFrom; Tokens: InitTokenRegistry,
--   Lookup, AuthRequired, Clear), and Auth.Middleware: `authenticate` of internal/sse/sse.go and of
--   internal/dashboard/dashboard.go.
-- - Rlimit: internal/rlimit, EffectiveLimits; Unix and Windows: StartWithLimits of the two systems.
-- - Config: internal/config/config.go, the records; Validate: ValidateToolConfig; Load: LoadManifests and
--   ProbeScripts.
-- - Tools: internal/tools and common/common.go; Runtime holds what the tools call outside the repository;
--   Base, Terminal, External, Http: the three handlers and their helpers; Registry: the registry; Limits: the
--   timeout and the limits of the processes.
-- - Audit: internal/audit/audit.go; Redact and Entry: Record up to the encoding of the entry, and
--   record_line of Writer what follows; Files: the files of a directory and their rotation; Writer: Init,
--   write, rotate, warnOnce, Close, GetLogDir, and Writer/History: sequences of records and closings.
-- - Server: internal/server/request.go; Call: HandleToolCall; Outcomes: its
--   paths; Calls: calls of it by many goroutines, as a step
--   relation; Slots: the semaphore alone, with the calls that wait for it, to which Calls/Pool
--   reduces Calls; Sort: the order of tools/list; Private: what a call leaves of sensitive arguments.
-- - Sse: internal/sse/sse.go, the sessions and handleMessage, one call at a time; Routes: the routes and the
--   settings of StartSSEServer; Isolation: a message and the other sessions; Stream: the bytes that the stream
--   of handleSSE writes, and a client that reads them; Traffic: the streams of handleSSE, the handlers of
--   handleMessage and CloseAllSessions in any interleaving, as a step relation. In Traffic, Tracked follows
--   one session, Handlers and Kept carry a property along the steps, Clients, Matched, Accepted and Closing
--   prove theorems on all runs, and Answers the invariant of Matched.
-- - Startup: cmd/jig-mcp/main.go, initToolSemaphore, applyEnvOverrides, detectConfigDir and loadTools;
--   Startup/Main: initGlobalTimeout and main up to the point where it serves.
-- - Stdio: runStdioServer of cmd/jig-mcp/main.go, the reading loop and the goroutines as a step relation.
-- - Shutdown: gracefulShutdown and the end of main, as a step relation over that of Stdio; Serving: the same
--   over SSE, as a step relation over Sse.Traffic.
-- - Dashboard: internal/dashboard/dashboard.go; Metrics: RecordMetric, SeedMetricsFromLog, getMetrics; Logs:
--   getAuditLogs; Routes: the handlers and the settings of StartDashboard.
-- - Logging: internal/logging/logging.go, parseLogLevel, the level of InitLogging, Sanitize and Untaint.
--
-- Conventions: a Go string is the list of its bytes; a map is an association list, in any order where Go
-- walks it; an int is an integer, with the wrap of a conversion written out; a nil map or pointer is `none`.
-- State is passed on explicitly, and what the operating system, the network and the standard packages answer
-- is a parameter: a function, an outcome, or a field of Tools.Runtime, which holds what they answer during
-- one call. White space is that of Unicode, letter case that of ASCII. An operation under a mutex is one
-- step, and the steps of goroutines come in any order. All loops are structural recursion, so that no fuel is
-- needed; the runs of Stdio, and of Shutdown over it, are bounded by a measure.
--
-- Not modelled: the text of the dashboard's page (a parameter); net/http itself, so that its listener is any
-- sequence of requests, and Shutdown and TimeoutHandler, which answers for a slow handler of /message while
-- this goes on, are parameters; the parsing of the flags; what slog writes; the scripts under tools and
-- scripts, which run as processes.
mod Prelude
pub mod Value
pub mod Http
pub mod Auth
pub mod Rlimit
pub mod Config
pub mod Tools
pub mod Audit
pub mod Server
pub mod Sse
pub mod Startup
pub mod Stdio
pub mod Shutdown
pub mod Dashboard
pub mod Logging
