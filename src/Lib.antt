-- ===== src/Lib.antt =====
-- codex-auth-broker: a verification library of the broker, a Go program that lets several clients
-- share several Codex accounts. All paths are from the repository's root.
--
-- How the parts interact. A request is authenticated (keys.go), admitted (server.go) and waits for
-- a slot (limiter.go). Its body is normalized (proxy.go, util.go, pricing.go), and the failover
-- loop (dispatchUpstream of proxy.go) picks an account of the pool (accounts.go), takes out a
-- service tier that the account's catalog does not list (service_tiers.go), builds the upstream
-- request and sends it. On a 429 it derives a cooldown from the response (deriveCooldown), benches
-- the account and goes on with another. A streamed answer is read event by event (sse.go): it is
-- handed on as it is, gathered into one response (proxy.go), or translated for a client of chat
-- completions (chat_completions.go), whose requests are translated on the way in. What is logged
-- or mirrored of headers and errors is redacted first (util.go, proxy.go), and each request is
-- written to a log file (requests.go, persist.go). A live call (realtime.go) is held in a registry
-- of its own.
--
-- Files, and what they model:
--   Limiter: limiter.go. The channel `slots` is the pair in_flight and max, the atomic `queued`
--     a number; enter, wake and release are the steps of acquire and of the function it returns.
--     Limiter/System has any number of callers as an indexed step relation, Limiter/Upstream the
--     failures of acquireUpstreamSlot. Failure is dispatchFailure of proxy.go.
--   Accounts: the pool of accounts.go (available, cool, probeDue, clearCooldown, pick,
--     preferred, soonestReset, availability), an account being an index. Accounts/Probe has the
--     calls of other requests as a list of steps.
--   Cooldown: deriveCooldown of accounts.go and all that it calls.
--   Sse: sseFramer and readSSE of sse.go. A feed ends in a framer and a consumer's state, or
--     stops with an error; Sse/Events has the wire format, Sse/Consumers what a consumer keeps
--     true, and Sse/Together what two consumers of the same stream have in common.
--   Streaming, Aggregate: copyStreamingResponse with sseUsageTracker, and aggregateResponsesSSE,
--     of proxy.go. Streaming/Noted has a second reader of the same stream to compare with. Usage:
--     the token counts that they read.
--   Chat: what the parts of chat_completions.go share. Chat/Request:
--     translateChatCompletionsBody, by the messages, tools and options of a request. Chat/Stream:
--     chatStreamTranslator and copyChatCompletionsStream; a method returns the translator and its
--     error, and the frames that were delivered are kept in the translator. Chat/Stream/Protocol
--     has the order of frames as an indexed relation.
--   Relay: safeErrorAttributes of proxy.go; Relay/Envelope: summarizeUpstreamError and
--     normalizeUpstreamErrorBody.
--   Keys: keys.go, with the gate dashboardAuthStatus of dashboard.go in Keys/Access.
--   Server: serverRequests of server.go; Live: liveCallStore of realtime.go.
--   Body, Routing: util.go's stringField, and buildUpstreamRequest of proxy.go with its headers,
--     and in Routing/Client normalizeCodexRoutingHint of proxy.go.
--   Models, Normalize: normalizeResponsesBody of proxy.go and all that it calls.
--   Tiers: accountSupportsTier of service_tiers.go, and in Tiers/Listing what it means that a
--     catalog lists a tier. Dispatch: dispatchUpstream of proxy.go, and the Retry-After header of
--     writeDispatchFailure in Dispatch/Relay.
--   Redact: redactTokenLikeText of util.go; Redact/Headers: diagnosticUpstreamHeaders of
--     proxy.go.
--   Log: collectRequestLogEntries of persist.go, with a ring as the list and its place; in
--     Log/File append, repairTail, compact, clear and the readers of persist.go; and
--     sanitizeBrokerUser and requestLogStore of requests.go, for entries that have been sanitized
--     and priced.
--   Prelude: numbers, lists, texts, JSON values and times that the others share.
--
-- Conventions. Texts are lists of bytes, on which TrimSpace, ToLower and EqualFold act as on
-- ASCII. A time.Time is the number of nanoseconds since Go's zero time, a time.Duration that may
-- be negative an integer; Sub saturates as in Go, and the addition of a duration to a time is
-- exact. A float64 is a sign, a mantissa and an exponent, converted to an integer as on amd64. A
-- Go map is the list of its entries in the order of the iteration. What is mutated is passed on
-- and returned; a method that holds its mutex throughout is one step; so are pick, which holds the
-- mutex of the pool but takes that of each account anew, and the first select of acquire together
-- with the count of the callers that wait. The clock, files, HTTP answers, tokens and catalogs of
-- accounts, and the parsers and printers of the standard library (JSON, dates, numbers, UTF-8) are
-- arguments; so is which write to a client is delivered and which call on a file fails. Every loop
-- is structural: over its list, over the number of rounds that the source counts, for the failover
-- loop over the number of accounts of the pool, for the search of a line's start over the bytes of
-- the file, of which each round passes one at least, and for the digits of a number over the
-- number. Log lines are left out.
--
-- Not modelled: the commands, flags and the listener (main.go, doctor.go, serveHTTP), which are
-- I/O; pages and scripts; refreshing of tokens and file locks (auth.go, lock_common.go,
-- lock_other.go, lock_posix.go); prices and usage reports (pricing.go but for model families,
-- costs.go, usage_summary.go, usage_by_user.go); the fields of a logged request (requests.go); the
-- answers to chat completions that are not streamed, and the handlers of chat completions
-- (chat_completions.go); the relays of WebSockets, images and searches (websocket.go but for
-- header tokens, images.go, alpha_search.go, capabilities.go).
pub mod Prelude
pub mod Failure
pub mod Limiter
pub mod Accounts
pub mod Cooldown
pub mod Sse
pub mod Body
pub mod Tiers
pub mod Routing
pub mod Dispatch
pub mod Keys
pub mod Redact
pub mod Models
pub mod Normalize
pub mod Server
pub mod Live
pub mod Log
pub mod Usage
pub mod Relay
pub mod Chat
pub mod Aggregate
pub mod Streaming
