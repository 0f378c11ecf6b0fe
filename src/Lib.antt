-- ===== src/Lib.antt =====
-- ClinePassBridge: a plugin that puts Cline Pass accounts behind a CPA host. This library models
-- parts of the Go package internal/bridge and what makes them correct. A request runs through the
-- parts in this order: the rate limiter admits it for a credential and model; the egress pool
-- gives it a proxy; the response's bytes go through the decoder of server-sent events under a
-- watchdog; an error becomes a fault, whose policy says what the host may do next, and which
-- closes the limiter's window or cools the proxy's group. The request's tools are completed by
-- rules, and its outcome goes to the request log.
--
-- Base: the names that all modules share, Boolean tests, lists, texts as lists of bytes or code
-- points, and maps behind their laws. Json: decoded JSON values (internal/bridge/types.go).
--
-- Faults (internal/bridge/error_policy.go, types.go, upstream_error.go,
-- upstream_response_error.go): a Go error is a Fault, an APIError, an upstreamError around one,
-- or any other error. Faults.Policy is faultIdentity and faultPolicyFor, Faults.Rules is
-- hostFaultPolicy over the configured rules, Faults.Ownership what the baseline policies have in
-- common. The regular expressions and Unicode case mapping they call are fields of FaultLib.
--
-- RateLimit (internal/bridge/rate_limit.go, stream_error_details.go: finishRequestRateLease):
-- rateLimiter, its windows and leases. Pointers to windows and leases are references drawn from a
-- counter, so that the code's pointer comparisons are comparisons of numbers. RateLimit.Step is
-- one call as a step on the window of one key, and runs of calls; Spares is about the calls that
-- do not end a lease, Carry about what a run of calls carries along; Admission, Probe, Recovery,
-- Lasting, Reopening and Refusal are about what a caller sees.
--
-- Egress (internal/bridge/egress_pool.go, egress_config.go): egressManager's groups. Groups are
-- never deleted, so a lease names its group in place of a pointer. A round of the admission loop
-- is admit; acquire is the loop over the events that wake it, with the manager as other calls
-- have left it at each round. Run is sequences of calls with the leases that are out, Budget the
-- sliding minute of one group, Scan and Order the limits, Refusal the coverage of the candidates,
-- Count the requests out, Leases the refund, Choice the pinned proxies. Parse is the check of a
-- decoded configuration, and Accepted and Names what an accepted one satisfies. net/url and
-- SHA-256 are fields of UrlLib.
--
-- Quota (internal/bridge/quota.go): the pauses of credentials whose plan is used up. The
-- credentials are a list in the order of their identifiers, in which the code sorts what it takes
-- from its map; a map of limits by type is a list in the order in which the code sorts it at the
-- end. Usage is what a sample or an error does to a group's pauses. Covers and Merge are about
-- the merge of blocks, Groups about the keys that share a pause, Recovery about the samples that
-- end a pause and Exhausted about those that begin one. The write of observeQuotaUsage to the
-- usage cache is left out. Store is how a group is saved, in memory first and then file by file,
-- with the end of every write as an argument, and Closed is about failing writes. A float64
-- percentage is a sign with a fraction, an infinity or not a number. The key's hash, the usage
-- cache and the case folding of names are fields of QuotaLib.
--
-- Sse (internal/bridge/sse.go: SSEDecoder): Feed and End. The loop over the lines of the buffer
-- is structural recursion over its bytes. The caller's emit acts on a state of its own.
-- strings.TrimSpace is a field of SpaceLib.
--
-- Stream (internal/bridge/stream_idle.go: streamReadWatchdog): the deadlines, emissions and the
-- turns of the timer's loop, with the clock, the shutdown and the request's context as arguments
-- of each call.
--
-- ServerTools (internal/bridge/server_tools.go): the tools that the bridge declares for a model.
-- Glob is the matcher's loop, on the rests of pattern and model in place of indices; Fits is a
-- relation between patterns and models, Matching compares the loop with it, Ending is about the
-- loop's end. Rules is the check of a rule and applyServerTools. Own says what the tools and
-- functions of a request are, without the code's collecting loop; Added is about the loop that
-- appends, New about what it appends, Provided about what the rules ask for, and Request about
-- the request as a whole.
--
-- Routing (internal/bridge/executor.go: applyProviderRouting, custom_routing.go,
-- official_routing.go, types.go, routing_fallback.go): the routing fields of a request, from the
-- configuration and the caller's hints. Fallback is the second attempt of a request whose routing
-- the upstream rejects; the upstream's answers are arguments. Hints is what is sent under each
-- policy, Policy who decides it.
--
-- RequestLog (internal/bridge/request_log_store.go, observability.go, service.go: appendLog,
-- configure): the entries of requests, the merge of entries that a closed window skipped, and
-- their journal. Store is the events and what each does to the entries, Writing the journal and
-- the snapshot as bytes of files, with the end of every system call as an argument, Load what a
-- restart reads; Merging, Replay and Queued are about a merge and its event, Lines, Torn and
-- Written about bytes, Steps and Passed about the replay, Durable, Appending, Saving and Pending
-- about what every write keeps, Crash, Recovered and Settled about runs of calls. encoding/json
-- is a field of StoreLib, with the entries that it gives back unchanged, but for unexported
-- fields, as a predicate.
--
-- Pricing (internal/bridge/pricing_schedule.go): the peak hours of a supplier and the reference
-- price of a request over them; Hours is about the loop. The calendar is a record of the time
-- package's fields.
--
-- Integers are natural numbers: times are nanoseconds after Go's zero time, and the code
-- compares, adds and subtracts them only where the result is not negative. The integers that the
-- code tests for a sign are signed (Base.Int): the durations and the completed tokens of a log
-- entry, and the numbers of a decoded configuration. The limiter's epoch wraps at 2^64 as in the
-- code. Three definitions need fuel: the decimal printer, which is given one more round than its
-- number, and the glob matcher, which is given (|model| + 1) * (|pattern| + 1) rounds: a star
-- takes one byte of the model more at each return to it, and between two returns the pattern gets
-- shorter; and the loop over the hours of a price, which is given 25 rounds for at most a day.
-- Locks are not modelled: an operation holds its lock throughout, so that an interleaving of
-- callers is a sequence of operations, and a wait between two rounds is an arbitrary state of the
-- pool. The one exception is persistQuotaCredential, which releases mu while it writes the file.
-- Its two halves are modelled with any change of the store in between (persist_around), and the
-- save of a group with none: such a save holds credentialMu throughout, as the other writers of
-- the credentials do except for the host's watcher (parseAuth), whose calls during a write are
-- left out of the properties.
--
-- Not modelled: the executor's attempts, the contents of the credentials' files, statistics,
-- estimates, the other body rewrites, affinity and scheduling, the management console, the
-- service's life cycle; HTTP clients, files, goroutines, channels and diagnostics' counters,
-- which are I/O or scheduling; the C interface of cmd/passbridge.
pub mod Base
pub mod Egress
pub mod Faults
pub mod Json
pub mod Pricing
pub mod Quota
pub mod RateLimit
pub mod RequestLog
pub mod Routing
pub mod ServerTools
pub mod Sse
pub mod Stream
