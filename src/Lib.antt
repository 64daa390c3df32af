-- ===== src/Lib.antt =====
-- The rate limiter of promise-them-nothing-twice: a Go relay that answers GET /ping for
-- customers with a quota of requests each minute, on several nodes without a shared store.
-- Paths below are relative to submissions/Shreesh-Sree/promise-them-nothing-twice/solution/.
--
-- The parts. A request carries a customer's name. The policy (internal/policy) resolves it to
-- a limit, the contract's or that of an override in force, and writes an audit event
-- (internal/audit). The node's coordinator (internal/coordinator) turns the global limit into
-- the node's own share and asks a GCRA limiter (internal/ratelimit) to decide. The node's start-up
-- (cmd/relayapi) puts these together. The load harness (cmd/harness) judges a running cluster by
-- the responses that it observes.
--
-- Which file models which part:
--   Base          tests on numbers and names, lists over the native numbers, association
--                 lists for Go's maps, integers for Go's signed int, ceiling division, the
--                 interfaces to Go's float64 and sort.Slice (Go), strings.Split and its kin
--                 on native text (Text)
--   Ratelimit     internal/ratelimit: Gcra (Params, decide), Store (store, shardFor,
--                 withTAT), Limiter (NewLimiter, AllowAt); under Gcra the proofs on decide:
--                 Laws (what one decision does), Pacing (histories of one customer), Answers
--                 (RetryAfter, Remaining), Demux (many customers in one history)
--   Coordinator   internal/coordinator: the types of coordinator.go; Static (static.go) with
--                 its proofs in Static/; ShareGcra (share_gcra.go) with its proofs in
--                 ShareGcra/; Peer (peer.go: one node, NewPeer, Allow, status and apply-share),
--                 with Peer/Split (proportionalSplit), Peer/Round (applyShare and the two
--                 phases) and Peer/Tick (polls, smoothing, rebalanceCustomer), and the proofs
--                 in Peer/Fence, Peer/Split/Total, Peer/Round/ (Safety: what a round may leave;
--                 Progress and Stall: when it gets anywhere) and Peer/Tick/ (the same for a
--                 rebalance with its number; Polls: what the answers say; Frame and Apart: what the
--                 rebalance of one customer leaves alone of the others; Whole: a tick);
--                 Peer/History (a node while calls, instructions and polls come in, and its
--                 Cluster) rests on ShareGcra/Shrinks (a share whose quota is changed);
--                 FixedWindow (fixedwindow.go) with FixedWindow/Boundary and Minute
--   Policy        internal/policy: Config (config.go: Validate, lookup, contractedLimit,
--                 parseTimeOfDay), Resolver (resolver.go: Resolve, Reload, activeAt) and the
--                 audit event of internal/audit; Result (checks that stop at the first
--                 error), and proofs in Customers, Overrides, Windows, Validate, Limits;
--                 Reload (reload.go: WatchSIGHUP; devclock.go: NewClockFromEnv)
--   Httpapi       internal/httpapi/server.go: handlePing and its headers over an interface for
--                 the coordinator, and the proofs on its answers in Httpapi/Answers; Serve (a
--                 node over the static strategy while requests and SIGHUPs come in) and Cluster
--                 (three of them) join the parts; Peers and Peers/Cluster do so for the peer
--                 strategy
--   Relayapi      cmd/relayapi: main up to the HTTP server, newCoordinator, splitCSV and the
--                 readers of the environment; proofs in Peers and StartUp
--   Harness       cmd/harness: Client (client.go: Record, doRequest), Analysis (analysis.go),
--                 Report (report.go: the rows and the verdicts), CrossCheck (crosscheck.go),
--                 Scenarios and Minutes (scenarios.go), Contracts and Main (main.go), Offer
--                 (client.go: Offer as a system of its loop, its workers and its collector),
--                 Report/Print (what report.go prints); proofs in Analysis/, Minutes/, Offer/,
--                 Verdicts, Batch, Contracts, Main
--   Tests         in each part: concrete runs and the witnesses of the results
--
-- How state corresponds. A method that mutates its receiver is a function that takes the state
-- and returns the new one. A Go map is an association list in which a write replaces the
-- entry. A division by zero, Go's panic, is none. A method under a mutex is one step, and a
-- history is a list of such steps in the order in which the mutex lets them through, so every
-- interleaving is a list. Instants and durations are counts of nanoseconds on the native
-- numbers and do not overflow: Go's time.Time would after centuries. Where the code computes a
-- duration from a text that a user writes, the end of an override's window and the offset of
-- the shifted clock, the duration is Go's int64, with its wrap-around and the bound that
-- time.Until keeps to. The sum in nodeShare would wrap in Go for a limit within the node count
-- of 2^63, which is left out. Time zero is Go's zero time, which comes before every arrival.
-- What the network does with a message of the peer protocol is an argument: malformed, lost, applied without an answer in time, answered in a
-- body that does not decode, or answered; the proposer and its peers form a Cluster. All
-- recursion is structural, on lists, so no fuel is needed.
--
-- The harness's scenarios are functions of what was observed: the limit that the probe read and the
-- records of the offered requests. A note of the report is its kind with its numbers.
--
-- Parameters of the model, for code outside of the repository: the hash FNV-1a of the standard
-- library (any function on names), time parsing and calendar days (the record TimeLib),
-- float64 and sort.Slice (the records Floats and Sorting), reading and decoding the YAML file
-- (a result handed to reload), the process's environment with strconv and time's parsers (the
-- record Process), what docker prints and the text of an instant (arguments of the cross-check).
--
-- Offer is a step function on the state of its channels and goroutines, and a schedule is a list of
-- moves; a move that is not possible is none. The ticker's promise, that the k-th tick is not sent
-- before k intervals have passed, is part of the step.
--
-- Not modelled: HTTP transport and JSON, the child processes of the harness, the formats of the
-- lines that it prints, the parsing of flags, the delivery of signals and the shutdown, the system
-- clock, log output.

pub mod Base
pub mod Coordinator
pub mod Harness
pub mod Httpapi
pub mod Policy
pub mod Ratelimit
pub mod Relayapi
