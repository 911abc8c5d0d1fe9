-- ===== src/Lib.antt =====
-- Verification of arbetern (SeemplicityDev/arbetern), the Go runtime of a fleet of AI agents.
--
-- The replicas of arbetern share no database and no broker: all durable state is JSON objects in
-- one S3 bucket, and replicas coordinate by conditional writes. The development follows that
-- design: the bucket and its conditional writes first, then what is built on them, then the pure
-- guards beside them.
--
--   Base         numbers, tests, lists; `time.Time` and `time.Duration` in nanoseconds
--   Store        internal/store: Client (the S3 client, a parameter with laws), Backend (Get, Put,
--                Delete, GetJSON, PutJSON), Merge (Merge), Lease (claim, Acquire, renew, release)
--   Queue        internal/queue: Options (withDefaults, the retry backoff), Task (claimAndRun,
--                retry, drop), Delivery, Attempts and Interleaving (when and how often a task runs)
--   Journal      internal/journal/journal.go: Entry (entries, limits, refuse), Handle (Begin,
--                NoteSideEffect, beat, Done), Recovery (recoverOne, Recover), Starts, Marked, Marks and
--                Resumption (what a start, a holder's write and the sweep guarantee)
--   Projects     projects: Memory (the notes of a project), Review (the records of rounds.go and
--                automerge.go), Ledger (the records of ledger.go, look-ups and capacity) with
--                Compaction (compact, trimTracks), Lifecycle (addTask, markRunning, failTask,
--                reportNoFix, beginOpening), PullRequest (openPR, mergePR, closePR, tickets,
--                repositories), Verdicts (recur, resolve, resolveDue, sight), Sessions (the
--                ends of sessions, bindings, transcripts), Upkeep (reconcile, reconcileJobs, pinRepo,
--                expireTasks), Backlog (pick, backlog and the other look-ups) and Events (the
--                operations as the steps of one machine); Rounds (addRound, roundRunning,
--                failRound, the guard of a report) with Reports (finishRound, roundEnded), Watching
--                (observe, markReady, markDone), Deciding (needsRound, readyFor of review.go),
--                Upkeep (reconcileRounds, unbindRounds) and Machine (the operations on one review as
--                the steps of one machine); AutoMerge (the operations on the auto-merge state) with
--                Changes (readChanges and its walks, appendLineage), Approvals (approvals, approver)
--                and Turn (mergeLedger, mergeNow) with Delay (autoMerge, keepUpToDate) and Follow
--                (followAutoMerge, withdrawAutoMerge); Advance (finishReview, stopFollowing,
--                advanceReviews of review.go) with Reading (ciState); the other modules below them
--                hold proofs
--   Text         internal/text/text.go: truncation on rune boundaries
--   TtlCache     internal/ttlcache/ttlcache.go: a value with a time to live, kept across failures
--                and Keyed (keyed.go), a map of such values with one fetch for all callers of a key
--   SqlGuard     internal/sqlguard: the tokenizer and the read-only check
--   Llm/Breaker  llm/breaker.go: the circuit breaker of an endpoint
--   Tests        runs on concrete inputs, with a bucket in memory that keeps to the S3 laws
--
-- How the code is modelled. A method is a function from its state to its result and the new state;
-- a method that runs under a mutex is one step. What `time.Now()` returns is an argument. A time
-- is a number of nanoseconds since Go's zero time, so that 0 is `time.Time{}`; a difference of
-- times stops at 0, which no test on it can tell from a negative duration. Between two calls of
-- the bucket by one operation other replicas may do anything: those are the arguments `meanwhile` and
-- `between`, functions on the state of the bucket. The S3 client is the record `Client` with the laws
-- `IsS3`: strongly consistent and atomic operations, entity tags without their quotes that tell two
-- bodies apart, bodies that fit into the limit of a read (`maxBodyBytes`), and requests that may fail
-- at any time, with or without having been carried out. `json.Marshal` and `json.Unmarshal` are a
-- `Codec` with a round trip, which the documents have as long as their text is valid UTF-8 and a raw
-- payload is compact. Loops recur on their input, or on the attempts that are left; only the loop of
-- Memory.add takes fuel, one turn for each note, which is enough since a turn removes a note. Go's maps
-- are association lists. Log lines are left out.
--
-- Not modelled: the HTTP clients of the integrations, the Slack and console front ends, the
-- prompts, and what only formats text.
pub mod Base
pub mod Llm
pub mod SqlGuard
pub mod Store
pub mod Projects
pub mod TtlCache
pub mod Text
pub mod Queue
pub mod Journal
pub mod Tests
