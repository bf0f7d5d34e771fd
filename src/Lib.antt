-- ===== src/Lib.antt =====
-- A verification library for batasd, a service that compiles and runs submitted programs in a
-- sandbox and judges what they print.
--
-- The parts, and how they interact. The HTTP handlers hand a request to the submission service,
-- which checks it against the language registry and the limits, stores it as `queued`, and puts its
-- token on the queue. A worker takes the token, reads the row, marks it `processing`, lets the
-- execution engine compile and run the program in a sandbox, stores the result, and posts it to
-- the callback URL. At the start of the program the rows that were left unfinished are put back on
-- the queue.
--
-- Which file models which part:
--   Common/*              Go strings as lists of bytes, int64 with its wrap-around, UTF-8, what is
--                         used of packages strconv and strings, errors as values, and code that
--                         changes a world as a function on that world.
--   Status                internal/status/status.go: the codes, Valid, Terminal, Describe.
--   Sandbox               internal/sandbox/sandbox.go: Command, Result, Runner.
--   Sandbox/Output        internal/sandbox/output.go: MaxOutputBytes and OutputBuffer. A write holds
--                         the mutex throughout, so the writes of several goroutines are a sequence.
--   Sandbox/Process       what the three drivers ask of the operating system, as operations on a world
--                         of any type, how a process ends, and the result they all start from.
--   Sandbox/Isolate       internal/sandbox/isolate/isolate.go: Isolate/Args has the arguments,
--                         Isolate/Meta the meta file, Isolate/Run the steps of Run with its deferred
--                         calls, and Isolate/Pool the channel of box IDs, which concurrent runs
--                         change one at a time, as the relation Step.
--   Sandbox/Docker        internal/sandbox/docker/docker.go: the arguments and the steps of Run.
--   Sandbox/Direct        internal/sandbox/direct/direct.go: Run.
--   Submission/Model      internal/submission/model.go: the records.
--   Submission/Backend    its Repository and Queue interfaces, with the clock and url.Parse.
--   Submission/Response   internal/submission/response.go: the public shapes of a submission;
--                         Response/Json has the members that a Response is encoded to.
--   Submission/Limits     internal/submission/service.go: validateLimitOverrides, mergeLimits,
--                         mergeLanguageLimits.
--   Submission/Service    the same file: Create, Get, WaitForCompletion, List, ListCallbackAttempts;
--                         Service/Checks has the checks in their order, Service/Token newToken.
--   Language              internal/language/registry.go: LoadCatalog, List, Get, Resolve.
--   Execution/Tokens      internal/execution/engine.go: validateTokens and appendArgs.
--   Execution/Aggregate   the same file: runCount and runAggregate.
--   Execution/Judge       the same file: the ladders of tests behind a compile and a run, and the
--                         results that they report.
--   Execution/Paths       the same file: safeZipTarget, with path.Clean and filepath.Abs.
--   Execution/Archive     the same file: extractAdditionalFiles and extractZipFile.
--   Execution/Engine      the same file: Engine.Run, from the look-up of the language to the removal
--                         of the execution directory.
--   Execution/Machine     what the engine calls outside the program: the file system, the clock, the
--                         sandbox, base64 and zip decoding, as operations on a world of any type.
--   Config                internal/config/config.go: Validate and validateDefaultLimits;
--                         Config/Load has Load, on an environment that is a function.
--   Queue                 internal/queue/memory/queue.go: the pieces of its calls that nothing comes
--                         between, as functions, and what can happen next as the relation Step.
--   Store                 internal/repository/postgres/submissions.go: each statement as a function
--                         on the rows of its table; Store/Listing has List and its pages,
--                         Store/Attempts ListCallbackAttempts.
--   Worker                internal/worker/worker.go: process, with internal/callback/callback.go:
--                         Deliver.
--   Worker/Loop           internal/worker/worker.go: Run, on what the queue gives it.
--   Worker/Monitor        internal/worker/monitor.go: the marks, the public state of a worker and
--                         the sorted Snapshot.
--   Api/Fields            internal/httpapi/submissions.go: parseSubmissionFields, with
--                         ValidResponseField of internal/submission/response.go.
--   Api/Answers           internal/httpapi/respond.go, and the mapping of errors to answers that the
--                         handlers share.
--   Api/Auth              internal/httpapi/auth.go: bearer tokens.
--   Api/Submissions       internal/httpapi/submissions.go: the handlers, from the parts of a request
--                         that they read to the answer that they write.
--   Api/Router            internal/httpapi/router.go: the routes and publicConfig.
--   Migrations            internal/migrations/runner.go: Run and runOne.
--   Startup               cmd/batasd/main.go: recoverUnfinishedSubmissions and the choice of a driver.
--   Tests                 runs on concrete inputs, and each result applied to such a run.
--
-- Bounds and fuel. Integers of 64 bits wrap around where the code computes with them. A string's
-- digits are printed by as many rounds as the number has units, which is more than its digits. The
-- rounds of WaitForCompletion take fuel, and the result on them says how much is enough; the Create
-- handler takes the same fuel. The float64 arithmetic of millisecondsAsSeconds is written out with
-- its rounding: 11 halvings bring an int64 below 2^53, and at most 62 doublings keep a thousandth
-- there, so the 11 and 63 rounds given are enough. All other loops are recursion on what they go
-- through.
--
-- Not modelled: processes, pipes, files, the clock and the context of a call, which are operations
-- on the world; the parsing of a float in the meta file, the quoting and the formats of times and
-- JSON, which are parameters; the matching of paths by the router, its middleware and the reader that
-- limits a body, whose error is one of the outcomes of decoding; the connection to the database and
-- its failures, but for the insertion of a callback attempt, which Deliver reports; signals, wiring
-- and shutdown in main; logging. The statements of the repository are taken one at a time, as the
-- database runs them, and a row has the times that the statement was given: what a column keeps of a
-- time is a parameter where it matters, in Worker/Payload.
pub mod Common
pub mod Status
pub mod Sandbox
pub mod Submission
pub mod Language
pub mod Execution
pub mod Store
pub mod Api
pub mod Config
pub mod Queue
pub mod Worker
pub mod Migrations
pub mod Startup
pub mod Tests
