-- ===== src/Lib.antt =====
-- gh-audit fetches the commits of an organisation's repositories from GitHub, enriches each with its
-- pull requests, reviews and check runs, decides whether it was reviewed as the policy asks, and
-- stores and reports the verdicts. This library models the part that decides, and the sync of a
-- repository around it, down to the rows of the database.
--
-- Parts of the program, and their files here:
-- - internal/model/types.go, the records that pass between the parts: Model. A record keeps the
--   fields of the struct, in snake_case; `kind` is the field Type. Model/CoAuthors has ParseCoAuthors
--   and LoginFromNoreplyEmail.
-- - internal/github/merge.go, the classifier of merge commits and the parser of "(#123)":
--   Github/Merge.
-- - internal/github/revert.go: Github/Revert has the parsers of messages and branch names and the
--   look-up of the reverted commit, Github/Diff the comparison of two diffs.
-- - internal/github/caching.go, the look-ups behind the enrichment of a commit: Github/Caching has the
--   state, its child Fetch the look-ups with their caches, Links the pull requests of a commit,
--   Classify the classification of reverts and merges, Enrich a whole commit, with its look-ups one
--   after another, and a batch of them.
-- - internal/github/tokenpool.go, the pool of API tokens: Github/TokenPool has the pool and its
--   operations, its child Pick the choice of a token and the wait for one, Limits what a response
--   says about a token, RoundTrip one request with its retries and its moves to other tokens.
-- - internal/config/config.go: Config has the configuration and its defaults, its child Validation
--   what Load accepts, Loading what the audit may rely on in it; internal/config/fingerprint.go:
--   Config/Fingerprint.
-- - internal/sync/audit.go, the rules: Audit/Types has its types and small helpers, Audit/Exempt rule
--   1, Audit/Reviews and Audit/Refresh rule 4, Audit/Contributors rule 5, Audit/Checks rule 6,
--   Audit/Glob the branch patterns, Audit/Pr evaluatePR, Audit/Finish the three finishing functions
--   and Audit/Evaluate EvaluateCommit. A function keeps its name in snake_case. Where a loop of the
--   source is a function of its own, its name ends in _loop, and one round of it in _step.
-- - internal/sync/annotations.go: Audit/Annotations.
-- - internal/db, the tables: Store/Table has the merges of rows that appender.go does, Store/Rows the
--   tables and their keys, Store/Commits, Store/Prs, Store/Audits and Store/OrgRepos the operations of
--   the files named alike, and in Store/Audits also those of cursor.go, history.go and auditrun.go.
-- - internal/sync/pipeline.go: Pipeline/Batch has writeEnrichmentBatch, Pipeline/Fetch what fetches
--   the new commits of a branch, Pipeline/Branch the sync of a branch, which calls both, EvaluateCommit
--   and the tables, and Pipeline/Run the choice of the repositories and their sync. Pipeline/Sync
--   says what a part of a run is.
-- - internal/sync/dbwriter.go: Pipeline/Writer has the queue of writes, the goroutine that serves it
--   and its callers, as a relation between states.
-- - internal/sync/history.go, the moves of a branch's head: History. What GitHub documents of its
--   comparison is the record Documented, a hypothesis; the store's write is a parameter.
-- - internal/report/report.go: Report has the row that the reports read; internal/report/rules.go,
--   the decision matrix and the actions: Report/Rules.
-- Modules below a component prove what it does, and are named for what they prove. Text has the part
-- of the Go packages strings and strconv that these files call, Prelude the shared tests, list
-- functions and lemmas, Tests the runs.
--
-- How the model stands to the source:
-- - A string is the list of its bytes. ToLower and EqualFold are modelled on ASCII letters, which are
--   all that logins, check names and states hold, and TrimSpace on ASCII spaces. `%q` escapes the quote
--   and the backslash only.
-- - A time is the number of nanoseconds since Go's zero time, so IsZero is a comparison with 0. Ids,
--   counts and line numbers are natural numbers, as GitHub sends them.
-- - A map is an association list in the order in which its keys came. Go leaves the order of a range
--   open; the map of branch commits is an arbitrary list, so what is shown holds in every order.
-- - StatsFetcher, a callback into the GitHub client, is a parameter: an optional function to an
--   Outcome, where `none` is nil and `failed` an error. It stands for any such function, and its
--   answers depend on its arguments alone. The same goes for lookupPR.
-- - Rules has the parameters of EvaluateCommit that a run shares; the options are fields of it.
-- - The regular expressions are matchers by hand: a prefix, a search for the leftmost match, a run of
--   forty hexadecimal digits, a run of decimal digits, and for the trailer of a co-author the shortest
--   name before an address.
-- - A function that changes its argument returns it with its result.
-- - The token pool counts instants and durations in whole seconds, which are not bounded, and reads
--   the counts in headers without a minus sign, as GitHub sends them. A pointer to a token is its
--   position. The transports, the sleep, the context and http.ParseTime are parameters; a request has
--   the pool for itself, so that a slot that is not free stays taken until the context ends. Pick runs
--   on pick_fuel, a round for each of the two instants that a token can wait for and one to choose.
-- - The enricher is modelled for one repository, so that a key of a cache is the rest of the key. The
--   client and the store are parameters, whose answers depend on their arguments alone during a run,
--   and one call runs at a time; the durations are left out. The look-up of a pull request in the
--   classification of a revert is a parameter, as it is in ResolveRevertedSHA.
-- - A table is the list of its rows, found by their keys; a query or a statement is what its SQL
--   says, with ORDER BY as a sort that keeps the places of equals. A column holds the zero of its
--   type where it is NULL and read so by COALESCE, and gives back the number or the time that was
--   written to it; what the database makes of a value beyond an INTEGER, or of a time finer than a
--   TIMESTAMP, is a parameter of the round trip of a commit (Store/Commits/RoundTrip). A statement
--   takes effect as a whole or not at all; that a merge into a row with lists deletes and inserts
--   in two statements is left out.
-- - A part of a run has the number of statements that can still take effect, counts it down, and ends
--   at the first that does not, be it an error or the death of the process. A query succeeds. A write
--   that is logged only goes on behind its error, with no statement left. The syncs of a run have a
--   number each, so that one can fail and the others go on, or be cut short. The repositories, the
--   branches of one and the slices of an enrichment run one after another; GitHub and the enricher
--   are parameters, the clock is one instant for a run, and a duration behind it is a difference that
--   stops at 0.
-- - The queue of writes has a step for a send, for the receipt of a request and for its answer, for
--   Close and for the end of the loop, and a schedule is any sequence of them. No send follows Close,
--   as its comment asks. The timer of Close, and the wait of a caller for its answer, which may end
--   with its context, change nothing in the queue and are left out. In a part of a run a write is
--   the list of its statements, which take effect one after another.
-- - The configuration's file, its YAML, the home directory, filepath.Join, JSON and SHA-256 are
--   parameters. Each error of validate is a constructor with the values that its text shows.
-- - globMatch runs on scan_fuel, (|s| + 2)(|s| + |pattern| + 2) rounds, which are enough since
--   each either takes a byte or moves the mark. The walk of postApprovalByGraph has the source's own
--   bound, a round more than there are commits, which is enough since no path passes a commit twice.
--
-- Not modelled: the GitHub client (internal/github/client.go), the transport that sets the bearer
-- header and the loggers, the progress display of the pipeline
-- (internal/sync), the opening and the migrations of the database (internal/db), the queries and
-- renderings of the reports (the rest of internal/report) and the commands (cmd). They are input and
-- output around the rules and the tables.
mod Prelude
pub mod Text
pub mod Model
pub mod Github
pub mod Audit
pub mod Report
pub mod History
pub mod Config
pub mod Store
pub mod Pipeline
mod Tests
