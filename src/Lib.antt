-- ===== src/Lib.antt =====
-- Vorn Media Server: how it acquires a movie or an episode that a library does not have yet.
--
-- An item of a library (a row of media_items) is acquired by searching the indexers, ranking the
-- releases found, sending the best to debrid providers or to Usenet, and promoting the file of
-- the first that resolves onto the row. Many goroutines do this at once, over one database. The
-- library models the Go code of the backend that does so, and beside it the scan of folders, the
-- metadata sync, the accounts, the log buffer, and the choice and the sessions of playback.
--
-- - Prelude: shared names, Boolean tests and lists on native numbers, text as lists of code
--   points, decimal digits, the stable sort.
-- - Titles, Quality: backend/internal/acquisition/quality.go. Regular expressions are scans by
--   structural recursion; ParseResolution, ParseCodec, IsRemux, ScoreAndRank, ScoreAndPick and
--   ScoreAndRankNZB keep their names in snake case. Seeders are numbers: a negative count is
--   below any minimum that is not negative.
-- - Select: the magnet hashes, duplicates and cached-first order of service.go.
-- - Filename: backend/internal/scanner/parse.go, videofiles.go and hash_detect.go.
-- - Store: the tables, and the statements on them of backend/internal/store (media_items.go,
--   acquisition.go, debrid.go, nzb.go, quality_profiles.go, libraries.go, content_requests.go,
--   acquisition_upgrades.go, metadata_jobs.go). Ids, times and dates are numbers, NULL is `none`.
--   The metadata columns are those that acquisition reads or writes. A SELECT that may find
--   several rows and does not order them is taken to return the first in the table's order, which
--   an UPDATE keeps; Postgres promises neither.
-- - Store.Prog: programs. A program changes a world: the shared tables, the turns of the other
--   goroutines, the notices sent and the goroutines started. Each SQL statement is atomic; before
--   it the others take a turn, which may change anything, and the statement may fail. A list of
--   turns is one interleaving with its faults; past its end nobody interferes. Sleeping is a turn
--   too.
-- - Remote: what is outside (TMDb, indexers, providers, NZB files, ffprobe), a record that
--   answers by the arguments of a call; nothing is assumed of the answers.
-- - Promote: backend/internal/debrid/promote.go and backend/internal/nzb/promote.go. Go ranges
--   over the map of episodes in an order of its own; the model takes the order of first sight.
-- - Resolve: AddLink, run, onComplete and CheckCached of backend/internal/debrid/service.go, and
--   the intake, callback and failure cache of backend/internal/nzb/service.go.
-- - Acquire: backend/internal/acquisition/service.go (Search, Race, Tiers, Tree, Place, Start,
--   Season) and monitor.go (Monitor). Entry lists the ways in; Kept has, operation by operation,
--   that a predicate closed under the store's changes is kept.
-- - Walker: backend/internal/scanner/walker.go. A walk is the roots not yet pushed, the queue,
--   the workers and what was emitted; an event lets the main goroutine or one worker go on up to
--   its next use of the queue. A worker in cond.Wait is asleep until a Signal (push) or a
--   Broadcast (finish) wakes it; which worker a Signal wakes is part of the event. A directory is
--   taken with what ReadDir finds in it.
-- - Scan: flushBatch and the names of files (service.go and audiotags.go of
--   backend/internal/scanner). Scan.Stage: the job's list in DragonflyDB (queue.go), the batches,
--   run, and the rows of backend/internal/store/scan.go. What arrives before a batch and what
--   fails in it is given batch by batch; past the end of that list nothing arrives and nothing
--   fails.
-- - Metadata: the rows and statements of backend/internal/store/metadata_jobs.go that a metadata
--   sync uses, the keys of the JSON column among them. Metadata.Sync: processItem, enrich, the
--   backfill and run of backend/internal/metadata/sync.go. Around each item others may change the
--   rows, the clients may be swapped and statements may fail; the year and dates are
--   acquisition's.
-- - Access: users, sessions and permissions, the store's statements on them (users.go,
--   sessions.go and libraries.go of backend/internal/store), backend/internal/auth, and the
--   handlers of backend/internal/httpapi upon them: Auth (auth_handlers.go, middleware.go, and
--   the log-ins and guards of jellyfin.go, jellyfin_auth.go, plex.go and plex_auth.go), Users,
--   Setup, Libraries, Restore (admin_backup.go and admin_backups.go; the tables that psql leaves
--   are a parameter), and Router for the routes in server.go. Paths lists the routes whose
--   handlers are not modelled, with their guards; such a handler is arbitrary, but leaves users
--   and sessions alone, which no statement outside the modelled ones writes. A request is handled
--   to its end before the next, and says which of its statements the database refuses; Races takes two
--   requests apart. bcrypt, SHA-256 and hex are a record of functions, random bytes come with a
--   request, and the texts of error messages are left out. Access.Keeps has that what the
--   statements keep, whole histories keep.
-- - Logging: backend/internal/logging/buffer.go. Its lock, and the standard logger's around
--   Write, make each call atomic, so a sequence of calls stands for the goroutines; what the
--   underlying writer returns is a parameter. A reader that takes a line out of its channel is a
--   call of its own.
-- - Transcode: Decide of backend/internal/transcode/decision.go, and the Manager of session.go
--   with the goroutine of each session as a state machine (`run_next`); which goroutine proceeds,
--   and what ffmpeg and the file system answer, are the steps of a history. The encoder and the
--   arguments of ffmpeg are left out. A session's goroutine is kept in the list after the map has
--   dropped it.
-- - Examples: tests, and every result at a concrete input.
--
-- Interfaces. Store.Closed.Closed is what a predicate owes the store to be kept by every program;
-- Store.Keeps has the rules that carry it through one. Access.Keeps.Kept is the same for a
-- predicate on the accounts. Remote.Remote is the interface to the services outside.
--
-- Bounds. A race polls at most candidate_polls (2 minutes of half seconds) or candidate_polls_nzb
-- (20 minutes) times before its deadline: the fuel of `poll` is that number, and running out of
-- it is the deadline's own branch. The polls of a refresh are an argument, since the caller's
-- context may end them sooner. A drain that nothing disturbs has one round more than there are
-- staged files. The digits of a number are drawn with fuel above the number.
--
-- Not modelled: requests to the accounts that interleave, but for the two races; goroutine
-- scheduling as such (turns stand for it), so the two tiers of runAcquire are two programs and
-- their results reach it in either order; cancelled contexts; deleting files from a provider;
-- what log lines say; what HTTP clients and ffmpeg do; ids inside error texts; Unicode beyond the
-- letters that fold into ASCII ones. Numbers do not wrap: none of the counters modelled reaches
-- 2^63.
pub mod Prelude
pub mod Titles
pub mod Quality
pub mod Select
pub mod Filename
pub mod Store
pub mod Remote
pub mod Promote
pub mod Resolve
pub mod Acquire
pub mod Examples
pub mod Logging
pub mod Transcode
pub mod Walker
pub mod Scan
pub mod Access
pub mod Metadata
