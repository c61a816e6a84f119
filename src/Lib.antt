-- ===== src/Lib.antt =====
-- grepod: the tailing, storage and search of Kubernetes pod logs.
--
-- The program tails every container of a namespace and keeps the lines in one SQLite file for each
-- day. A line comes into being in `ingest` (internal/tailer/manager.go), goes to the batch queue
-- (internal/storage/queue.go), which writes it to its shard in batches, and to the broadcaster
-- (internal/storage/broadcast.go), which hands it to live subscribers. `Search`
-- (internal/storage/sqlite.go) reads the shards, a page at a time; the handlers of
-- internal/api/handler.go offer that search, pick-lists and a live tail over HTTP.
--
-- Prelude: what the other modules share. Prelude/Texts: strings as lists of code points, with the
-- operations of package strings; Prelude/Decimal and Prelude/Base64: strconv and encoding/base64;
-- Prelude/Maps: maps as association lists; Prelude/Sorting: ORDER BY. Signed integers that may be
-- negative are Prelude/Int; all else that the code counts is a natural number.
--
-- Metrics: internal/metrics/metrics.go. A counter is a number, a histogram the list of what it observed.
--
-- Storage: internal/storage.
--   Line: LogLine; a time is a number of nanoseconds since Go's zero time.
--   Queue: queue.go. NewBatchQueue is `new_batch_queue`, Enqueue `enqueue`, Close `close`. The
--     goroutine `run` is a program counter `phase`; the cases of its select are `receive`, `flush` and
--     `shut`, and a round of drainChannel with the last flush `drain`. `run` follows a schedule of
--     such steps, given from outside: every interleaving of the tailers, the ticker and the owner is a
--     schedule. A send on a full channel is seen as the select sees it. The store is a parameter
--     `insert_batch`, which is given the timeout of its context; Queue/Pipeline puts the store of
--     Insert there.
--   Broadcast: broadcast.go. Channels are numbers in a heap, since the map of subscribers and the reader
--     share them. A send on a closed channel and a second close panic, which is none. Deleting a
--     subscriber and closing its channel are one step.
--   Level: severityOf and levelsAtOrAbove of sqlite.go. Snippet: escapeSnippet. Match:
--     sanitizeMatchQuery. Shards: existingShardDates, with fuel for one round more than there are days up
--     to the end. Dates: the text of a date and the alias of a shard, up to the year 9999, time.Parse with
--     dateLayout (Parse), and days before year 1, which are negative (Days). Times: RFC3339Nano in UTC.
--   Insert: getOrOpenDB, migrateLegacySchema, InsertBatch, closeShard and Close. A file is named by its
--     day, and SQLite's refusals are an argument; one whose schema statement is refused counts as no file,
--     and a transaction that is not committed changes nothing. Retention: CleanupOldDBs and vacuumShard on such files,
--     with the names of the directory; Retention/Cron: nextThreeAM and the loop of StartRetentionCron, of
--     which each round is given by what ends its wait. LastSeen: LastSeen and lastSeenInShard on the
--     files; Known: KnownPods.
--   Cursor, Search: the cursors of Search, and Search, where the SQL that the code builds is read as what
--     it means; what SQLite answers is a parameter. Ranks: what is
--     asked of float64, for ranks that are neither NaN nor a negative zero.
--
-- Tailer: internal/tailer.
--   Level: detectLevel of level.go, with its regular expression as a leftmost search.
--   Key, Markers: the keys of containers and resolveMarker, markerSince, setMarker and deleteMarker of
--     manager.go. resolveMarker asks the store without the lock: the markers that it finds when it takes
--     the lock again are an argument.
--   Manager: reconcilePod, startContainer, stopContainer and stopPod, as handlers of the informer's
--     events. A goroutine is named by its context, a number that is never used again. Run: Run and Ready, as
--     steps of the informer, of its cache, of the end of the context and of tailers that return.
--   Ingest, Tail: ingest with its scanner, and tailContainer with its reconnects. A stream is the text
--     that it delivers before it ends; the loop runs once for each answer of the Kubernetes API, and sees at
--     a given point of a round that its context is done.
--
-- Api: internal/api/handler.go. A query parameter is read by its name, and JSON is a value but for the
--   events of the tail. Search: handleSearch, which calls `search`. Known: handleKnown. Tail: handleTail,
--   from its subscription on a sequence of receives, of the end of the request, and of what other
--   goroutines do with the broadcaster; Event: the JSON of an event; Tail/Events: what an
--   EventSource reads of the stream. Routes: the patterns that New
--   registers, and the rule of http.ServeMux.
--
-- Server: cmd/server/main.go. The settings that are read from the environment, and fanoutSink. Shutdown:
--   main from the point where it waits for a signal, waitForShutdown and the deferred calls in their
--   order, while the manager, its tailers, the goroutine of the queue and the loop of the retention take their
--   own steps in any order. A cleanup changes the store at once when it is done. Only the queue of the sink
--   is followed there.
--
-- Not modelled: the setup of main, with its exits on a failure, the embedded files (web/web.go), the
-- static files and the Prometheus handler, and writes to a connection that fail. Times are in UTC, and no
-- line is older than January 1 of year 1. Bytes that are not UTF-8 do not occur in texts. Clocks and
-- durations are arguments; AddDate is not asked for so many days that it overflows.
pub mod Api
pub mod Metrics
pub mod Prelude
pub mod Server
pub mod Storage
pub mod Tailer
