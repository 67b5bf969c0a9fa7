-- ===== src/Lib.antt =====
-- Log Service: the log API of this repository and the parts that it stands on. Clients post batches
-- of text log lines; the API validates them, publishes them to Kafka, and when Kafka fails writes
-- them to a spool directory, from which a replayer publishes them later. A worker takes the events
-- from Kafka and indexes them in Elasticsearch, with a dead letter queue and a replay directory for
-- what fails. A dashboard reads them back, and a generator makes lines for the API.
--
-- Files and the code that they model:
--   Prelude    the language: Boolean tests, lists, results, 64-bit integers, Go's strings and times
--   LogEvent   internal/logevent/event.go; JSON encoding is the parameter `Codec` with `IsJson`
--   LogLine    internal/logline: `Parse` is `parse`, with `time.Parse` and `netip.ParseAddr` as the
--              parameter `Readers`; Accepts and Rejects are about the lines that it takes and refuses
--   Metrics    internal/metrics/counters.go: the counters, what each request adds to them (Totals), and
--              the snapshot with its sorted dimension counters (Snapshot)
--   Publisher  the interface `Publisher` of internal/ingestion and internal/spool
--   Spool      internal/spool: Dir is the directory, Lines the JSON lines of a file, Writer is
--              writer.go (Keeps: what files a write changes; Capacity: the limit and the modes), and
--              Replayer is `ReplayOnce` of replayer.go (NoLoss, Drains, Stuck and Steady: what a pass does
--              to a batch) with `NewReplayer` and `Run` in Run
--   Kafka      internal/kafka/producer.go, over the parameter `MessageWriter` for kafka-go's writer
--   Ingestion  internal/ingestion: Batch is `validate`, the parent is `ServeHTTP` with all it calls,
--              Options is `NewHandler`, Accounts is about its counters, Replies about its replies, and Concurrent about
--              requests that are served at the same time
--   Config     internal/config/config.go
--   Api        cmd/log-api/main.go: the handler put together from the producer and the spool, with
--              the API's promise (Durable), its time limit (Deadline), requests and passes of the
--              replayer in any order (History: what is stored stays so, in Stored and Lasting), and the
--              life of the process (Process)
--   Storage    internal/storage/elasticsearch.go: `BulkIndex` and what an answer says of each event
--              (Accounted) and a request does to it (Settles)
--   Worker     internal/worker: Stats is stats.go with its snapshot (Snapshot), and of service.go Decode is `decode`, Indexing is
--              `processBatch` with `indexSafely` and all that they call (Attempt, Safe, Steady, Attempts), over an
--              interface for the replay directory, Consume is a turn of `consumeLoop` (its child Delivers
--              has sequences of turns, Rejects what becomes of a message that does not decode), ReplayFiles
--              is `writeReplay`, Replay is `replayOnce` with `readReplayFile` (Kept is about one file,
--              Returns about a pass), and Delivers is about the two loops together. Settings has the
--              settings of `NewService`, and Wiring the service over Elasticsearch's client, Kafka and the
--              directory of replay files (Files, Filed, Delivers). Process is the life of the process:
--              `main` of cmd/log-worker/main.go, `Run` and `Close` (Order, Ends)
--   Pipeline   from a batch that the API accepts to the worker's two loops, and to the wired worker (Wired)
--   Probes     the pings of Kafka and Elasticsearch, the worker's `Ready`, internal/metrics/http.go, and the
--              routes of cmd/log-api/main.go and cmd/log-worker/main.go
--   Dashboard  internal/dashboard: Query reads the parameters of a request, Elastic is
--              elasticsearch.go, Collector is stats.go, Server is http.go but for the stream, which is Stream
--   Generator  cmd/log-generator/main.go: the lines (Lines), the posting of a batch (Batches), the summary,
--              the loop of a client (Pace), and the clients on shared counters (Clients: Counted and Turns
--              about what each does to them, Latencies, Alike and Order about the order)
--   Tests      each theorem at a concrete input, and tests by evaluation
--
-- Conventions. A string is the list of its runes; a byte that is no valid UTF-8 is a rune of its
-- own. A call to the outside (system calls, Kafka, the clock) takes how it ends from an argument,
-- or passes a world along; an error is a value. A request is served as one step between two states
-- of the server, so two requests at once are two steps in some order; in Concurrent its parts are
-- steps of their own, in any order. The worker's consume loop is a sequence of turns (`Turns`),
-- between which the replay loop may tick; its process is a sequence of actions of its goroutines. The attempts of `indexSafely` count down from the
-- configured number of retries, and those of the generator from three. Recursion is structural; of the
-- two functions on fuel, `decimal` has as much as the number's value plus one, and `run_client` needs one for
-- each ten milliseconds up to the client's deadline, and one more.
--
-- Bounds. Counters are 64-bit patterns whose additions wrap. Sizes of files and sums of them stay below
-- 2^63. The spool's mode compares a ratio of 64-bit floats; the model compares the terms of the
-- ratio, which agrees below 2^51 bytes. A replay reads lines of at most 64 KiB, as `bufio.Scanner` does.
--
-- Not modelled: the HTTP servers and signals themselves (I/O), log output, sleeps that nothing depends on, the
-- timers of the loops, the figures of the runtime (memory, processor time) but as parameters, and in
-- the generator the command line and the printing. A pass of the worker's replay loop is a step
-- between two turns of the consume loop: a pass in the middle of the writing of a replay file, which
-- reads a part of it, is not among the steps. A latency of the generator is a natural number of
-- nanoseconds, and sums of them stay below 2^63.
pub mod Prelude
pub mod LogEvent
pub mod LogLine
pub mod Metrics
pub mod Publisher
pub mod Spool
pub mod Kafka
pub mod Ingestion
pub mod Config
pub mod Api
pub mod Storage
pub mod Worker
pub mod Pipeline
pub mod Probes
pub mod Dashboard
pub mod Generator
pub mod Tests
