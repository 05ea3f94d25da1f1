-- ===== src/Lib.antt =====
-- A verification library for the matching engine: an engine that takes commands for limit order books,
-- matches them by price and time, writes every command with its result to a journal, and recovers its
-- books from snapshots and the journal.
--
-- The parts of the program and the modules that model them:
--   internal/model/types.go       Model: commands, events, results and the two static checks of a
--                                 command (Validate, ValidationRejectReason).
--   internal/book/book.go         Book: State has the data, Sides the price index with its binary search
--                                 and the levels, Matching the loop of match and matchAgainst, Handlers
--                                 handleNew, handleCancel, handleReplace and Apply, Checks
--                                 CheckInvariants, Snapshots Snapshot and NewFromSnapshot.
--   internal/journal/codec.go     Journal: Bytes, Codec and Checksum; records and segment headers as
--                                 bytes.
--   internal/journal/reader.go    Journal.Reader: readSegment, from the bytes of a segment file on;
--                                 Journal.Files: readShardRecords.
--   internal/journal/writer.go    Journal.Writer: the state of the goroutine that writes batches and rotates
--                                 segments; its child Run the requests, the flush and the select.
--   internal/recovery/recovery.go Recovery: EqualResults and the replay of the records of a shard.
--   internal/shard/registry.go    Shard.Registry: which symbol belongs to which shard.
--   internal/shard/loop.go        Shard.Loop: the state and the handlers of the goroutine of a shard; its
--                                 child Run the events of its select and the sequences of them.
--   internal/shard/engine.go      Shard.Recover: recoverBooks and nextSequence, and its child Delivered the
--                                 sequencer, the loop and the recovery together; Shard.Writers: the
--                                 configuration of a shard's writer.
--   internal/ingress/sequencer.go Ingress: the messages; Ingress.Sequencer: the goroutine that numbers
--                                 commands, and its callers; its child Run the sequences of their moves.
--   internal/config/config.go     Config: Config.Validate.
--   internal/metrics/metrics.go   Metrics: the reservoirs of latencies, the counters and the high-water marks.
-- The sequencer numbers a command and sends it to the shard that the registry gives; the loop of the shard
-- applies it to the book of its symbol, hands it with its result to the journal, and replies when the
-- journal acknowledges. A recovery applies the commands of the journal again and compares results.
--
-- How the code is modelled. An int64 or uint64 is its bit pattern, a number below 2 ^ 64, and sums and
-- differences wrap (Prelude.Words). A Go map is a function into Option. A pointer to an order is its side,
-- its price and its id, which lead to its level and its place there; the linked list of a level is a
-- list, head first. Code that writes to a book or appends events returns the new book and the events. An
-- outer `none`, and `panic` in the codec, is a panic or fuel that ran out.
--
-- Fuel. The binary search gets one round more than there are prices, and the matching loop one round more
-- than there are orders on the other side; both are proved to be enough, as the refinement theorem states
-- that a result is returned. The loop over the records of a segment gets one round more than there are
-- bytes, which is enough as every record takes a byte.
--
-- The specification of a book (Book.Spec and Book.Spec.Apply) works on snapshots: for each side the list
-- of its price levels, best first, each with its orders, oldest first. Book.View has the book of a
-- snapshot, `represent`, and what a snapshot that can be reached satisfies, `IsValid`. Book.Refines
-- proves that the code on `represent s` does what the specification does on `s`, Book.Validity that the
-- specification keeps `IsValid`.
--
-- Goroutines. The goroutine of a shard, that of the journal's writer, and that of the sequencer with its
-- callers, is a state with a function for each event, a test that says when its select may take the
-- event, and a data type Run of the sequences of events, in any order. A channel for an answer is a number, and what was sent is kept in
-- lists. What the journal, a shard or a file answers comes with the events. The files of the writer are
-- the list of their contents; a write that is cut leaves the bytes it took.
--
-- Not modelled: the system calls and files of the journal, of snapshots and of the configuration, the
-- callers of the writer, the percentiles of the metrics, what else NewEngine does, the calls of Engine,
-- and the programs under cmd.
-- hash/fnv and hash/crc32 of Go's library are written out.
pub mod Prelude
pub mod Model
pub mod Book
pub mod Journal
pub mod Metrics
pub mod Ingress
pub mod Shard
pub mod Recovery
pub mod Config
