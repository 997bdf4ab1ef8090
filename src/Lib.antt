-- ===== src/Lib.antt =====
-- Verification library of the log engine: a sharded, append-only log whose records carry a checksum.
--
-- The engine (log_engine.cc) hands each message to the writer of its shard, which the router chooses
-- (routing.cc). There it is encoded as one line (record_codec.cc), and appended to the shard's active
-- file. At start the engine scans the active file for whole records whose checksum
-- is right and goes on behind them (log_manager.cc, with scan_log_content of record_codec.cc). Errors
-- of the reader and of the manager are counted in sliding windows, from which a verdict on the health
-- of the process is computed (health_monitor.cc). The agent (agent_support.cc) tails the files of other
-- programs into the engine, and delivers the records of the shards in batches. The options stand in include/log_engine/config.hh.
--
-- The files and the code that they model:
--   Prelude          what all modules share: Boolean tests on native numbers, lists, byte strings, and
--                    the standard functions on text that the code calls (find, to_chars, from_chars).
--   Bits             laws of the bit operations.
--   Config           include/log_engine/config.hh: classes, modes, levels, options, `validate`.
--   Codec.Crc        src/record_codec.cc: the CRC-32 tables and `crc32_update`. Linear, Word and Slicing
--                    compare it with the bitwise checksum.
--   Codec.Xxh        the payload hash `xxh64` with seed 0.
--   Codec.Text       decimal and hexadecimal numbers, levels, `write_crc_prefix`.
--   Codec.Encode     `encode_record_buffer`. The buffer is the list of the bytes written to it. Join,
--                    Layout and Record are about what it holds, Bounds about its size.
--   Codec.Json       the readers of JSON members in a payload.
--   Codec.Record     `verify_record_line`, `parse_record_line`, `extract_sequence`. Find and Fields are
--                    about searches in a text of known shape, Verify and Hash about the three classes
--                    of checksums, Written and RoundTrip about what the encoder writes.
--   Codec.Scan       `scan_log_content`. Cut and Resume are about parts of a content, Lines and Written
--                    about contents of whole records.
--   Recovery         src/log_manager.cc: `scan_log_file_streaming` (Stream) and `recover_active_file`
--                    (Recover), and the text of a checkpoint (Checkpoint). A file is its bytes, or
--                    missing; a read gives a piece of them.
--   Append           src/append_writer.cc: the writer of a file in aligned chunks. Chunks is about the
--                    buffer of chunks, Device about the file, Write and Retry about one write, Disk
--                    is a file in memory, Stream and what is below it are about the whole writer.
--   Queue            src/async_writer.cc: the queue of messages in front of the writer, with its
--                    backpressure, flushes, rotation, stop and recovery. Invariant says what a queue
--                    keeps, and the other files take one operation each; Steps takes the operations
--                    one after the other in any order.
--   Layout           src/log_layout.cc: the names of segments (Names), their order (Order), and the
--                    choice between two copies of an archive (Copies).
--   Retention        src/log_manager.cc: `rotate_active_file` and `cleanup_archives`. Removed is about
--                    the files that go, Newest about their order, Returns about failures.
--   Reader           src/log_reader.cc: the readers of lines (Lines, Archive) and the query over segments
--                    (Query): Selection takes one segment, Found all of them, Reads the asynchronous one.
--   Routing          src/routing.cc: the hash, the ring of virtual nodes, `route`.
--   Health           src/health_monitor.cc: the window counters, the snapshot, the verdict.
--   Engine           src/log_engine.cc: `LogEngine`. Share is about the messages that each shard is sent,
--                    Routed and Batch about the ways that `append_batch` takes.
--   Agent            src/agent_support.cc. Base64 and Lines are the codes of its files. Offsets and
--                    Pending write and read the offsets and the batch that is under way, Tail takes new
--                    lines from a file and joins them to records (Multiline), and Delivery builds the
--                    batches of a delivery (Next) and of a replay (Replay) over Reader. Render writes
--                    the JSON of envelopes and sinks, Json and Ingest read that of requests, and
--                    Render/RoundTrip and Render/Batch compare them. Limits has the quotas.
-- The files named Tests run the definitions and apply each theorem at concrete inputs.
--
-- Numbers are native; a machine word keeps its `% 2 ^ w` where the code can wrap. A byte is a number,
-- and a theorem that needs it below 256 says so. An iterator or position in a text is the list of the
-- bytes from it on; `npos` and an empty std::optional are `none`, and so is an exception in Recovery.
--
-- The code calls files and the other services of a process through Seastar, zlib and libc. These calls
-- are parameters: FileOps of Append gives the operations on a file and their failures, Services of
-- Queue adds those of the log manager, ArchiveOps of Retention has those on directories, and Reader
-- takes the bytes and pieces that a read returns; the time is an argument. Engine returns the calls of
-- the writers as a list, and Agent takes the size, the inode and the bytes of a file, and the names in
-- a directory. IsFile and KeepsFile say
-- what a file promises: a write that reports all its bytes has stored them, and reading back gives
-- what was written. Disk fills them. An operation that throws gives the state it leaves behind, with
-- the Boolean false.
--
-- An operation of a writer runs from its start to its end, as the lock of the writer makes it do. A
-- flush of the queue waits for the file: the relation of Queue.Steps begins and ends it in two steps,
-- and messages are submitted between them. The chunks of one buffer are written in the
-- order of their offsets, where the code writes several at the same time. The submissions of one batch
-- to several shards are in the order of the calls, which the code does not wait for one by one; each
-- shard has at most one. The pause between two
-- retries has no effect on the state. A waiting submitter is counted when it starts to wait; that it
-- is resumed later is left out. std::sort is the insertion sort, which gives an order of the same
-- elements by the same test.
--
-- Loops are structural, but for these: the digits of a number take at most 20 rounds, since a 64-bit
-- number has at most 20 digits; the loops over the pairs of a JSON object and over the objects of an
-- array take a round for each byte, and every pair has at least four bytes, every object two; xxh64
-- takes a round for each whole group; the reads of a file take a round for each byte at most, and
-- that this reads the whole file is proved; the offsets of the chunks of a buffer take a round for
-- each byte at most, as does the filling of the chunks; the drain of a queue takes two rounds, since
-- the first flush that succeeds empties it.
--
-- Not modelled: the compression of archives and the removal of temporary files, the process of the
-- agent (agent.cc) with its sockets, and of agent_support.cc HTTP and the reading and writing of
-- files; the query server and client, the loader of options, metrics, and the tools. A failing read
-- in the recovery, and the memory order of the atomic counters, are not modelled: operations on a
-- counter are taken one after the other.
pub mod Prelude
pub mod Bits
pub mod Config
pub mod Codec
pub mod Agent
pub mod Append
pub mod Engine
pub mod Health
pub mod Layout
pub mod Queue
pub mod Reader
pub mod Recovery
pub mod Retention
pub mod Routing
