-- ===== src/Lib.antt =====
-- php-analyze: a PHP extension that records function calls and ships them to a server. The sources
-- named here are under crates/php-analyze/src unless their path starts with crates.
--
-- On the PHP thread the engine calls the recorder at the begin and at the end of every function. A
-- begin passes two gates (depth, memory budget) and pushes a frame; an end pops it, puts a call
-- record into the buffer of the request's trace and, past a threshold, offers the buffer as a batch
-- to a bounded channel. The shipper thread takes the batches from the channel, encodes them and
-- posts them with retries. Both sides keep a process-wide memory budget and a drop counter per
-- trace in atomics.
--
-- Where what stands:
--   World             the process-wide state: the budget of recorder/accounting.rs, the drop
--                     counters, the channel with its sender slot, the queue of drop notices
--   Wire              wire.rs: the schema
--   Recorder/Key      recorder/types.rs: function keys, their borrowed views, hash and match
--   Recorder/Types    recorder/types.rs: frames, records, entries, batches, the size estimate
--   Recorder/Dictionary  recorder/dictionary.rs: the interner
--   Recorder/Trace    recorder/types.rs: the trace of a request and its accessors
--   Recorder/Flush    recorder/flush.rs: try_send_batch
--   Recorder/Extract  recorder/observer.rs: extract_call_site and zend_string_to_cow
--   Recorder/CallSite recorder/observer.rs: categorise, categorise_lazy, FqnSpec
--   Recorder/Dump     recorder/dump.rs: the diagnostic dump, its writer and its parser
--   Recorder/Begin, Recorder/End, Recorder/Request  recorder/observer.rs: the begin and end
--                     handlers, the start and the shutdown of a request
--   Shipper/OnBatch, Shipper/Encode, Shipper/Retry, Shipper/Consume  shipper/on_batch.rs,
--                     shipper/encode.rs, shipper/http.rs and the consume step of shipper/mod.rs
--   Shipper/Loop      shipper/mod.rs: run_loop and run_drain_phase
--   Shipper/Lifecycle shipper/mod.rs: the channel, the spawn and the join of the thread
--   Config            config.rs: the resolution of the INI values; recorder/observer.rs:
--                     should_observe_filter
--   Recorder/Snapshots  clocks.rs and recorder/observer.rs: what a reading of the clocks makes, and
--                     the cache of the CPU snapshot mode
--   Recorder/Untimed  what the handlers keep when the CPU times of the snapshots are zero
--   Bootstrap/Directives, Bootstrap/Identity, Bootstrap/PhpInfo  bootstrap.rs: the table of
--                     directives, the reading of the INI values, the identity of a request, the rows
--                     of phpinfo
--   Bootstrap/Hooks   bootstrap.rs: MINIT, RINIT, RSHUTDOWN and MSHUTDOWN; recorder/observer.rs:
--                     BootObserver; config.rs: the frozen configuration
--   Prelude           the helpers that the parts share: tests, lists, words, digits, strings
--   Shipper/Http      shipper/http.rs: RmpEncodeAndHttpPost, its requests and its deadline;
--                     shipper/mod.rs: the poster that the spawn builds
--   Stub              crates/stub-ingest/src/main.rs: the ingest server
--   System            schedules of begins, ends and deliveries, whole requests (System/Request),
--                     and the theorems on them
--   Tests             concrete runs
--
-- How the code is read: state is passed explicitly. usize and u64 sums wrap at 2 ^ 64 where the
-- release build wraps, saturating and checked sums are written out, and a panic of `expect` is
-- `none`. A String is the list of its bytes, in Config, Recorder/Dump and Bootstrap
-- (Bootstrap/Identity apart) the list of its characters; an i64 is an integer, with the saturation
-- where the code saturates. A string of the engine is the list of its bytes, decoded by
-- Prelude/Utf8. What the environment answers (clocks, the channel's try_send, the exception
-- state, the encoder, the HTTP attempt) is an argument. The hash map of the interner is a list of
-- slots searched by hash and predicate, over an arbitrary hasher. The retry loop is structural in
-- the number of iterations that are left, retry_count + 1 at the start, and is proved never to run
-- out of them; the attempts that it reports are counted on u32. The shipper's counters are u64.
--
-- Not modelled: the pointers behind PHP's structures (a pointer is what it points at), the system
-- calls behind the clocks and the host name, the calls that register directives and print with PHP, the HTTP client
-- (ureq, tiny_http), MessagePack, JSON and TLS, which are libraries', the lines that the ingest server
-- prints to stderr, and its command line; and the time that the server, which handles one request
-- after the other, is busy with earlier ones, which is a part of the latency of the network.
pub mod Prelude
pub mod World
pub mod Wire
pub mod Recorder
pub mod Config
pub mod Shipper
pub mod Stub
pub mod System
pub mod Bootstrap
mod Tests
