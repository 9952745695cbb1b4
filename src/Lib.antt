-- ===== src/Lib.antt =====
-- The base library of mifsa (C++): values with a JSON reader and writer, an event queue with
-- timers, threads and their pool, plugins and the programs built on them, and utilities.
--
-- Parts:
-- - Variant (src/base/variant.cpp, include/mifsa/base/variant.h). Data holds the values: a
--   `Variant` is the value behind `m_ptr`, with a constructor for each subclass of `VariantValue`.
--   Print is `VariantParser::parseOut` and `toJson`; Parser is the class `VariantParser` as a
--   state that is passed on, with children for strings, numbers, values up to `fromJson`, and
--   `fromJsonMulti` (Multi). Value and Access are the conversions, tests, lookups and map updates,
--   Compare is `operator==`, Order is `operator<`, Sub the writable `operator[]`, and Register
--   the numbers of custom types, each with its Laws. Shared has the pointers themselves, as a
--   store of values: Closed and Reaching are on where they lead, Copies on what copies see, and
--   Unfolded leads back to Sub. RoundTrip leads from the writer to the reader, and Parser/Ends is
--   on the end of the reader.
-- - Timer (src/base/timer.cpp and `Queue::processNextSleepTime` of src/base/queue.cpp): a timer as
--   a record, and a pass of the queue over its timers at a given time. Count is on many passes,
--   Sleep on the time up to the next one, Pushing on where the callbacks go.
-- - Queue (src/base/queue.cpp, include/mifsa/base/event.h): the fields of `QueueHelper` as a
--   record, posting, `processEvent` and the timers of a queue. It uses Timer for the passes.
--   Posting is on the bounds and the timers, Draining on `processEvent`. Interleaving has `run`,
--   and the same code in steps between two locks of the event mutex, with the event semaphore (Semaphore) and with other threads that use the
--   queue, in any order: Items, Serving and Order are on what is taken and run, Phases and Ending
--   on what is done when `run` returns, Waking on the wait. Lifetime has `waitforQuit`, the
--   destructors and the common mutex, with Waiting.
-- - Semaphore (src/base/semaphore.cpp): the count, the number of waiting threads and of those
--   whose limit has passed, with a step relation on which Steps is.
-- - Elapsed (src/base/elapsed.cpp): the clock, with Measure on what it measures.
-- - Strings (src/utils/string.cpp): all but `doubleToString`, with Ends on the ends of strings and
--   Split on `stringSplit`.
-- - Pool (src/base/pool.cpp): the workers of a pool and its user as a step relation. Order is on
--   the order of the tasks, Ending on what follows `shutdown`.
-- - Thread (src/base/thread.cpp): `start`, `stop` and the thread, with their mutex, as a step relation.
--   Stopping is on what `stop` leaves behind and on where it never returns. Current is the map of the threads, with Live.
-- - Plugin (src/base/plugin.cpp): the map of the plugins and `load`, with Loading.
-- - Dir (src/utils/dir.cpp): listings, searches and removals. Search is on `getCfgPath` and
--   `getAllFiles`, Removal on `removeSubOldDirs`.
-- - Log (src/base/log.cpp): the streams and their mutex, with Printing on what a message leaves
--   behind.
-- - Host (src/utils/host.cpp): the program's path and the addresses of interfaces, with Exe.
-- - System (src/utils/system.cpp): the check for a single program, the handlers of signals and the
--   release of memory, over the calls of the operating system, the record `Os`. Locking and Signals
--   have what POSIX says of locks and handlers as records of laws.
-- - Application (src/base/application.cpp): options, flags and the configuration, with Arguments.
--   It uses Variant for values, Dir for the place of the configuration and Host for the path.
-- - Module (include/mifsa/module): Platform is `createPlatform` and `loadPlatform` over Plugin;
--   Client is the client over Semaphore and the server over Queue; Connection is the wait for a
--   connection.
-- - Base: names of the libraries, tests, lists, byte strings, signed integers.
-- - Tests: runs on concrete inputs.
--
-- Conventions. A string is a list of bytes. A callback is a number, and what it does to the queue
-- is a parameter. The time of a call is an argument, as are the addresses of new objects. Integers
-- that wrap around have the remainder written out. A double is its 64-bit pattern, and the
-- operations on doubles, with the C library's printing and reading of them, are the record
-- `Doubles`.
--
-- Fuel and bounds. The reader counts levels down from 501 (VARIANT_PARSE_MAX_DEPTH is 500, tested
-- with `>`), and gives each loop one more than the bytes of the text as fuel: each round reads at
-- least one byte. `process_event` has fuel for each of its loops, since a callback may post
-- without end. `string_replace` has fuel, since it may run for ever; `string_split` has the length
-- of the string. `progress_all` has the depth of the directories.
--
-- Not modelled: what the operating system does, which is an argument or a field of `Os`, `Files`,
-- `Libraries` or `Options`: files, shared objects, options, signals; the branches for Windows;
-- src/utils/time.cpp, which is calls of the standard library's clocks and sleeps; `doubleToString`,
-- which is its streams; the log's connection to DLT; and the libraries under src/importlib, which
-- are other projects'. In Queue an operation is one step, and locks are left out but for the steps
-- of Queue/Interleaving. Of the values: templates. Of the threads: the callbacks around a run and
-- the destructor.
pub mod Base
pub mod Variant
mod Tests
pub mod Timer
pub mod Semaphore
pub mod Thread
pub mod Application
pub mod Module
pub mod Log
pub mod System
pub mod Pool
pub mod Host
pub mod Plugin
pub mod Dir
pub mod Queue
pub mod Strings
pub mod Elapsed
