-- ===== src/Lib.antt =====
-- Verification of the PowerDNS logger daemon, pdns-logger: a server that takes a stream of
-- length-prefixed protobuf messages from PowerDNS recursors over TCP, decodes them and logs the DNS
-- answers to a file, to syslog and to an sqlite3 database.
--
-- How the program works, and where its parts are modelled
--   Each connection has a thread (src/pdns-logger-protobuf.c, socket_thread_exec) that reads into
--   a buffer of 8192 bytes and calls protobuf_extract, which decodes every whole frame and passes
--   it to the engines. This is Stream.antt: `on_read` is one round of the thread's loop,
--   `extract` is protobuf_extract, `parse` is protobuf_parse. The decoder and the engines are
--   parameters.
--   Clients.antt takes that thread apart into turns, so that the threads of several connections
--   can come between each other; Clients/Alone.antt puts the turns of one thread together again.
--   Server.antt is the listening socket of the same file: socket_start, socket_loop,
--   socket_start_thread and pdns_socket_run.
--   The file and the syslog engine build the same line of text from a message. Line.antt models
--   it, from logfile_log of src/pdns-logger-file.c, with the buffer `str` and the count `sz` and
--   with writes past the end of the buffer as faults. LogFile.antt and Syslog.antt are the
--   engines around it: the static variables are a record, the functions init, log, rotate and
--   stop of an engine's table are functions on it, and the calls made on the file or on syslog
--   are a list of events. LogFile/Threads.antt has several threads in logfile_log at once: the
--   lines of a message are the thread's own, and each use of `fp` in write_log is a turn of its
--   own, between which other threads' turns and SIGHUP may come, with freopen failing too.
--   Dns.antt is src/pdns-logger-dns.c: the tables of names, and the lookups that the lines use;
--   Dns/Codes.antt has the enumerations of src/pdns-logger-dns.h.
--   Config.antt is src/pdns-logger-ini.c: the options of the daemon itself; the engines handle
--   the options of their own sections in the same way. Config/Options.antt describes options
--   without the handlers.
--   Queue.antt is src/pdns-logger-queue.c, by which the sqlite3 engine hands its statements to a
--   thread of its own: linked items in a heap, and Queue/Slot.antt is what it amounts to. Each
--   operation is one step there. Queue/Threads.antt takes them apart at the calls of the mutex and
--   memory functions, with `lock` and `sync_mutex` of the queue, for any number of threads whose
--   steps come in any order: `Phase` is where a thread is, `Step` a step of one thread, `calls` and
--   `returns` are what the threads have called, with what they passed, and been told; fifo_lock,
--   fifo_unlock, fifo_send_signal and fifo_wait_signal are among the steps. The handler of SIGHUP,
--   which takes the recursive `lock` in logsqlite_rotate, may interrupt a thread anywhere, with the
--   lock in its hands too; what it does to the database is not in that model.
--   Sqlite.antt is src/pdns-logger-sqlite.c: `log` is logsqlite_log, `background` is a round of
--   the loop of bg_thread_exec; Sqlite/Rows.antt has what is taken from a message, and
--   Sqlite/Lifecycle.antt the options, db_open, logsqlite_init, logsqlite_rotate and
--   logsqlite_stop.
--   Sqlite/Known.antt describes the rows without the loop, and Sqlite/Slotted.antt what passes
--   the queue, whenever the thread comes.
--   Sqlite/Thread.antt has bg_thread_exec with its test and its wait apart, and how it stops.
--   Database.antt has db_exec and db_flush.
--   Daemon.antt is src/pdns-logger.c up to the start of the engines: parse_cli, and `configure`
--   for the first part of main. Main.antt is the rest of that file: main with
--   fork_and_close_parent and what the threads and SIGHUP do to the engines while the server
--   runs, a list of events. A thread of the sqlite3 engine does not go over into the child of
--   fork. Dispatch.antt is the calls of that file that go to the three engines in turn:
--   loggers_initialize, pdns_loggers_log, pdns_loggers_rotate and loggers_halt.
--   Pipeline.antt follows messages from the bytes of a connection through all of this.
--   Message.antt has the decoded messages of src/dnsmessage.pb-c.h, Status.antt and the macro
--   zstr in Text.antt are from src/pdns-logger.h.in; Text.antt also has what is used of the C
--   library's strings. Base.antt holds what is shared: lists and tests on native numbers, signed
--   numbers, and `Result`, a computation that may leave defined behaviour by a named fault.
--   Tests holds runs on concrete data.
--
-- Conventions
--   A `char *` is an optional list of bytes; the data of a protobuf field of no bytes is NULL. What
--   stands in memory behind data that is read as a string is the parameter `beyond`: a read past
--   the end of a heap block is not a fault in the model.
--   An `int` that only carries a bit pattern is a number below 2 ^ 32, and `sz`, which may become
--   negative, is a signed number. `assert(0)` is a fault, or nothing in a build with NDEBUG: the
--   flag `ndebug`. The answers of malloc, fopen, freopen, read and ini_parse are arguments.
--   protobuf_extract's loop runs on fuel, the number of bytes in use: each round removes at least
--   two, so this is enough. A decimal number is printed with fuel 20, which is enough for 64
--   bits. db_exec and db_flush call each other, on fuel 2, the depth of the calls of db_exec:
--   db_flush is called with the counter reset, so the statements under it do not flush again.
--   What the sqlite3 engine's thread does between two pushes is an argument of `log`; what
--   sqlite3 answers is a function of the statements executed so far. `counter` of db_exec is not
--   bounded.
--   The answers of socket, bind, fcntl, listen, select, accept, fork and setsid are arguments;
--   what select and accept answer comes as a list of rounds, and the loop is structural in it.
--   Whether pthread_create gives the sqlite3 engine its thread is an argument; for the thread of a
--   connection it is taken to succeed. The program does not look at its answer.
--   In Clients.antt a turn of a thread is one read, or one frame with its message. The program has
--   no lock around either: its threads come between each other inside a turn too, between two
--   engines and inside one. In Main.antt the thread of the sqlite3 engine waits while a message is
--   logged, and a SIGINT or SIGTERM is the round in which the server's loop finds `running` reset;
--   its events go on until the database thread has ended. A join that never returns is a fault too.
--
-- Not modelled
--   The inih library (src/inih), sqlite3 and the decoder (src/dnsmessage.pb-c.c, generated) are
--   parameters. Output to stderr, user and group ids, the build and the packaging have no model.
--   What the condition variable does is left open in Queue/Threads.antt: a thread that sleeps may
--   wake at any time, since the wait has a deadline and fifo_pop_item does not look why it ended.
--   Two threads inside an engine at once are modelled for the queue and for the lines of the file.
--   What they do to the other static variables at once, those of sqlite3 included, and the order in
--   which messages of several connections come to different engines, are outside the model.
--   A pthread_create that fails for a connection has no model.
pub mod Base
pub mod Text
pub mod Status
pub mod Dns
pub mod Message
pub mod Stream
pub mod Line
pub mod Config
pub mod LogFile
pub mod Syslog
pub mod Queue
pub mod Database
pub mod Sqlite
pub mod Daemon
pub mod Dispatch
pub mod Server
pub mod Main
pub mod Pipeline
pub mod Clients
mod Tests
