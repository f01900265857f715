-- ===== src/Lib.antt =====
-- Verification of the key-value store (hw4) of the repository: followers that store keys and values
-- in files and take part in a two-phase commit, and the leader of it. Smaller parts are the shell
-- (hw1), the file server (hw2), the allocator (hw3) and the word count (hw0), which stand alone.
--
-- A leader sends each PUT or DELETE to the followers, which vote; it then sends them COMMIT or
-- ABORT. A follower (kvserver.c) keeps a store (kvstore.c) and a log (tpclog.c) in one directory
-- and talks in messages (kvmessage.h) with the constants of kvconstants.h. The parameters of a
-- request are read from a URL (liburl.c).
--
-- Files, and the code they model:
-- - Base: tests into Bool, integers, lists, C strings and association lists, shared by all.
-- - Consts: hw4/src/kvconstants.h, limits, types, codes and messages under their names there.
-- - Disk: the directory of a follower. `Disk` has one association list for the files HASH-POS.entry
--   and one for the files ID.log; `Os` has the answers of the system calls that may fail.
-- - Store: hw4/src/kvstore.c. `find_entry`, `haskey`, `get`, `put_check`, `put`, `del_check`,
--   `del`, `init` and `clean` are the functions of these names (with kvstore_); `put_find` and
--   `put_write` are the two locked parts of kvstore_put, `put_searched` and `put_ended` the
--   function cut between them. Store/Find has the invariant of the chains, Store/Get, Store/Put and
--   Store/Del the theorems of the operations, Store/Race two puts at once.
-- - Log: hw4/src/tpclog.c. `log_msg` is tpclog_log, the others have the names of the functions.
--   Log/Scan has the loops.
-- - Message: the structs of hw4/src/kvmessage.h.
-- - Server: hw4/src/kvserver.c. `handle_tpc` is kvserver_handle_tpc, with one function for each
--   message; `server_get`, `server_put` and the like are kvserver_get, kvserver_put; `do_log`,
--   `parse_log`, `rebuild_state`, `init` and `clean` are the functions of these names. Server/Redo
--   is about the redo of the log, Server/Phase about the invariant, Server/Vote, Server/Decide and
--   Server/Handle about the messages, Server/Restart and Server/Recover about the start after a
--   crash, Server/Stale about a tpclog_clear_log that gets no further than its first removal,
--   Server/Race about two PUTREQs at once.
-- - Leader: hw4/src/tpcleader.c, over any network `send`. `register_follower` is
--   tpcleader_register, the others have the names of the functions. Leader/Insert and Leader/Ring
--   are about the ring, Leader/Cluster has a network of followers that carries the bytes of
--   requests and responses, with the faults of both, and Leader/Node one follower of it,
--   Leader/Rounds and Leader/Poll the loops of the two phases, Leader/Atomic the transaction as a
--   whole, Leader/Positions and Leader/Commits when it is a success, Leader/Read and
--   Leader/ReadBack a GET behind it.
-- - Http, Wire: hw4/src/libhttp.c and hw4/src/kvmessage.c. Http/Reply has responses as bytes,
--   Http/Number the numbers in them, Http/Digits and Http/Scan are about reading them.
--   Wire/RoundTrip is about a request that is sent and received, with the lemmas of Wire/Parse and
--   Wire/Shape, and Wire/Answer about a response, with those of Wire/Message; Wire/Status is about
--   the codes.
-- - Serve: the handlers of a connection, kvserver_handle and tpcleader_handle, and
--   kvserver_register_leader (hw4/src/kvserver.c and hw4/src/tpcleader.c). Serve/Exchange joins a
--   follower to the bytes of its messages, Serve/Register a follower to the leader.
-- - SocketServer: hw4/src/socket_server.c. Each step of `Step` is one step of one thread: the loop
--   of server_run (`accept_step`), a worker (`handle`, with handle_leader and handle_follower), or
--   a call of server_stop. The lists accepted, taken, handled and closed only record what has
--   happened. SocketServer/History counts them, SocketServer/Kept and SocketServer/Accepting are
--   about single steps, SocketServer/Served about all of them, SocketServer/Stopped about what
--   follows server_stop.
-- - FileServer: hw2/httpserver.c, with hw2/libhttp.c in FileServer/Libhttp. `handle_files_request`,
--   `concate`, `is_a_dir`, `read_dir_print` and `read_from_a_file_print` are the functions of these
--   names, the others those of libhttp.c without http_. FileServer/Answer is about what a path is
--   answered with, FileServer/Get about a request as bytes. FileServer/Proxy has the two loops of
--   handle_proxy_request, FileServer/Options the options of main.
-- - Url: hw4/src/liburl.c. Url/RoundTrip is about reading back what was printed.
-- - Shell: hw1/parse.c and hw1/shell.c, what is made of a line before the command runs; Shell/Run
--   has the loop of shell, with events for what it asks of the system. Shell/Tokens is about
--   get_toks, Shell/Redirect about the redirections, Shell/Events and Shell/Wait about background
--   processes, Shell/Child about the path that a command is run from. Shell/Descriptors has the
--   calls of open, dup, dup2 and close around a command, Shell/Restore that they set the
--   descriptors back.
-- - Queue: hw4/src/wq.c, over the macros of hw4/src/utlist.h as a parameter. Queue/Fifo is about
--   any interleaving of pushes and pops.
-- - WordCount: hw0/wc.c. `main` has the two loops and what is printed. WordCount/Counts is about
--   the loops, WordCount/Prints about main.
-- - Alloc: hw3/mm_alloc.c. `mm_malloc`, `mm_free` and `mm_realloc` are the functions of these
--   names, on the list of slots behind the first one; `extend` is the part of mm_malloc that calls
--   sbrk, and `grow` what it does for a positive increment. Alloc/Tiles and Alloc/Joins have the
--   invariant, Alloc/Calls that the calls keep it, Alloc/Overlap that slots do not overlap,
--   Alloc/Block what a caller of mm_malloc gets, Alloc/Freed what mm_free leaves to the other
--   blocks, and Alloc/Realloc what a caller of mm_realloc gets.
--
-- Conventions. A C string is the list of its bytes without the NUL. strhash64 is a parameter
-- `hash`, any function: the theorems hold for keys that collide too. A file is found by its
-- numbers. Codes are integers, `pos` and `negsuc`. `none` is NULL, or a run that reads through
-- NULL. A loop over files has as much fuel as there are files, and one more; the theorems of
-- Store/Find and Log/Scan prove that it ends before. The loops of the leader wait for connections;
-- one more round than connections that may fail is enough (Leader/Rounds).
--
-- Not modelled: sockets, threads (but for those of the socket server, two puts and two votes at
-- once), memory that runs out, the sizes of counters and of `int length` in a file, a read that
-- fails with -1, signals in hw1, and the processes of hw2.
mod Base
pub mod Consts
pub mod Disk
pub mod Store
pub mod Log
pub mod Message
pub mod Server
pub mod Leader
pub mod Url
pub mod Http
pub mod Wire
pub mod Serve
pub mod FileServer
pub mod Shell
pub mod SocketServer
pub mod WordCount
pub mod Alloc
pub mod Queue
