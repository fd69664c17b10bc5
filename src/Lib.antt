-- ===== src/Lib.antt =====
-- adbshare: the parts that carry files between a host and an Android phone.
--
-- The program and how its parts interact. The host speaks ADB to the phone: a message is a header of
-- 24 bytes and a payload, and a payload is accepted only with its checksum. Over a forwarded port the
-- host talks to a small proxy on the phone. Host and proxy exchange frames on a byte stream: a request
-- is an op code, a length and arguments; a reply is a length, a status and a payload. The proxy reads
-- one request after the other, calls the kernel and answers, and keeps a table of the descriptors that
-- connections opened. A directory is listed in pages, one request each. Copies are jobs of a queue,
-- which hands at most so many to workers at a time; the state of a job is shared by all its clones. A
-- worker copies a file chunk by chunk. One connection to the phone carries many streams. A phone is
-- paired with packets of their own form. A mount of the phone keeps what it was told of files and
-- directories in two caches, and numbers the paths that the kernel asked for; a rename moves the
-- numbers along.
--
-- Which file models what:
--   Base                    lists, bytes, tests and association lists that all parts share
--   Packet                  crates/adb-device/src/packet.rs: Message, try_encode, encode, decode,
--                           data_checksum
--   Connection              crates/adb-device/src/connection.rs: Reader has the two tasks, Streams has
--                           open_stream and the calls of a Stream, Events the steps of all of them
--   Transfer/Job            crates/transfer-engine/src/job.rs: a Job names its Cell in a Heap, so that
--                           clones share it as through an Arc
--   Transfer/Queue          crates/transfer-engine/src/queue.rs: JobQueue and all its methods; what a
--                           method does under its mutexes is one step, so mark_done and retry_job have
--                           two, and a history is a list of Calls
--   Transfer/Worker         crates/transfer-engine/src/worker.rs: push, run, renaming and verifying
--   Proxy/Ops               crates/adb-proxy/src/ops.rs: Op, Status, Stat and their codes
--   Proxy/Device            crates/adbshare-proxy-device/src/main.rs: the handlers of dispatch, in Files,
--                           Paths, Listing and Copy, and dispatch itself; Mock has two kernels for runs
--   Proxy/Framing           the read loops of handle_connection in that file and of ProxyConn::open in
--                           crates/adb-proxy/src/client.rs, one over its header and its limit
--   Proxy/Client            crates/adb-proxy/src/client.rs: requests, replies and payloads
--   Proxy/Serve             handle_connection as a whole
--   Proxy/Listing           listdir, listdir_page, request, parse_dir_page and parse_dir_entries of
--                           client.rs
--   Fs/StatCache, Fs/DirCache
--                           crates/adbfs/src/cache.rs: the two caches of the mount; each call has the
--                           time at which it is made
--   Fs/Inodes               crates/adbfs/src/filesystem.rs: ino_for, forget_ino, resolve_child and what
--                           rename does to the two maps; a call holds both locks, so it is one step
--   Daemon/Tree             crates/adb-daemon/src/main.rs: delete_recursive and enqueue_tree_pull
--   Pairing                 crates/adb-pairing/src/packet.rs: headers and peer records
--
-- What stands outside is a parameter: the kernel of the phone is a record Libc of functions on a state
-- World of its own, the host's files, the client and the other tasks that a worker awaits are a record
-- Env of such functions, and the decimal printer of an error message and the lossy decoding of a name
-- are functions.
--
-- Fuel: a read loop has the length of its buffer, since each frame shortens it; the entries of a page
-- have the length of the page, since each takes bytes; the pages of a listing have a number that the
-- theorem on it gives, one more than there are entries: a page asks for 16384 of them. The reader of a
-- connection has one round more than there are bytes, a copy one more than the source has bytes. A
-- wait of a paused job has no bound, so its fuel is a number of its own. A walk of a tree has one
-- round more than the directories that 32 levels of listings of a given length can hold.
--
-- Not modelled: sockets, the length of time-outs, the idle watchdog, the pool of connections, logs,
-- the GUI, the daemon beyond its walks of trees, the mount beyond its caches and its inode table,
-- pairing beyond its packets, the handshake of a connection, pulls, and the speed of a transfer, which
-- is a float. The text of an error is kept only where it travels in a reply, and a name of a file is
-- its bytes. Two connections at a time are not modelled: what another connection does to the kernel or
-- to the table of descriptors in between is not seen. A search of the three lists of the queue for an
-- id is one step, although it takes their locks one after the other. A request is one on a connection
-- that is open and idle.
pub mod Base
pub mod Packet
pub mod Transfer
pub mod Proxy
pub mod Fs
pub mod Pairing
pub mod Connection
pub mod Daemon
