-- ===== src/Connection/Events.antt =====
-- The steps of a connection's tasks, and what is received and read over them.
use adbshare.Base.{ℕ, false, Option, none, some, List, [], ◌∷◌, ◌++◌, ◌==◌, ℕ_eq, if◌then◌else◌}
use adbshare.Base.Bytes.{Bytes, joined}
use adbshare.Packet.{Command, write, Message}
use adbshare.Connection.{Reply, WriteReq, Endpoint, AdbConnection}
use adbshare.Connection.Reader.{handle_message, drain_pending}
use adbshare.Connection.Streams.{
  replied, sender_dropped, elapsed, start_open, finish_open, poll_read, poll_write, shutdown,
  drop_stream, close_task, Polled, filled, waits,
}

-- What a task does between two waits: the reader with a message, and at its end; an `open_stream`
-- before its wait, and after it; the calls on a stream; the task that closes one; and the writer,
-- which takes a request, and at its end drops the senders.
pub data Event : Type 0 where
  receives : Message → Event
  stops_reading stops_writing writes_out : Event
  opens : Bytes → Event
  wakes loses elapses : ℕ → Event
  reads : ℕ → ℕ → Event
  writes : ℕ → Bytes → Event
  shuts drops closes : ℕ → Event

abbrev pub tail : List WriteReq → List WriteReq
tail [] = []
tail (r ∷ rs) = rs

abbrev pub wake : Option Reply → ℕ → AdbConnection → AdbConnection
wake none h c = c
wake (some r) h c = (finish_open h (replied r) c).0

unfoldable pub step : AdbConnection → Event → AdbConnection
step c (receives m) = (handle_message m c).0
step c stops_reading = drain_pending c.pending_opens c
step c stops_writing = record c { streams = []; write_open = false }
step c writes_out = record c { write_queue = tail c.write_queue }
step c (opens dest) = (start_open dest c).0
step c (wakes h) = wake (c.ends h).reply h c
step c (loses h) = (finish_open h sender_dropped c).0
step c (elapses h) = (finish_open h elapsed c).0
step c (reads h room) = (poll_read h room c).0
step c (writes h buf) = (poll_write h buf c).0
step c (shuts h) = shutdown h c
step c (drops h) = drop_stream h c
step c (closes h) = close_task h c

unfoldable pub run : AdbConnection → List Event → AdbConnection
run c [] = c
run c (e ∷ es) = run (step c e) es

-- The bytes that a call of `poll_read` on stream `h` returns.
abbrev pub bytes_of : Polled → Bytes
bytes_of (filled bs) = bs
bytes_of waits = []

abbrev pub taken_by : ℕ → AdbConnection → Event → Bytes
taken_by h c (reads k room) = if k == h then bytes_of (poll_read k room c).1 else []
taken_by h c _ = []

unfoldable pub taken : ℕ → AdbConnection → List Event → Bytes
taken h c [] = []
taken h c (e ∷ es) = taken_by h c e ++ taken h (step c e) es

-- What is received for a stream and not yet read.
abbrev pub or_empty : Option Bytes → Bytes
or_empty none = []
or_empty (some bs) = bs

unfoldable pub unread : Endpoint → Bytes
unread e = or_empty e.incoming ++ joined e.rx

-- The payloads that the device addresses to a local id.
abbrev pub payload_for : Command → ℕ → Message → Bytes
payload_for write l m = if m.arg1 == l then m.payload else []
payload_for _ l m = []

abbrev pub sent_by : ℕ → Event → Bytes
sent_by l (receives m) = payload_for m.command l m
sent_by l _ = []

unfoldable pub addressed : ℕ → List Event → Bytes
addressed l [] = []
addressed l (e ∷ es) = sent_by l e ++ addressed l es
