-- ===== src/Connection/Streams.antt =====
-- `open_stream`, with what runs before and after its wait for the reply, and the reads, writes and
-- the end of a `Stream`.
use adbshare.Base.{
  ℕ, suc, ◌+◌, ◌%◌, ◌^◌, ltb, min, Bool, true, false, ◌||◌, Option, none, some, List, [], ◌∷◌, ◌++◌,
  length, take, drop, ◌==◌, ℕ_eq, if◌then◌else◌,
}
use adbshare.Base.Bytes.{Bytes}
use adbshare.Base.Assoc.{Assoc, remove, insert}
use adbshare.Packet.{open_cmd, close, max_payload}
use adbshare.Connection.{
  StreamId, OpenError, disconnected, timeout, Reply, opened_as, failed_with, frame, data_of,
  Endpoint, AdbConnection, no_end, modify, send_req, control,
}

unfoldable pub abort_open : ℕ → AdbConnection → AdbConnection
abort_open local c = record c {
  pending_opens = remove local c.pending_opens;
  streams = remove local c.streams;
}

-- The new endpoint: the channels are there, and no stream yet.
abbrev pub fresh_end : ℕ → Endpoint
fresh_end local = record no_end { id = record { local = local; remote = 0 }; rx_open = true }

-- The id taken and both channels registered.
unfoldable pub register : AdbConnection → AdbConnection
register c =
    let local = (c.next_local + 1) % 2 ^ 32 in
    modify c.opened (λ e. fresh_end local)
      (record c {
        next_local = local;
        streams = insert local c.opened c.streams;
        pending_opens = insert local c.opened c.pending_opens;
        opened = suc c.opened;
      })

-- The receivers that a failed `open_stream` drops.
abbrev pub dropped : Endpoint → Endpoint
dropped e = record e { rx_open = false; rx = []; incoming = none }

abbrev pub drop_end : ℕ → AdbConnection → AdbConnection
drop_end h = modify h dropped

-- `open_stream` up to its wait: `true` if it waits, `false` if it returned `Disconnected`.
abbrev pub open_sent : ℕ → ℕ → AdbConnection × Bool → AdbConnection × Bool
open_sent h local (c, true) = (c, true)
open_sent h local (c, false) = (drop_end h (abort_open local c), false)

unfoldable pub start_open : Bytes → AdbConnection → AdbConnection × Bool
start_open dest c =
    let c' = register c in
    open_sent c.opened c'.next_local (
      send_req (frame (record (control open_cmd c'.next_local 0) { payload = dest ++ (0 ∷ []) }))
        c')

-- What the wait for the reply ends with: a reply, a dropped sender, or the time-out.
pub data Waited : Type 0 where
  replied : Reply → Waited
  sender_dropped elapsed : Waited

abbrev pub give_up : ℕ → AdbConnection → AdbConnection
give_up h c = drop_end h (abort_open (c.ends h).id.local c)

abbrev pub made : StreamId → Endpoint → Endpoint
made id e = record e { id = id; incoming = none; close_tx = true }

-- `open_stream` from there on: the stream is `ends h`.
unfoldable pub finish_open : ℕ → Waited → AdbConnection → AdbConnection × Option OpenError
unfolding abort_open
finish_open h (replied (opened_as id)) c = (modify h (made id) c, none)
finish_open h (replied (failed_with e)) c = (give_up h c, some e)
finish_open h sender_dropped c = (give_up h c, some disconnected)
finish_open h elapsed c = (give_up h c, some timeout)

abbrev pub shut : Endpoint → Endpoint
shut e = if e.close_tx then record e { close_tx = false; close_rx = some e.id } else e

-- `poll_shutdown`, and the body of `drop`
unfoldable pub shutdown : ℕ → AdbConnection → AdbConnection
shutdown h = modify h shut

-- `drop` of the whole stream, with its receiver.
unfoldable pub drop_stream : ℕ → AdbConnection → AdbConnection
unfolding shutdown
drop_stream h c = drop_end h (shutdown h c)

abbrev pub taken_close : Endpoint → Endpoint
taken_close e = record e { close_rx = none }

-- The task that waits on `close_rx`, with an id received.
abbrev pub close_with : Option StreamId → ℕ → AdbConnection → AdbConnection
close_with none h c = c
close_with (some id) h c =
    (send_req (frame (control close id.local id.remote))
      (modify h taken_close (record c { streams = remove id.local c.streams }))).0

unfoldable pub close_task : ℕ → AdbConnection → AdbConnection
close_task h c = close_with (c.ends h).close_rx h c

-- Whether the map still has the sender of an endpoint, so that its channel is not at its end.
unfoldable pub has_sender : ℕ → Assoc ℕ ℕ → Bool
has_sender h [] = false
has_sender h ((local, k) ∷ rest) = (k == h) || has_sender h rest

pub data Polled : Type 0 where
  filled : Bytes → Polled
  waits : Polled

-- A chunk into `room` bytes of the buffer; the rest is kept.
abbrev pub put_slice : ℕ → Bytes → Endpoint → Endpoint × Polled
put_slice room chunk e =
    let n = min (length chunk) room in
    (
      (if ltb n (length chunk) then record e { incoming = some (drop n chunk) } else e),
      filled (take n chunk),
    )

abbrev pub recv : ℕ → Bool → List Bytes → Endpoint → Endpoint × Polled
recv room live [] e = if live then (e, waits) else (e, filled [])
recv room live (chunk ∷ rest) e = put_slice room chunk (record e { rx = rest })

abbrev pub read_pending : ℕ → Bool → Option Bytes → Endpoint → Endpoint × Polled
read_pending room live none e = recv room live e.rx e
read_pending room live (some pending) e =
    let e' = record e { incoming = none } in
    if ltb 0 (min (length pending) room)
    then put_slice room pending e'
    else recv room live e'.rx (put_slice room pending e').0

-- `poll_read` on an endpoint; `live` says that the channel has a sender.
unfoldable pub poll_end : ℕ → Bool → Endpoint → Endpoint × Polled
poll_end room live e = if room == 0 then (e, filled []) else read_pending room live e.incoming e

unfoldable pub poll_read : ℕ → ℕ → AdbConnection → AdbConnection × Polled
poll_read h room c =
    let got = poll_end room (has_sender h c.streams) (c.ends h) in (modify h (λ e. got.0) c, got.1)

-- `poll_write` with a free slot: how much was taken. `none` is `BrokenPipe`.
unfoldable pub poll_write : ℕ → Bytes → AdbConnection → AdbConnection × Option ℕ
poll_write h buf c =
    let n = min (length buf) max_payload in
    let sent = send_req (data_of (c.ends h).id (take n buf)) c in
    (sent.0, if sent.1 then some n else none)
