-- ===== src/Connection/Reader.antt =====
-- The two tasks of `from_parts`: the reader, which takes frames apart and dispatches them, and the
-- writer.
use adbshare.Base.{
  ℕ, zero, suc, ◌+◌, ltb, min, Bool, true, false, Option, none, some, [], ◌∷◌, ◌++◌, length, take,
  drop, ℕ_eq, if◌then◌else◌,
}
use adbshare.Base.Bytes.{Bytes, slice}
use adbshare.Base.Assoc.{Assoc, lookup, remove}
use adbshare.Packet.{
  Command, okay, close, write, fail, Result, Message, ok, err, max_payload, header_len, u32_at,
  decode, encode,
}
use adbshare.Connection.{
  OpenError, disconnected, clse_on_open, refused_stream, refused_because, Reply, opened_as,
  failed_with, WriteReq, frame, data_of, Endpoint, AdbConnection, modify, send_req, control,
}

abbrev pub replied_to : Reply → Endpoint → Endpoint
replied_to r e = record e { reply = some r }

abbrev pub send_reply : ℕ → Reply → AdbConnection → AdbConnection
send_reply h r = modify h (replied_to r)

abbrev pub resolve_found : Option ℕ → ℕ → Reply → AdbConnection → AdbConnection
resolve_found none local r c = c
resolve_found (some h) local r c =
    send_reply h r (record c { pending_opens = remove local c.pending_opens })

-- `if let Some(tx) = pending_opens_r.lock().remove(&local) { let _ = tx.send(r); }`
unfoldable pub resolve : ℕ → Reply → AdbConnection → AdbConnection
resolve local r c = resolve_found (lookup local c.pending_opens) local r c

-- The reason of a FAIL, as the bytes of its text.
unfoldable pub fail_reason : Bytes → Bytes
fail_reason payload =
    if ltb 4 (length payload)
    then slice payload 4 (min (4 + u32_at payload 0) (length payload))
    else []

unfoldable pub refused_error : ℕ → ℕ → Bytes → OpenError
refused_error local remote [] = refused_stream local remote
refused_error local remote (b ∷ bs) = refused_because (b ∷ bs)

abbrev pub received : Bytes → Endpoint → Endpoint
received payload e = record e { rx = e.rx ++ (payload ∷ []) }

-- What is left of `Command::Write` once the map was asked: `false` is a `break`.
abbrev pub deliver : Option ℕ → Message → AdbConnection → AdbConnection × Bool
deliver none m c = (c, true)
deliver (some h) m c =
    if (c.ends h).rx_open
    then send_req (frame (control okay m.arg1 m.arg0)) (modify h (received m.payload) c)
    else send_req (frame (control close m.arg1 m.arg0))
        (record c { streams = remove m.arg1 c.streams })

abbrev pub handle_as : Command → Message → AdbConnection → AdbConnection × Bool
handle_as okay m c =
    (resolve m.arg1 (opened_as (record { local = m.arg1; remote = m.arg0 })) c, true)
handle_as fail m c =
    (resolve m.arg1 (failed_with (refused_error m.arg1 m.arg0 (fail_reason m.payload))) c, true)
handle_as close m c =
    let c' = resolve m.arg1 (failed_with clse_on_open) c in
    (record c' { streams = remove m.arg1 c'.streams }, true)
handle_as write m c = deliver (lookup m.arg1 c.streams) m c
handle_as _ m c = (c, true)

-- The `match msg.command` of the reader.
unfoldable pub handle_message : Message → AdbConnection → AdbConnection × Bool
handle_message m c = handle_as m.command m c

-- `pending_opens_r.lock().drain()`
unfoldable pub drain_pending : Assoc ℕ ℕ → AdbConnection → AdbConnection
drain_pending [] c = record c { pending_opens = [] }
drain_pending ((local, h) ∷ rest) c = drain_pending rest (send_reply h (failed_with disconnected) c)

-- What one round reads: the end, by an error or for a frame that is too long, a frame that `decode`
-- refuses, or a message; and the bytes that follow.
pub data Read : Type 0 where
  ended : Read
  skipped : Bytes → Read
  message : Message → Bytes → Read

abbrev pub decoded : Result Message → Bytes → Read
decoded (ok m) rest = message m rest
decoded (err e) rest = skipped rest

-- `read_exact` fails where the input ends too soon.
unfoldable pub read_message : Bytes → Read
read_message input =
    if ltb (length input) header_len
    then ended
    else let header = take header_len input in
      let after = drop header_len input in
      let len = u32_at header 12 in
      if ltb max_payload len
      then ended
      else if ltb (length after) len
      then ended
      else decoded (decode header (take len after)) (drop len after)

-- What follows a handle_message, and what follows a read, before the next round.
abbrev pub after_message :
    (Bytes → AdbConnection → Option AdbConnection)
    → Bytes
    → AdbConnection × Bool
    → Option AdbConnection
after_message next rest (c, true) = next rest c
after_message next rest (c, false) = some (drain_pending c.pending_opens c)

abbrev pub after_read :
    (Bytes → AdbConnection → Option AdbConnection) → Read → AdbConnection → Option AdbConnection
after_read next ended c = some (drain_pending c.pending_opens c)
after_read next (skipped rest) c = next rest c
after_read next (message m rest) c = after_message next rest (handle_message m c)

-- `none` stands for fuel that ran out; each round takes one of it.
unfoldable pub reader : ℕ → Bytes → AdbConnection → Option AdbConnection
reader zero input c = none
reader (suc fuel) input c = after_read (reader fuel) (read_message input) c

-- The frame that the writer makes of a request.
unfoldable pub frame_of : WriteReq → Message
frame_of (frame m) = m
frame_of (data_of id payload) = record {
  command = write;
  arg0 = id.local;
  arg1 = id.remote;
  payload = payload;
}

-- One round of the writer with a request in the queue: its bytes. `none` is the panic of `encode`.
unfoldable pub write_frame : WriteReq → Option Bytes
write_frame req = encode (frame_of req)
