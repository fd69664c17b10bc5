-- ===== src/Connection/Numbered/Steps.antt =====
-- Every step of a connection keeps its numbers, until local ids wrap.
use adbshare.Base.{
  ℕ, suc, ◌+◌, ◌%◌, ◌^◌, ◌<◌, ◌≡◌, inl, inr, refl, Bool, true, false, Option, none, some, List, [],
  ◌∷◌, ℕ_eq, arith, if_both,
}
use adbshare.Base.Assoc.{lookup, remove, insert}
use adbshare.Packet.{close}
use adbshare.Connection.{
  from_parts, StreamId, Reply, opened_as, failed_with, frame, control, AdbConnection, modify,
}
use adbshare.Connection.Reader.{handle_message}
use adbshare.Connection.Streams.{
  open_sent, has_sender, dropped, made, shut, taken_close, give_up, drop_end, abort_open, register,
  close_with, fresh_end, start_open, finish_open, poll_read, poll_write, shutdown, drop_stream,
  close_task, poll_end,
}
use adbshare.Connection.Reads.{poll_end-On}
use adbshare.Connection.Events.{
  wake, Event, receives, stops_reading, stops_writing, writes_out, opens, wakes, loses, elapses,
  reads, writes, shuts, drops, closes, step, run,
}
use adbshare.Connection.Numbered.{
  local_of, IsOwn, OwnEnd, IsNumbered, modify-IsNumbered, send_req-IsNumbered, forget-IsNumbered,
  settle-IsNumbered, drain_pending-IsNumbered, handle_as-IsNumbered, Numbers-insert,
}

drop_end-IsNumbered : (h : ℕ) (c : AdbConnection) → IsNumbered c → IsNumbered (drop_end h c)
drop_end-IsNumbered h c n = modify-IsNumbered c n h dropped (n.owned h)

abort_open-IsNumbered : (l : ℕ) (c : AdbConnection) → IsNumbered c → IsNumbered (abort_open l c)
unfolding abort_open
abort_open-IsNumbered l c n = forget-IsNumbered _ (settle-IsNumbered c n l) l

give_up-IsNumbered : (h : ℕ) (c : AdbConnection) → IsNumbered c → IsNumbered (give_up h c)
give_up-IsNumbered h c n = drop_end-IsNumbered h _ (abort_open-IsNumbered (c.ends h).id.local c n)

wake-IsNumbered :
    (o : Option Reply) (h : ℕ) (c : AdbConnection)
    → (c.ends h).reply ≡ o
    → IsNumbered c
    → IsNumbered (wake o h c)
unfolding finish_open
wake-IsNumbered none h c q n = n
wake-IsNumbered (some (opened_as i)) h c q n =
    let own : OwnEnd h (c.ends h) = n.owned h in
    modify-IsNumbered c n h (made i) (record {
      own_id = inr (own.own_reply i q);
      own_reply = own.own_reply;
      own_close = own.own_close;
    })
wake-IsNumbered (some (failed_with e)) h c q n = give_up-IsNumbered h c n

shutdown-IsNumbered : (h : ℕ) (c : AdbConnection) → IsNumbered c → IsNumbered (shutdown h c)
unfolding shutdown
shutdown-IsNumbered h c n =
    let own : OwnEnd h (c.ends h) = n.owned h in
    modify-IsNumbered c n h shut (
      if_both (OwnEnd h) (c.ends h).close_tx
        {x = record (c.ends h) { close_tx = false; close_rx = some (c.ends h).id }} {y = c.ends h}
        (record {
          own_id = own.own_id;
          own_reply = own.own_reply;
          own_close = λ i q. let same : (c.ends h).id ≡ i = cc in rw same at own.own_id;
        })
        own)

close_with-IsNumbered :
    (o : Option StreamId) (h : ℕ) (c : AdbConnection) → IsNumbered c → IsNumbered (close_with o h c)
close_with-IsNumbered none h c n = n
close_with-IsNumbered (some id) h c n =
    let own : OwnEnd h (c.ends h) = n.owned h in
    send_req-IsNumbered (modify h taken_close (record c { streams = remove id.local c.streams }))
      (modify-IsNumbered (record c { streams = remove id.local c.streams })
        (forget-IsNumbered c n id.local) h taken_close
        (record { own_id = own.own_id; own_reply = own.own_reply; own_close = λ i q. absurd cc }))
      (frame (control close id.local id.remote))

poll_read-IsNumbered :
    (h room : ℕ) (c : AdbConnection) → IsNumbered c → IsNumbered (poll_read h room c).0
unfolding poll_read
poll_read-IsNumbered h room c n =
    let live = has_sender h c.streams in
    let e = c.ends h in
    modify-IsNumbered c n h (λ e'. (poll_end room live e).0)
      (poll_end-On (λ i b r s. IsOwn h i r s) room live e (n.owned h))

register-IsNumbered :
    (c : AdbConnection) → c.opened + 2 < 2 ^ 32 → IsNumbered c → IsNumbered (register c)
unfolding register insert
register-IsNumbered c room n =
    let next : (c.next_local + 1) % 2 ^ 32 ≡ local_of c.opened = omega (arith, n.counted) in
    let c' = record c { opened = suc c.opened } in
    modify-IsNumbered
      (record c {
        next_local = (c.next_local + 1) % 2 ^ 32;
        streams = insert ((c.next_local + 1) % 2 ^ 32) c.opened c.streams;
        pending_opens = insert ((c.next_local + 1) % 2 ^ 32) c.opened c.pending_opens;
        opened = suc c.opened;
      })
      (record {
        counted = omega (arith, next);
        in_streams =
            Numbers-insert c.opened ((c.next_local + 1) % 2 ^ 32) c.streams next n.in_streams;
        in_pending =
            Numbers-insert c.opened ((c.next_local + 1) % 2 ^ 32) c.pending_opens next n.in_pending;
        owned = n.owned;
      })
      c.opened (λ e. fresh_end ((c.next_local + 1) % 2 ^ 32))
      (record { own_id = inr next; own_reply = λ i q. cc; own_close = λ i q. absurd cc })

open_sent-IsNumbered :
    (h l : ℕ) (p : AdbConnection × Bool) → IsNumbered p.0 → IsNumbered (open_sent h l p).0
open_sent-IsNumbered h l (c, true) n = n
open_sent-IsNumbered h l (c, false) n =
    drop_end-IsNumbered h (abort_open l c) (abort_open-IsNumbered l c n)

-- An open has a local id left.
abbrev pub HasRoom : AdbConnection → Event → Type 0
HasRoom c (opens dest) = c.opened + 2 < 2 ^ 32
HasRoom c _ = Unit {0}

pub step-IsNumbered :
    (c : AdbConnection) (e : Event) → HasRoom c e → IsNumbered c → IsNumbered (step c e)
unfolding step start_open finish_open drop_stream close_task poll_write handle_message
step-IsNumbered c (receives m) r n = handle_as-IsNumbered m.command m c n
step-IsNumbered c stops_reading r n = drain_pending-IsNumbered c.pending_opens c n
step-IsNumbered c stops_writing r n =
    unfold lookup in
    record {
      counted = n.counted;
      in_streams = λ l k q. ground arith;
      in_pending = n.in_pending;
      owned = n.owned;
    }
step-IsNumbered c writes_out r n = record {
  counted = n.counted;
  in_streams = n.in_streams;
  in_pending = n.in_pending;
  owned = n.owned;
}
step-IsNumbered c (opens dest) r n =
    open_sent-IsNumbered c.opened (register c).next_local _
      (send_req-IsNumbered (register c) (register-IsNumbered c r n) _)
step-IsNumbered c (wakes h) r n = wake-IsNumbered (c.ends h).reply h c refl n
step-IsNumbered c (loses h) r n = give_up-IsNumbered h c n
step-IsNumbered c (elapses h) r n = give_up-IsNumbered h c n
step-IsNumbered c (reads h room) r n = poll_read-IsNumbered h room c n
step-IsNumbered c (writes h buf) r n = send_req-IsNumbered c n _
step-IsNumbered c (shuts h) r n = shutdown-IsNumbered h c n
step-IsNumbered c (drops h) r n = drop_end-IsNumbered h (shutdown h c) (shutdown-IsNumbered h c n)
step-IsNumbered c (closes h) r n = close_with-IsNumbered (c.ends h).close_rx h c n

abbrev pub HaveRoom : AdbConnection → List Event → Type 0
HaveRoom c [] = Unit
HaveRoom c (e ∷ es) = HasRoom c e × HaveRoom (step c e) es

run-IsNumbered :
    (c : AdbConnection) (es : List Event) → HaveRoom c es → IsNumbered c → IsNumbered (run c es)
unfolding run
run-IsNumbered c [] r n = n
run-IsNumbered c (e ∷ es) r n = run-IsNumbered (step c e) es r.1 (step-IsNumbered c e r.0 n)

from_parts-IsNumbered : IsNumbered from_parts
unfolding lookup
from_parts-IsNumbered = record {
  counted = refl;
  in_streams = λ l k q. ground arith;
  in_pending = λ l k q. ground arith;
  owned = λ k. record { own_id = inl refl; own_reply = λ i q. cc; own_close = λ i q. absurd cc };
}

-- On a connection on which at most 2³² - 2 streams are opened, whatever its tasks, its streams and
-- the device do, in whatever order, the local id of each entry of the two maps, of each stream and
-- of each reply is the one that was made for its channels, so no id stands for two of them.
pub run-from_parts-IsNumbered :
    (es : List Event) → HaveRoom from_parts es → IsNumbered (run from_parts es)
run-from_parts-IsNumbered es room = run-IsNumbered from_parts es room from_parts-IsNumbered
