-- ===== src/Connection/Numbered.antt =====
-- The ids of the streams, their endpoints and the two maps agree, until local ids wrap.
pub mod Steps
use adbshare.Base.{
  nat_eq_iff, ℕ, zero, suc, ◌+◌, ◌-◌, ◌%◌, ◌^◌, ◌≤◌, ◌<◌, ◌≡◌, ◌≢◌, ◌⊎◌, inl, inr, refl, ap, sym,
  ◌∙◌, ltb, min, Bool, true, false, not, ◌||◌, Option, none, some, List, [], ◌∷◌, ◌++◌, length,
  take, drop, ◌==◌, ℕ_eq, if◌then◌else◌, arith, Option-cases, Bool-cases, if_both, eq_true,
  take-append-drop, drop-all,
}
use mathlib.Core.List.{append_assoc, append-nil}
use adbshare.Base.Bytes.{Bytes, joined, joined-append}
use adbshare.Base.Assoc.{Assoc, lookup, remove, insert, lookup-remove, lookup-insert}
use adbshare.Packet.{Command, sync, connect, open_cmd, okay, close, write, auth, fail, Message}
use adbshare.Connection.{
  from_parts, StreamId, Reply, opened_as, failed_with, disconnected, clse_on_open, WriteReq, frame,
  control, Endpoint, AdbConnection, modify, send_req,
}
use adbshare.Connection.Reader.{
  handle_message, handle_as, deliver, replied_to, received, send_reply, resolve, drain_pending,
}
use adbshare.Connection.Streams.{
  open_sent, has_sender, dropped, made, shut, taken_close, give_up, drop_end, abort_open, register,
  close_with, fresh_end, Waited, replied, sender_dropped, elapsed, start_open, finish_open,
  poll_read, poll_write, shutdown, drop_stream, close_task, poll_end, Polled, filled, waits,
  put_slice, recv, read_pending,
}
use adbshare.Connection.Reads.{poll_end-On}
use adbshare.Connection.Events.{
  wake, Event, receives, stops_reading, stops_writing, writes_out, opens, wakes, loses, elapses,
  reads, writes, shuts, drops, closes, step, run, bytes_of, taken_by, taken, unread, or_empty,
  sent_by, addressed, tail,
}

-- The endpoint numbered `k` is the one whose local id is `k + 2`.
abbrev pub local_of : ℕ → ℕ
local_of k = k + 2

pub record IsOwn (k : ℕ) (id : StreamId) (reply : Option Reply) (sent : Option StreamId)
    : Type 0 where
  pub own_id : (id.local ≡ 0) ⊎ (id.local ≡ local_of k)
  pub own_reply : (i : StreamId) → reply ≡ some (opened_as i) → i.local ≡ local_of k
  pub own_close : (i : StreamId) → sent ≡ some i → (i.local ≡ 0) ⊎ (i.local ≡ local_of k)

abbrev pub OwnEnd : ℕ → Endpoint → Type 0
OwnEnd k e = IsOwn k e.id e.reply e.close_rx

abbrev pub Numbers : ℕ → Assoc ℕ ℕ → Type 0
Numbers opened m = (l k : ℕ) → lookup l m ≡ some k → (l ≡ local_of k) × (k < opened)

-- Local ids have not wrapped yet.
pub record IsNumbered (c : AdbConnection) : Type 0 where
  pub counted : c.next_local ≡ c.opened + 1
  pub in_streams : Numbers c.opened c.streams
  pub in_pending : Numbers c.opened c.pending_opens
  pub owned : (k : ℕ) → OwnEnd k (c.ends k)

pub Numbers-insert :
    (opened l : ℕ) (m : Assoc ℕ ℕ)
    → l ≡ local_of opened
    → Numbers opened m
    → Numbers (suc opened) (insert l opened m)
Numbers-insert opened l m own n j k h =
    ground (arith, n j k, lookup-insert l j opened m, nat_eq_iff l j)

Numbers-remove : (opened l : ℕ) (m : Assoc ℕ ℕ) → Numbers opened m → Numbers opened (remove l m)
Numbers-remove opened l m n j k h = ground (arith, n j k, lookup-remove l j m)

module _ (c : AdbConnection) (n : IsNumbered c) where
  pub modify-IsNumbered :
      (h : ℕ) (f : Endpoint → Endpoint) → OwnEnd h (f (c.ends h)) → IsNumbered (modify h f c)
  modify-IsNumbered h f own = record {
    counted = n.counted;
    in_streams = n.in_streams;
    in_pending = n.in_pending;
    owned = λ k. elim (Bool-cases (h == k)) [
      | inl t ↦ let i : h ≡ k = eq_true t in rw t (rw i at own)
      | inr t ↦ rw t (n.owned k)
    ];
  }

  pub send_req-IsNumbered : (r : WriteReq) → IsNumbered (send_req r c).0
  unfolding send_req
  send_req-IsNumbered r =
      if_both (λ (p : AdbConnection × Bool). IsNumbered p.0) c.write_open
        (record {
          counted = n.counted;
          in_streams = n.in_streams;
          in_pending = n.in_pending;
          owned = n.owned;
        })
        n

  pub forget-IsNumbered : (l : ℕ) → IsNumbered (record c { streams = remove l c.streams })
  forget-IsNumbered l = record {
    counted = n.counted;
    in_streams = Numbers-remove c.opened l c.streams n.in_streams;
    in_pending = n.in_pending;
    owned = n.owned;
  }

  pub settle-IsNumbered :
      (l : ℕ) → IsNumbered (record c { pending_opens = remove l c.pending_opens })
  settle-IsNumbered l = record {
    counted = n.counted;
    in_streams = n.in_streams;
    in_pending = Numbers-remove c.opened l c.pending_opens n.in_pending;
    owned = n.owned;
  }

send_reply-IsNumbered :
    (k : ℕ) (r : Reply) (c : AdbConnection)
    → ((i : StreamId) → r ≡ opened_as i → i.local ≡ local_of k)
    → IsNumbered c
    → IsNumbered (send_reply k r c)
send_reply-IsNumbered k r c own n = modify-IsNumbered c n k (replied_to r) (record {
  own_id = (n.owned k).own_id;
  own_reply = λ i q. own i cc;
  own_close = (n.owned k).own_close;
})

resolve-IsNumbered :
    (l : ℕ) (r : Reply) (c : AdbConnection)
    → ((i : StreamId) → r ≡ opened_as i → i.local ≡ l)
    → IsNumbered c
    → IsNumbered (resolve l r c)
unfolding resolve
resolve-IsNumbered l r c own n = elim (Option-cases (lookup l c.pending_opens)) [
  | inl q ↦ rw q n
  | inr (k, q) ↦ rw q (
      send_reply-IsNumbered k r (record c { pending_opens = remove l c.pending_opens })
        (λ i s. own i s ∙ (n.in_pending l k q).0) (settle-IsNumbered c n l))
]

deliver-IsNumbered :
    (o : Option ℕ) (m : Message) (c : AdbConnection) → IsNumbered c → IsNumbered (deliver o m c).0
deliver-IsNumbered none m c n = n
deliver-IsNumbered (some h) m c n =
    if_both (λ (p : AdbConnection × Bool). IsNumbered p.0) (c.ends h).rx_open
      (send_req-IsNumbered (modify h (received m.payload) c)
        (modify-IsNumbered c n h (received m.payload) (n.owned h))
        (frame (control okay m.arg1 m.arg0)))
      (send_req-IsNumbered (record c { streams = remove m.arg1 c.streams })
        (forget-IsNumbered c n m.arg1) (frame (control close m.arg1 m.arg0)))

pub handle_as-IsNumbered :
    (k : Command) (m : Message) (c : AdbConnection) → IsNumbered c → IsNumbered (handle_as k m c).0
handle_as-IsNumbered okay m c n = resolve-IsNumbered m.arg1 _ c (λ i q. cc) n
handle_as-IsNumbered fail m c n = resolve-IsNumbered m.arg1 _ c (λ i q. cc) n
handle_as-IsNumbered close m c n =
    forget-IsNumbered _ (resolve-IsNumbered m.arg1 (failed_with clse_on_open) c (λ i q. cc) n)
      m.arg1
handle_as-IsNumbered write m c n = deliver-IsNumbered (lookup m.arg1 c.streams) m c n
handle_as-IsNumbered _ m c n = n

pub drain_pending-IsNumbered :
    (ps : Assoc ℕ ℕ) (c : AdbConnection) → IsNumbered c → IsNumbered (drain_pending ps c)
unfolding drain_pending lookup
drain_pending-IsNumbered [] c n = record {
  counted = n.counted;
  in_streams = n.in_streams;
  in_pending = λ l k q. ground arith;
  owned = n.owned;
}
drain_pending-IsNumbered ((l, h) ∷ ps) c n =
    drain_pending-IsNumbered ps (send_reply h (failed_with disconnected) c)
      (send_reply-IsNumbered h (failed_with disconnected) c (λ i q. cc) n)
