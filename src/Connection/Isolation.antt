-- ===== src/Connection/Isolation.antt =====
-- What a stream's reader gets, whatever else happens on the connection meanwhile.
use adbshare.Base.{
  ℕ, ◌+◌, ◌^◌, ◌<◌, ◌≡◌, ◌≢◌, ◌⊎◌, inl, inr, refl, ap, sym, ◌∙◌, Bool, true, Option, none, some,
  List, [], ◌∷◌, ◌++◌, ◌==◌, ℕ_eq, if◌then◌else◌, arith, Bool-cases, if_both, eq_true,
  ne_of_eq_false, eq_self, if_then,
}
use mathlib.Core.List.{append_assoc, append-nil}
use adbshare.Base.Bytes.{Bytes, joined, joined-append}
use adbshare.Base.Assoc.{lookup, remove}
use adbshare.Packet.{Command, okay, close, write, fail, Message}
use adbshare.Connection.{
  StreamId, Reply, opened_as, failed_with, clse_on_open, frame, control, AdbConnection, modify,
  send_req,
}
use adbshare.Connection.Reader.{handle_message, handle_as, deliver, received}
use adbshare.Connection.Streams.{
  has_sender, made, finish_open, poll_read, poll_write, shutdown, drop_stream, close_task, poll_end,
}
use adbshare.Connection.Reads.{poll_end-unread, poll_end-On}
use adbshare.Connection.Events.{
  wake, Event, receives, stops_reading, stops_writing, writes_out, opens, wakes, loses, elapses,
  reads, writes, shuts, drops, closes, step, run, bytes_of, taken_by, taken, unread, or_empty,
  sent_by, payload_for, addressed,
}
use adbshare.Connection.Numbered.Steps.{HasRoom, step-IsNumbered}
use adbshare.Connection.Numbered.{local_of, IsNumbered}
use adbshare.Connection.Keeps.{
  Keeps, Keeps-trans, Keeps-same, send_req-Keeps, modify-Keeps, other-Keeps, forget-Keeps,
  drain_pending-Keeps, resolve-Keeps, shutdown-Keeps, drop_end-Keeps, give_up-Keeps,
  close_with-Keeps, start_open-Keeps,
}

module _ (h : ℕ) where
  -- While stream `h` is open: the device does not close it, the writer goes on, no one drops or
  -- closes the stream, and an `open_stream` that wakes for it gets a stream that was not read yet.
  abbrev pub Spares : Command → ℕ → Type 0
  Spares close l = l ≢ local_of h
  Spares _ l = Unit {0}

  abbrev pub StaysOpen : AdbConnection → Event → Type 0
  StaysOpen c (receives m) = Spares m.command m.arg1
  StaysOpen c stops_writing = ⊥
  StaysOpen c (opens dest) = c.opened + 2 < 2 ^ 32
  StaysOpen c (wakes k) =
      (k ≢ h)
      ⊎ (((c.ends h).incoming ≡ none) × ((i : StreamId) × ((c.ends h).reply ≡ some (opened_as i))))
  StaysOpen c (loses k) = k ≢ h
  StaysOpen c (elapses k) = k ≢ h
  StaysOpen c (drops k) = k ≢ h
  StaysOpen c (closes k) = k ≢ h
  StaysOpen c _ = Unit {0}

  pub record IsOpen (c : AdbConnection) : Type 0 where
    pub entered : lookup (local_of h) c.streams ≡ some h
    pub receiving : (c.ends h).rx_open ≡ true

  record Flows (c : AdbConnection) (back there : Bytes) (c' : AdbConnection) : Type 0 where
    still : IsOpen c'
    flow : back ++ unread (c'.ends h) ≡ unread (c.ends h) ++ there

  Keeps-Flows : {c c' : AdbConnection} → IsOpen c → Keeps h c c' → Flows c [] [] c'
  unfolding unread
  Keeps-Flows {c} {c'} o k = record {
    still = record { entered = k.same_entry ∙ o.entered; receiving = k.same_open ∙ o.receiving };
    flow =
        rw (k.same_rx, k.same_incoming)
          (sym (append-nil (or_empty (c.ends h).incoming ++ joined (c.ends h).rx)));
  }

  wake-Keeps :
      (r : Option Reply) (k : ℕ) (c : AdbConnection)
      → IsNumbered c
      → (c.ends k).reply ≡ r
      → StaysOpen c (wakes k)
      → Keeps h c (wake r k c)
  unfolding finish_open
  wake-Keeps none k c n q s = Keeps-same h c c refl refl
  wake-Keeps (some (opened_as i)) k c n q (inl ne) = other-Keeps h k (made i) c ne
  wake-Keeps (some (opened_as i)) k c n q (inr (e, s)) =
      modify-Keeps h k (made i) c refl (sym e) refl
  wake-Keeps (some (failed_with e)) k c n q (inl ne) = give_up-Keeps h k c n ne
  wake-Keeps (some (failed_with e)) k c n q (inr (u, (i, s))) = elim (Bool-cases (k == h)) [
    | inl t ↦ let same : k ≡ h = eq_true t in absurd (ground arith)
    | inr t ↦ give_up-Keeps h k c n (ne_of_eq_false t)
  ]

  received-Flows :
      (m : Message) (c : AdbConnection)
      → IsOpen c
      → Flows c [] m.payload (modify h (received m.payload) c)
  unfolding unread
  received-Flows m c o =
      let here : (h == h) ≡ true = eq_self h in
      record {
        still = record { entered = o.entered; receiving = rw here o.receiving };
        flow =
            rw (here, joined-append (c.ends h).rx (m.payload ∷ []), append-nil m.payload)
              (sym (append_assoc (or_empty (c.ends h).incoming) (joined (c.ends h).rx) m.payload));
      }

  Flows-Keeps :
      {c c' c'' : AdbConnection} {b t : Bytes} → Flows c b t c' → Keeps h c' c'' → Flows c b t c''
  unfolding unread
  Flows-Keeps {c} {c'} {c''} {b} f k = record {
    still = (Keeps-Flows f.still k).still;
    flow = rw (k.same_rx, k.same_incoming) f.flow;
  }

  deliver_here :
      (m : Message) (c : AdbConnection) → IsOpen c → Flows c [] m.payload (deliver (some h) m c).0
  deliver_here m c o =
      if_then (λ (p : AdbConnection × Bool). Flows c [] m.payload p.0) (c.ends h).rx_open
        {x = send_req (frame (control okay m.arg1 m.arg0)) (modify h (received m.payload) c)}
        (send_req (frame (control close m.arg1 m.arg0))
          (record c { streams = remove m.arg1 c.streams }))
        o.receiving
        (Flows-Keeps (received-Flows m c o)
          (send_req-Keeps h (frame (control okay m.arg1 m.arg0)) (modify h (received m.payload) c)))

  deliver-Keeps :
      (o : Option ℕ) (m : Message) (c : AdbConnection)
      → lookup m.arg1 c.streams ≡ o
      → IsNumbered c
      → m.arg1 ≢ local_of h
      → Keeps h c (deliver o m c).0
  deliver-Keeps none m c q n ne = Keeps-same h c c refl refl
  deliver-Keeps (some k) m c q n ne =
      let forgotten = record c { streams = remove m.arg1 c.streams } in
      if_both (λ (p : AdbConnection × Bool). Keeps h c p.0) (c.ends k).rx_open
        {x = send_req (frame (control okay m.arg1 m.arg0)) (modify k (received m.payload) c)}
        {y = send_req (frame (control close m.arg1 m.arg0)) forgotten}
        (Keeps-trans
          (other-Keeps h k (received m.payload) c
            (λ e. ne ((n.in_streams m.arg1 k q).0 ∙ ap local_of e)))
          (send_req-Keeps h _ (modify k (received m.payload) c)))
        (Keeps-trans (forget-Keeps h m.arg1 c ne) (send_req-Keeps h _ forgotten))

  deliver-Flows :
      (m : Message) (c : AdbConnection)
      → IsNumbered c
      → IsOpen c
      → Flows c []
          (if m.arg1 == local_of h then m.payload else [])
          (deliver (lookup m.arg1 c.streams) m c).0
  deliver-Flows m c n o = elim (Bool-cases (m.arg1 == local_of h)) [
    | inl t ↦
        let here : lookup m.arg1 c.streams ≡ some h =
          ap (λ l. lookup l c.streams) (eq_true t) ∙ o.entered in
        rw (t, here) (deliver_here m c o)
    | inr t ↦
        rw t (Keeps-Flows o (deliver-Keeps (lookup m.arg1 c.streams) m c refl n (ne_of_eq_false t)))
  ]

  handle_as-Flows :
      (k : Command) (m : Message) (c : AdbConnection)
      → IsNumbered c
      → IsOpen c
      → Spares k m.arg1
      → Flows c [] (payload_for k (local_of h) m) (handle_as k m c).0
  handle_as-Flows okay m c n o s = Keeps-Flows o (resolve-Keeps h m.arg1 _ c)
  handle_as-Flows fail m c n o s = Keeps-Flows o (resolve-Keeps h m.arg1 _ c)
  handle_as-Flows close m c n o s = Keeps-Flows o (
      Keeps-trans (resolve-Keeps h m.arg1 (failed_with clse_on_open) c) (forget-Keeps h m.arg1 _ s))
  handle_as-Flows write m c n o s = deliver-Flows m c n o
  handle_as-Flows _ m c n o s = Keeps-Flows o (Keeps-same h c c refl refl)

  read_here :
      (room : ℕ) (c : AdbConnection)
      → IsOpen c
      → Flows c (bytes_of (poll_read h room c).1) [] (poll_read h room c).0
  unfolding poll_read
  read_here room c o =
      let here : (h == h) ≡ true = eq_self h in
      let live = has_sender h c.streams in
      record {
        still = record {
          entered = o.entered;
          receiving = rw here (poll_end-On (λ i b r s. b ≡ true) room live (c.ends h) o.receiving);
        };
        flow = rw (here, append-nil (unread (c.ends h))) (poll_end-unread room live (c.ends h));
      }

  reads-Flows :
      (k room : ℕ) (c : AdbConnection)
      → IsOpen c
      → Flows c (taken_by h c (reads k room)) [] (poll_read k room c).0
  reads-Flows k room c o = elim (Bool-cases (k == h)) [
    | inl t ↦ let same : k ≡ h = eq_true t in rw (same, eq_self h) (read_here room c o)
    | inr t ↦
        unfold poll_read in
        let live = has_sender k c.streams in
        rw t (
          Keeps-Flows o
            (other-Keeps h k (λ e. (poll_end room live (c.ends k)).0) c (ne_of_eq_false t)))
  ]

  step-Flows :
      (c : AdbConnection) (e : Event)
      → IsNumbered c
      → IsOpen c
      → StaysOpen c e
      → Flows c (taken_by h c e) (sent_by (local_of h) e) (step c e)
  unfolding step finish_open drop_stream close_task poll_write handle_message shutdown
  step-Flows c (receives m) n o s = handle_as-Flows m.command m c n o s
  step-Flows c stops_reading n o s = Keeps-Flows o (drain_pending-Keeps h c.pending_opens c)
  step-Flows c stops_writing n o s = absurd s
  step-Flows c writes_out n o s = Keeps-Flows o (Keeps-same h c _ refl refl)
  step-Flows c (opens dest) n o s =
      Keeps-Flows o (start_open-Keeps h dest c n s (n.in_streams (local_of h) h o.entered).1)
  step-Flows c (wakes k) n o s = Keeps-Flows o (wake-Keeps (c.ends k).reply k c n refl s)
  step-Flows c (loses k) n o s = Keeps-Flows o (give_up-Keeps h k c n s)
  step-Flows c (elapses k) n o s = Keeps-Flows o (give_up-Keeps h k c n s)
  step-Flows c (reads k room) n o s = reads-Flows k room c o
  step-Flows c (writes k buf) n o s = Keeps-Flows o (send_req-Keeps h _ c)
  step-Flows c (shuts k) n o s = Keeps-Flows o (shutdown-Keeps h k c)
  step-Flows c (drops k) n o s =
      Keeps-Flows o (Keeps-trans (shutdown-Keeps h k c) (drop_end-Keeps h k (shutdown k c) s))
  step-Flows c (closes k) n o s =
      Keeps-Flows o (close_with-Keeps h (c.ends k).close_rx k c n refl s)

StaysOpen-HasRoom : (h : ℕ) (c : AdbConnection) (e : Event) → StaysOpen h c e → HasRoom c e
StaysOpen-HasRoom h c (opens dest) s = s
StaysOpen-HasRoom h c _ s = tt

-- A stretch of events over which stream `h` stays open.
abbrev pub AllStayOpen : ℕ → AdbConnection → List Event → Type 0
AllStayOpen h c [] = Unit
AllStayOpen h c (e ∷ es) = StaysOpen h c e × AllStayOpen h (step c e) es

-- While a stream stays open, from its OPEN on, what its reader took and what is still kept for it
-- are what was kept for it before and the payloads of the WRTE frames addressed to its local id,
-- in order and nothing else, whatever the other streams, the writer and the reader of the
-- connection do in between: early data that comes before the stream is handed out is not lost.
pub taken-addressed :
    (h : ℕ) (c : AdbConnection) (es : List Event)
    → IsNumbered c
    → IsOpen h c
    → AllStayOpen h c es
    → taken h c es ++ unread ((run c es).ends h) ≡ unread (c.ends h) ++ addressed (local_of h) es
unfolding taken addressed run
taken-addressed h c [] n o s = sym (append-nil (unread (c.ends h)))
taken-addressed h c (e ∷ es) n o s =
    let c' = step c e in
    let f : Flows h c (taken_by h c e) (sent_by (local_of h) e) c' = step-Flows h c e n o s.0 in
    let rest : taken h c' es ++ unread ((run c' es).ends h)
        ≡ unread (c'.ends h) ++ addressed (local_of h) es =
      taken-addressed h c' es (step-IsNumbered c e (StaysOpen-HasRoom h c e s.0) n) f.still s.1 in
    append_assoc (taken_by h c e) (taken h c' es) (unread ((run c' es).ends h))
    ∙ ap (λ t. taken_by h c e ++ t) rest
    ∙ sym (append_assoc (taken_by h c e) (unread (c'.ends h)) (addressed (local_of h) es))
    ∙ ap (λ t. t ++ addressed (local_of h) es) f.flow
    ∙ append_assoc (unread (c.ends h)) (sent_by (local_of h) e) (addressed (local_of h) es)
