-- ===== src/Connection/Wire.antt =====
-- What the writer puts on the wire, and what a reader of the same frames gets.
use mathlib.Core.List.{append_assoc, append-nil}
use adbshare.Base.{
  ℕ, zero, suc, ◌+◌, ◌^◌, ◌≤◌, ◌<◌, ◌≡◌, refl, ap, sym, ◌∙◌, ltb, min, Bool, true, false, Option,
  none, some, List, [], ◌∷◌, ◌++◌, map, length, take, drop, length-append, length-take, length-drop,
  take-append-drop, arith, lt→ltb, if_then,
}
use adbshare.Base.Bytes.{Bytes, joined, le_bytes, length-le_bytes, take-append_at, drop-append_at}
use adbshare.Packet.{
  as_u32, magic_of, data_checksum, Message, ok, max_payload, header_len, u32_at, decode, encode,
  try_encode,
}
use adbshare.Packet.Codec.{Fits, Fits-of-decode, decode-try_encode}
use adbshare.Connection.{StreamId, WriteReq, data_of, AdbConnection, send_req}
use adbshare.Connection.Reader.{
  handle_message, drain_pending, ended, message, read_message, after_message, reader, frame_of,
  write_frame,
}
use adbshare.Connection.Streams.{poll_write}

-- A request that the connection makes: its fields and its payload fit.
pub record IsSendable (m : Message) : Type 0 where
  pub fits0 : m.arg0 < 2 ^ 32
  pub fits1 : m.arg1 < 2 ^ 32
  pub short : length m.payload ≤ max_payload

read_message-split :
    (head payload rest : Bytes) (m : Message)
    → length head ≡ header_len
    → u32_at head 12 ≡ length payload
    → length payload ≤ max_payload
    → decode head payload ≡ ok m
    → read_message (head ++ (payload ++ rest)) ≡ message m rest
unfolding read_message
read_message-split head payload rest m sized field short e =
    let whole : ltb (length (head ++ (payload ++ rest))) header_len ≡ false =
      ground (arith, length-append head (payload ++ rest)) in
    let there : ltb (length (payload ++ rest)) (length payload) ≡ false =
      ground (arith, length-append payload rest) in
    let small : ltb max_payload (length payload) ≡ false = ground arith in
    rw
      (
        whole,
        take-append_at head (payload ++ rest) header_len sized,
        drop-append_at head (payload ++ rest) header_len sized,
        field,
        small,
        there,
        take-append_at payload rest (length payload) refl,
        drop-append_at payload rest (length payload) refl,
        e,
      )
      refl

length-fields :
    (m : Message)
    → length (
        le_bytes 4 (as_u32 m.command)
        ++ (le_bytes 4 m.arg0
            ++ (le_bytes 4 m.arg1
                ++ (le_bytes 4 (length m.payload)
                    ++ (le_bytes 4 (data_checksum m.payload)
                        ++ (le_bytes 4 (magic_of m.command) ++ m.payload))))))
      ≡ header_len + length m.payload
length-fields m = simp (length-append, length-le_bytes) (omega arith)

length-try_encode :
    (m : Message) (buf : Bytes)
    → length m.payload < 2 ^ 32
    → try_encode m ≡ ok buf
    → length buf ≡ header_len + length m.payload
unfolding try_encode
length-try_encode m buf fits e =
    let same = (rw (lt→ltb (length m.payload) (2 ^ 32) fits) at e) in cc (same, length-fields m)

encode_of : (m : Message) (buf : Bytes) → try_encode m ≡ ok buf → encode m ≡ some buf
unfolding encode
encode_of m buf e = ground arith

-- A request is written without a panic, and a reader of frames gets its message back and what
-- follows it.
write_frame-read_message :
    (req : WriteReq)
    → IsSendable (frame_of req)
    → (buf : Bytes) × (write_frame req ≡ some buf)
      × ((rest : Bytes) → read_message (buf ++ rest) ≡ message (frame_of req) rest)
unfolding write_frame encode
write_frame-read_message req s =
    let m = frame_of req in
    let fits : length m.payload < 2 ^ 32 = omega (arith, s.short) in
    let (buf, e, d) = decode-try_encode m s.fits0 s.fits1 fits in
    let f : Fits (take header_len buf) (drop header_len buf) m =
      Fits-of-decode (take header_len buf) (drop header_len buf) m d in
    let long : length buf ≡ header_len + length m.payload = length-try_encode m buf fits e in
    (
      buf,
      encode_of m buf e,
      λ rest.
          ap read_message (
            sym (
              sym (append_assoc (take header_len buf) (drop header_len buf) rest)
              ∙ ap (λ t. t ++ rest) (take-append-drop header_len buf)))
          ∙ read_message-split (take header_len buf) (drop header_len buf) rest m
              (omega (arith, length-take header_len buf, long)) f.at_length
              (omega (arith, length-drop header_len buf, long, s.short)) d,
    )

-- The bytes that the writer sends for a list of requests.
abbrev pub written : List WriteReq → Bytes
written [] = []
written (r ∷ rs) = elim (write_frame r) [ none ↦ [] | some buf ↦ buf ] ++ written rs

abbrev pub AllSendable : List WriteReq → Type 0
AllSendable [] = Unit
AllSendable (r ∷ rs) = IsSendable (frame_of r) × AllSendable rs

-- Messages dispatched one after the other, until one stops the reader, and its end.
abbrev stop_or : (AdbConnection → AdbConnection) → AdbConnection × Bool → AdbConnection
stop_or k (c, true) = k c
stop_or k (c, false) = drain_pending c.pending_opens c

abbrev pub handle_each : List WriteReq → AdbConnection → AdbConnection
handle_each [] c = drain_pending c.pending_opens c
handle_each (r ∷ rs) c = stop_or (handle_each rs) (handle_message (frame_of r) c)

after_message-stop_or :
    (next : Bytes → AdbConnection → Option AdbConnection) (k : AdbConnection → AdbConnection)
    (rest : Bytes) (p : AdbConnection × Bool)
    → ((c : AdbConnection) → next rest c ≡ some (k c))
    → after_message next rest p ≡ some (stop_or k p)
after_message-stop_or next k rest (c, true) e = e c
after_message-stop_or next k rest (c, false) e = refl

read_message-nil : read_message [] ≡ ended
unfolding read_message
read_message-nil = refl

-- A reader to which the frames of sendable requests are sent dispatches each of their messages once,
-- in order, until a handle_message stops it, and one round more than there are frames is enough.
pub reader-written :
    (rs : List WriteReq) (fuel : ℕ) (c : AdbConnection)
    → AllSendable rs
    → length rs < fuel
    → reader fuel (written rs) c ≡ some (handle_each rs c)
unfolding reader
reader-written rs zero c s enough = absurd (omega arith)
reader-written [] (suc fuel) c s enough = rw read_message-nil refl
reader-written (r ∷ rs) (suc fuel) c s enough =
    let (buf, e, d) = write_frame-read_message r s.0 in
    rw (e, d (written rs))
      (after_message-stop_or (reader fuel) (handle_each rs) (written rs)
        (handle_message (frame_of r) c) (λ c'. reader-written rs fuel c' s.1 (omega arith)))

abbrev queued : WriteReq → AdbConnection → AdbConnection
queued r c = record c { write_queue = c.write_queue ++ (r ∷ []) }

send_req-queued :
    (r : WriteReq) (c : AdbConnection) → c.write_open ≡ true → send_req r c ≡ (queued r c, true)
unfolding send_req
send_req-queued r c live =
    if_then (λ (p : AdbConnection × Bool). p ≡ (queued r c, true)) c.write_open (c, false) live refl

-- The requests are the buffer cut into frames of at most `max_payload` bytes.
pub record AreCuts (id : StreamId) (buf : Bytes) (rs : List WriteReq) : Type 0 where
  pub cuts : List Bytes
  pub requests : rs ≡ map (data_of id) cuts
  pub whole : joined cuts ≡ buf
  pub sendable : AllSendable rs

module _ (h : ℕ) where
  -- A caller that writes a whole buffer: it comes back with what was not taken.
  abbrev after_poll :
      (Bytes → AdbConnection → Option AdbConnection)
      → Bytes
      → AdbConnection × Option ℕ
      → Option AdbConnection
  after_poll next buf (c, none) = none
  after_poll next buf (c, some n) = next (drop n buf) c

  unfoldable pub write_all : ℕ → Bytes → AdbConnection → Option AdbConnection
  write_all fuel [] c = some c
  write_all zero (b ∷ bs) c = none
  write_all (suc fuel) (b ∷ bs) c = after_poll (write_all fuel) (b ∷ bs) (poll_write h (b ∷ bs) c)

  poll_write-queued :
      (buf : Bytes) (c : AdbConnection)
      → c.write_open ≡ true
      → poll_write h buf c ≡ (
        queued (data_of (c.ends h).id (take (min (length buf) max_payload) buf)) c,
        some (min (length buf) max_payload),
      )
  unfolding poll_write
  poll_write-queued buf c live =
      rw (send_req-queued (data_of (c.ends h).id (take (min (length buf) max_payload) buf)) c live)
        refl

  -- Writing a whole buffer to a stream on a connection whose writer lives ends, with fuel for as
  -- many calls as there are bytes, and queues the buffer cut into frames for that stream that the
  -- device accepts: in order, none longer than `max_payload`, and nothing else.
  pub write_all-AreCuts :
      (fuel : ℕ) (buf : Bytes) (c : AdbConnection)
      → c.write_open ≡ true
      → (c.ends h).id.local < 2 ^ 32
      → (c.ends h).id.remote < 2 ^ 32
      → length buf ≤ fuel
      → (c' : AdbConnection) × (write_all fuel buf c ≡ some c')
        × (rs : List WriteReq) × (c'.write_queue ≡ c.write_queue ++ rs)
        × AreCuts (c.ends h).id buf rs
  unfolding write_all frame_of
  write_all-AreCuts fuel [] c live l r enough = (
    c,
    refl,
    [],
    sym (append-nil c.write_queue),
    record { cuts = []; requests = refl; whole = refl; sendable = tt },
  )
  write_all-AreCuts zero (b ∷ bs) c live l r enough = absurd (omega arith)
  write_all-AreCuts (suc fuel) (b ∷ bs) c live l r enough =
      let buf = b ∷ bs in
      let n = min (length buf) max_payload in
      let req = data_of (c.ends h).id (take n buf) in
      let (c', e, rs, q, cut) =
        write_all-AreCuts fuel (drop n buf) (queued req c) live l r
          (omega (arith, length-drop n buf)) in
      (
        c',
        rw (poll_write-queued buf c live) e,
        req ∷ rs,
        q ∙ append_assoc c.write_queue (req ∷ []) rs,
        record {
          cuts = take n buf ∷ cut.cuts;
          requests = ap (◌∷◌ req) cut.requests;
          whole = ap (λ t. take n buf ++ t) cut.whole ∙ take-append-drop n buf;
          sendable = (
            record { fits0 = l; fits1 = r; short = omega (arith, length-take n buf) },
            cut.sendable,
          );
        },
      )
