-- ===== src/Connection/Keeps.antt =====
-- Steps that a stream does not see: the rest of the connection changes, and it stays.
use adbshare.Base.{
  ℕ, ◌+◌, ◌%◌, ◌^◌, ◌<◌, ◌≡◌, ◌≢◌, ◌⊎◌, inl, inr, refl, ap, ◌∙◌, Bool, true, false, Option, none,
  some, [], ◌∷◌, ◌++◌, ◌==◌, ℕ_eq, arith, Option-cases, if_both, eq_of_ne,
}
use adbshare.Base.Bytes.{Bytes}
use adbshare.Base.Assoc.{Assoc, lookup, remove, lookup-remove, lookup-insert}
use adbshare.Packet.{close}
use adbshare.Connection.{
  StreamId, Reply, failed_with, disconnected, WriteReq, frame, control, Endpoint, AdbConnection,
  modify, send_req,
}
use adbshare.Connection.Reader.{replied_to, send_reply, resolve, drain_pending}
use adbshare.Connection.Streams.{
  open_sent, dropped, shut, taken_close, give_up, drop_end, abort_open, register, close_with,
  start_open, shutdown,
}
use adbshare.Connection.Numbered.{local_of, IsNumbered}

-- Nothing changed that a read of stream `h` sees.
pub record Keeps (h : ℕ) (c c' : AdbConnection) : Type 0 where
  pub same_entry : lookup (local_of h) c'.streams ≡ lookup (local_of h) c.streams
  pub same_rx : (c'.ends h).rx ≡ (c.ends h).rx
  pub same_incoming : (c'.ends h).incoming ≡ (c.ends h).incoming
  pub same_open : (c'.ends h).rx_open ≡ (c.ends h).rx_open

pub Keeps-trans : {h : ℕ} {a b c : AdbConnection} → Keeps h a b → Keeps h b c → Keeps h a c
Keeps-trans k j = record {
  same_entry = j.same_entry ∙ k.same_entry;
  same_rx = j.same_rx ∙ k.same_rx;
  same_incoming = j.same_incoming ∙ k.same_incoming;
  same_open = j.same_open ∙ k.same_open;
}

module _ (h : ℕ) where
  pub Keeps-same : (c c' : AdbConnection) → c'.streams ≡ c.streams → c'.ends ≡ c.ends → Keeps h c c'
  Keeps-same c c' s t = record {
    same_entry = ap (λ m. lookup (local_of h) m) s;
    same_rx = ap (λ (f : ℕ → Endpoint). (f h).rx) t;
    same_incoming = ap (λ (f : ℕ → Endpoint). (f h).incoming) t;
    same_open = ap (λ (f : ℕ → Endpoint). (f h).rx_open) t;
  }

  pub send_req-Keeps : (r : WriteReq) (c : AdbConnection) → Keeps h c (send_req r c).0
  unfolding send_req
  send_req-Keeps r c =
      if_both (λ (p : AdbConnection × Bool). Keeps h c p.0) c.write_open
        {x = (record c { write_queue = c.write_queue ++ (r ∷ []) }, true)} {y = (c, false)}
        (Keeps-same c _ refl refl) (Keeps-same c c refl refl)

  pub modify-Keeps :
      (k : ℕ) (f : Endpoint → Endpoint) (c : AdbConnection)
      → ((f (c.ends h)).rx ≡ (c.ends h).rx)
      → ((f (c.ends h)).incoming ≡ (c.ends h).incoming)
      → ((f (c.ends h)).rx_open ≡ (c.ends h).rx_open)
      → Keeps h c (modify k f c)
  modify-Keeps k f c p q r = record {
    same_entry = refl;
    same_rx = if_both (λ (e : Endpoint). e.rx ≡ (c.ends h).rx) (k == h) p refl;
    same_incoming = if_both (λ (e : Endpoint). e.incoming ≡ (c.ends h).incoming) (k == h) q refl;
    same_open = if_both (λ (e : Endpoint). e.rx_open ≡ (c.ends h).rx_open) (k == h) r refl;
  }

  pub other-Keeps :
      (k : ℕ) (f : Endpoint → Endpoint) (c : AdbConnection) → k ≢ h → Keeps h c (modify k f c)
  other-Keeps k f c ne =
      let e : (k == h) ≡ false = eq_of_ne ne in
      record {
        same_entry = refl;
        same_rx = rw e refl;
        same_incoming = rw e refl;
        same_open = rw e refl;
      }

  pub forget-Keeps :
      (l : ℕ) (c : AdbConnection)
      → l ≢ local_of h
      → Keeps h c (record c { streams = remove l c.streams })
  forget-Keeps l c ne = record {
    same_entry = rw (lookup-remove l (local_of h) c.streams, eq_of_ne ne) refl;
    same_rx = refl;
    same_incoming = refl;
    same_open = refl;
  }

  pub send_reply-Keeps : (k : ℕ) (r : Reply) (c : AdbConnection) → Keeps h c (send_reply k r c)
  send_reply-Keeps k r c = modify-Keeps k (replied_to r) c refl refl refl

  pub drain_pending-Keeps : (ps : Assoc ℕ ℕ) (c : AdbConnection) → Keeps h c (drain_pending ps c)
  unfolding drain_pending
  drain_pending-Keeps [] c = Keeps-same c (record c { pending_opens = [] }) refl refl
  drain_pending-Keeps ((l, k) ∷ ps) c =
      Keeps-trans (send_reply-Keeps k (failed_with disconnected) c)
        (drain_pending-Keeps ps (send_reply k (failed_with disconnected) c))

  pub resolve-Keeps : (l : ℕ) (r : Reply) (c : AdbConnection) → Keeps h c (resolve l r c)
  unfolding resolve
  resolve-Keeps l r c = elim (Option-cases (lookup l c.pending_opens)) [
    | inl q ↦ rw q (Keeps-same c c refl refl)
    | inr (k, q) ↦ rw q (
        Keeps-trans (Keeps-same c (record c { pending_opens = remove l c.pending_opens }) refl refl)
          (send_reply-Keeps k r (record c { pending_opens = remove l c.pending_opens })))
  ]

  pub shutdown-Keeps : (k : ℕ) (c : AdbConnection) → Keeps h c (shutdown k c)
  unfolding shutdown
  shutdown-Keeps k c =
      let e = c.ends h in
      let e' = record e { close_tx = false; close_rx = some e.id } in
      modify-Keeps k shut c
        (if_both (λ (x : Endpoint). x.rx ≡ e.rx) e.close_tx {x = e'} {y = e} refl refl)
        (if_both (λ (x : Endpoint). x.incoming ≡ e.incoming) e.close_tx {x = e'} {y = e} refl refl)
        (if_both (λ (x : Endpoint). x.rx_open ≡ e.rx_open) e.close_tx {x = e'} {y = e} refl refl)

  pub drop_end-Keeps : (k : ℕ) (c : AdbConnection) → k ≢ h → Keeps h c (drop_end k c)
  drop_end-Keeps k c ne = other-Keeps k dropped c ne

  pub abort_open-Keeps : (l : ℕ) (c : AdbConnection) → l ≢ local_of h → Keeps h c (abort_open l c)
  unfolding abort_open
  abort_open-Keeps l c ne =
      Keeps-trans (Keeps-same c (record c { pending_opens = remove l c.pending_opens }) refl refl)
        (forget-Keeps l (record c { pending_opens = remove l c.pending_opens }) ne)

  -- A local id of another stream, or of none.
  other_local : (k l : ℕ) → k ≢ h → (l ≡ 0) ⊎ (l ≡ local_of k) → l ≢ local_of h
  other_local k l ne own q = ground arith

  pub give_up-Keeps : (k : ℕ) (c : AdbConnection) → IsNumbered c → k ≢ h → Keeps h c (give_up k c)
  give_up-Keeps k c n ne =
      let l = (c.ends k).id.local in
      Keeps-trans (abort_open-Keeps l c (other_local k l ne (n.owned k).own_id))
        (drop_end-Keeps k (abort_open l c) ne)

  pub close_with-Keeps :
      (o : Option StreamId) (k : ℕ) (c : AdbConnection)
      → IsNumbered c
      → (c.ends k).close_rx ≡ o
      → k ≢ h
      → Keeps h c (close_with o k c)
  close_with-Keeps none k c n q ne = Keeps-same c c refl refl
  close_with-Keeps (some i) k c n q ne =
      let forgotten = record c { streams = remove i.local c.streams } in
      Keeps-trans (forget-Keeps i.local c (other_local k i.local ne ((n.owned k).own_close i q))) (
        Keeps-trans (other-Keeps k taken_close forgotten ne) (
          send_req-Keeps (frame (control close i.local i.remote)) (modify k taken_close forgotten)))

  pub register-Keeps :
      (c : AdbConnection)
      → IsNumbered c
      → c.opened + 2 < 2 ^ 32
      → h < c.opened
      → Keeps h c (register c)
  unfolding register
  register-Keeps c n room old =
      let local = (c.next_local + 1) % 2 ^ 32 in
      let ne : (local == local_of h) ≡ false =
        eq_of_ne (λ (q : local ≡ local_of h). omega (arith, n.counted, q)) in
      let other : (c.opened == h) ≡ false = eq_of_ne (λ (q : c.opened ≡ h). omega (arith, q)) in
      record {
        same_entry = rw (lookup-insert local (local_of h) c.opened c.streams, ne) refl;
        same_rx = rw other refl;
        same_incoming = rw other refl;
        same_open = rw other refl;
      }

  pub open_sent-Keeps :
      (k l : ℕ) (p : AdbConnection × Bool)
      → k ≢ h
      → l ≢ local_of h
      → Keeps h p.0 (open_sent k l p).0
  open_sent-Keeps k l (c, true) ne ne' = Keeps-same c c refl refl
  open_sent-Keeps k l (c, false) ne ne' =
      Keeps-trans (abort_open-Keeps l c ne') (drop_end-Keeps k (abort_open l c) ne)

  pub start_open-Keeps :
      (dest : Bytes) (c : AdbConnection)
      → IsNumbered c
      → c.opened + 2 < 2 ^ 32
      → h < c.opened
      → Keeps h c (start_open dest c).0
  unfolding start_open register
  start_open-Keeps dest c n room old = Keeps-trans (register-Keeps c n room old) (
      Keeps-trans (send_req-Keeps _ (register c)) (
        open_sent-Keeps c.opened (register c).next_local _ (λ q. omega (arith, q))
          (λ q. omega (arith, n.counted, q))))
