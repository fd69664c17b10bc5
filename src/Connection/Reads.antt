-- ===== src/Connection/Reads.antt =====
-- A read of a stream loses nothing and makes nothing up.
use adbshare.Base.{
  ℕ, ◌≡◌, inl, inr, refl, ap, sym, ◌∙◌, ltb, min, Bool, true, false, Option, none, some, List, [],
  ◌∷◌, ◌++◌, length, take, drop, ◌==◌, ℕ_eq, arith, Bool-cases, if_both, take-append-drop, drop-all,
}
use mathlib.Core.List.{append_assoc, append-nil}
use adbshare.Base.Bytes.{Bytes, joined}
use adbshare.Connection.{StreamId, Reply, Endpoint}
use adbshare.Connection.Streams.{poll_end, Polled, filled, waits, put_slice, recv, read_pending}
use adbshare.Connection.Events.{bytes_of, unread}

module _ (room : ℕ) (chunk : Bytes) where
  abbrev fill : ℕ
  fill = min (length chunk) room

  put_all : ltb fill (length chunk) ≡ false → take fill chunk ≡ chunk
  put_all h =
      sym (append-nil (take fill chunk))
      ∙ ap (λ t. take fill chunk ++ t) (sym (drop-all fill chunk (ground arith)))
      ∙ take-append-drop fill chunk

  -- What a read returns and what it leaves are what there was.
  put_slice-unread :
      (e : Endpoint)
      → e.incoming ≡ none
      → bytes_of (put_slice room chunk e).1 ++ unread (put_slice room chunk e).0 ≡ chunk ++ unread e
  unfolding unread
  put_slice-unread e n = elim (Bool-cases (ltb fill (length chunk))) [
    | inl t ↦
        rw (t, n)
          (sym (append_assoc (take fill chunk) (drop fill chunk) (joined e.rx))
            ∙ ap (λ t. t ++ joined e.rx) (take-append-drop fill chunk))
    | inr f ↦ rw (f, n, put_all f) refl
  ]

recv-unread :
    (room : ℕ) (live : Bool) (cs : List Bytes) (e : Endpoint)
    → e.incoming ≡ none
    → e.rx ≡ cs
    → bytes_of (recv room live cs e).1 ++ unread (recv room live cs e).0 ≡ unread e
unfolding unread
recv-unread room live [] e n q = ground arith
recv-unread room live (c ∷ cs) e n q =
    put_slice-unread room c (record e { rx = cs }) n ∙ rw (n, q) refl

read_pending-unread :
    (room : ℕ) (live : Bool) (o : Option Bytes) (e : Endpoint)
    → e.incoming ≡ o
    → (room == 0) ≡ false
    → bytes_of (read_pending room live o e).1 ++ unread (read_pending room live o e).0 ≡ unread e
unfolding unread
read_pending-unread room live none e n z = recv-unread room live e.rx e n refl
read_pending-unread room live (some []) e n z =
    let none_taken : ltb 0 (min 0 room) ≡ false = ground arith in
    let none_left : ltb (min 0 room) 0 ≡ false = ground arith in
    rw (none_taken, none_left)
      (recv-unread room live e.rx (record e { incoming = none }) refl refl ∙ rw n refl)
read_pending-unread room live (some (b ∷ bs)) e n z =
    let full : ltb 0 (min (length (b ∷ bs)) room) ≡ true = ground arith in
    rw full (put_slice-unread room (b ∷ bs) (record e { incoming = none }) refl ∙ rw n refl)

pub poll_end-unread :
    (room : ℕ) (live : Bool) (e : Endpoint)
    → bytes_of (poll_end room live e).1 ++ unread (poll_end room live e).0 ≡ unread e
unfolding poll_end
poll_end-unread room live e = elim (Bool-cases (room == 0)) [
  | inl z ↦ rw z refl
  | inr z ↦ rw z (read_pending-unread room live e.incoming e refl z)
]

-- What a read does not touch.
module _ (P : StreamId → Bool → Option Reply → Option StreamId → Type 0) (room : ℕ)
    (live : Bool) where
  abbrev On : Endpoint → Type 0
  On e = P e.id e.rx_open e.reply e.close_rx

  put_slice-On : (chunk : Bytes) (e : Endpoint) → On e → On (put_slice room chunk e).0
  put_slice-On chunk e p =
      let n = min (length chunk) room in
      if_both On (ltb n (length chunk)) {x = record e { incoming = some (drop n chunk) }} {y = e} p
        p

  recv-On : (cs : List Bytes) (e : Endpoint) → On e → On (recv room live cs e).0
  recv-On [] e p =
      if_both (λ (r : Endpoint × Polled). On r.0) live {x = (e, waits)} {y = (e, filled [])} p p
  recv-On (c ∷ cs) e p = put_slice-On c (record e { rx = cs }) p

  read_pending-On : (o : Option Bytes) (e : Endpoint) → On e → On (read_pending room live o e).0
  read_pending-On none e p = recv-On e.rx e p
  read_pending-On (some bs) e p =
      let e' = record e { incoming = none } in
      if_both (λ (r : Endpoint × Polled). On r.0) (ltb 0 (min (length bs) room))
        {x = put_slice room bs e'} {y = recv room live e'.rx (put_slice room bs e').0}
        (put_slice-On bs e' p) (recv-On e'.rx (put_slice room bs e').0 (put_slice-On bs e' p))

  pub poll_end-On : (e : Endpoint) → On e → On (poll_end room live e).0
  unfolding poll_end
  poll_end-On e p =
      if_both (λ (r : Endpoint × Polled). On r.0) (room == 0) {x = (e, filled [])}
        {y = read_pending room live e.incoming e} p (read_pending-On e.incoming e p)
