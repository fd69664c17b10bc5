-- ===== src/Proxy/Device/Dispatch/Owned.antt =====
-- The table of open files, through every request.
use adbshare.Base.{
  ℕ, ◌+◌, ◌≡◌, refl, ltb, none, some, ◌∷◌, [], ◌==◌, ℕ_eq, length, if_both, Bool-cases, inl, inr,
  eq_true, if◌then◌else◌,
}
use adbshare.Base.Bytes.{Bytes, le_bytes, from_le, slice}
use adbshare.Base.Assoc.{lookup, lookup-insert, lookup-remove}
use adbshare.Proxy.Device.{Libc, Ret, done, fails, OwnedFds, track, untrack}
use adbshare.Proxy.Device.Files.{handle_open, handle_close, opened, closed}
use adbshare.Proxy.Device.Dispatch.{answer, dispatch}

-- What one request does to the table: `open` that succeeds enters the new descriptor for this
-- connection, `close` that succeeds takes its descriptor out, and nothing else changes an entry.
pub data TableStep (op conn : ℕ) (args out : Bytes) (m m' : OwnedFds) : Type 0 where
  same : m' ≡ m → TableStep op conn args out m m'
  entered :
      (fd : ℕ)
      → op ≡ 0x01
      → out ≡ 0 ∷ le_bytes 4 fd
      → ((k : ℕ) → lookup k m' ≡ (if fd == k then some conn else lookup k m))
      → TableStep op conn args out m m'
  left :
      op ≡ 0x02
      → out ≡ 0 ∷ []
      → ((k : ℕ) → lookup k m' ≡ (if from_le (slice args 0 4) == k then none else lookup k m))
      → TableStep op conn args out m m'

module _ (libc : Libc) (op : ℕ) (args : Bytes) (conn : ℕ) (m : OwnedFds) where
  open libc use {World, close_call}

  abbrev StepOf : Bytes × World × OwnedFds → Type 0
  StepOf r = TableStep op conn args r.0 m r.2

  opened-StepOf : op ≡ 0x01 → (r : Ret ℕ × World) → StepOf (opened libc conn m r)
  unfolding track
  opened-StepOf e (done fd, w) = entered fd e refl (λ k. lookup-insert fd k conn m)
  opened-StepOf e (fails n, w) = same refl

  closed-StepOf :
      op ≡ 0x02 → (r : Ret (Unit {0}) × World) → StepOf (closed libc (from_le (slice args 0 4)) m r)
  unfolding untrack
  closed-StepOf e (done u, w) = left e refl (λ k. lookup-remove (from_le (slice args 0 4)) k m)
  closed-StepOf e (fails n, w) = same refl

  open-StepOf : op ≡ 0x01 → (w : World) → StepOf (handle_open libc args conn m w)
  unfolding handle_open
  open-StepOf e w = if_both StepOf (ltb (length args) 8) (same refl) (
      if_both StepOf (ltb (length args) 12) (same refl) (
        if_both StepOf (ltb (length args) (12 + from_le (slice args 8 12))) (same refl)
          (opened-StepOf e _)))

  close-StepOf : op ≡ 0x02 → (w : World) → StepOf (handle_close libc args m w)
  unfolding handle_close
  close-StepOf e w =
      if_both StepOf (ltb (length args) 4) (same refl)
        (closed-StepOf e (close_call (from_le (slice args 0 4)) w))

  answer-StepOf : (w : World) → StepOf (answer libc op args conn m w)
  unfolding answer
  answer-StepOf w = elim (Bool-cases (op == 0x01)) [
    | inl e ↦ rw (e, answer) (open-StepOf (eq_true e) w)
    | inr n ↦ elim (Bool-cases (op == 0x02)) [
      | inl e ↦ rw (n, e, answer) (close-StepOf (eq_true e) w)
      | inr n' ↦ rw (n, n', answer) (same refl)
    ]
  ]

  -- For every request: only an `open` (0x01) that is answered `Ok` with a descriptor enters one in the table,
  -- as owned by this connection; only a `close` (0x02) that is answered `Ok` takes the descriptor it names
  -- out, whichever connection opened it; every other entry, and every entry under any other request or
  -- a failed one, stays.
  pub dispatch-TableStep :
      (w : World)
      → TableStep op conn args (answer libc op args conn m w).0 m (dispatch libc op args conn m w).2
  unfolding dispatch
  dispatch-TableStep w = answer-StepOf w
