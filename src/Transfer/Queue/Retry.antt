-- ===== src/Transfer/Queue/Retry.antt =====
-- What `retry_failed` and `retry_failed_for` requeue, exactly.
use mathlib.Core.List.{append_assoc, append-nil}
use adbshare.Base.{
  ℕ, suc, ◌+◌, ltb, ◌≡◌, refl, sym, ap, ◌∙◌, Bool, true, false, not, ◌&&◌, ◌||◌, ◌==◌, ℕ_eq,
  string_eq, List, [], ◌∷◌, ◌++◌, length, keep, if◌then◌else◌, arith, Bool-cases, inl, inr,
}
use adbshare.Transfer.Job
use adbshare.Transfer.Job.{Job, Heap, Cell, fresh_cell, update}
use adbshare.Transfer.Queue.{
  JobQueue, is_failed, Sweep, sweep, sweep_one, sweep_start, retry_matching, retry_failed,
  retry_failed_for,
}

-- The jobs that a sweep with this test takes, in a heap.
abbrev pub takes : (Job → Bool) → Heap → Job → Bool
takes mine h j = mine j && is_failed (Job.state j h)

-- No job of the list lives at this address.
abbrev pub Apart : ℕ → List Job → Type 0
Apart a [] = Unit {0}
Apart a (j ∷ js) = ((a == j.cell) ≡ false) × Apart a js

-- Jobs that are not clones of one another: every one has a cell of its own.
abbrev pub HasOwnCells : List Job → Type 0
HasOwnCells [] = Unit {0}
HasOwnCells (j ∷ js) = Apart j.cell js × HasOwnCells js

takes-reset :
    (mine : Job → Bool) (j i : Job) (h : Heap)
    → (j.cell == i.cell) ≡ false
    → takes mine (Job.reset_for_retry j h) i ≡ takes mine h i
unfolding Job.reset_for_retry
takes-reset mine j i h apart = ground arith

reset_at :
    (j : Job) (h : Heap) (a : ℕ)
    → Job.reset_for_retry j h a ≡ (if j.cell == a then fresh_cell else h a)
unfolding Job.reset_for_retry
reset_at j h a = refl

keep-reset :
    (mine : Job → Bool) (neg : Bool → Bool) (j : Job) (h : Heap) (js : List Job)
    → Apart j.cell js
    → keep (λ i. neg (takes mine (Job.reset_for_retry j h) i)) js
      ≡ keep (λ i. neg (takes mine h i)) js
keep-reset mine neg j h [] a = refl
keep-reset mine neg j h (i ∷ js) a = λ t.
    if neg (takes-reset mine j i h a.0 t)
    then i ∷ keep-reset mine neg j h js a.1 t
    else keep-reset mine neg j h js a.1 t

module _ (mine : Job → Bool) where
  sweep-kept :
      (js : List Job) (s : Sweep)
      → HasOwnCells js
      → (sweep mine js s).kept ≡ s.kept ++ keep (λ j. not (takes mine s.heap j)) js
  unfolding sweep
  sweep-kept [] s d = sym (append-nil s.kept)
  sweep-kept (j ∷ js) s d = elim (Bool-cases (takes mine s.heap j)) [
    | inl t ↦
        sweep-kept js (sweep_one mine j s) d.1
        ∙ rw t (ap (λ l. s.kept ++ l) (keep-reset mine not j s.heap js d.0))
    | inr f ↦
        sweep-kept js (sweep_one mine j s) d.1
        ∙ rw f (append_assoc s.kept (j ∷ []) (keep (λ j. not (takes mine s.heap j)) js))
  ]

  sweep-requeued :
      (js : List Job) (s : Sweep)
      → HasOwnCells js
      → (sweep mine js s).requeued ≡ s.requeued ++ keep (takes mine s.heap) js
  unfolding sweep
  sweep-requeued [] s d = sym (append-nil s.requeued)
  sweep-requeued (j ∷ js) s d = elim (Bool-cases (takes mine s.heap j)) [
    | inl t ↦
        sweep-requeued js (sweep_one mine j s) d.1
        ∙ rw t (
            append_assoc s.requeued (j ∷ []) (keep (takes mine (Job.reset_for_retry j s.heap)) js)
            ∙ ap (λ l. s.requeued ++ (j ∷ l)) (keep-reset mine (λ b. b) j s.heap js d.0))
    | inr f ↦ sweep-requeued js (sweep_one mine j s) d.1 ∙ rw f refl
  ]

  sweep-count :
      (js : List Job) (s : Sweep)
      → HasOwnCells js
      → (sweep mine js s).count ≡ s.count + length (keep (takes mine s.heap) js)
  unfolding sweep
  sweep-count [] s d = omega arith
  sweep-count (j ∷ js) s d = elim (Bool-cases (takes mine s.heap j)) [
    | inl t ↦
        sweep-count js (sweep_one mine j s) d.1
        ∙ rw t (omega (arith, ap (length {A = Job}) (keep-reset mine (λ b. b) j s.heap js d.0)))
    | inr f ↦ sweep-count js (sweep_one mine j s) d.1 ∙ rw f refl
  ]

  -- Some job that the sweep takes lives at this address.
  abbrev pub taken_at : Heap → ℕ → List Job → Bool
  taken_at h a [] = false
  taken_at h a (j ∷ js) = (takes mine h j && (j.cell == a)) || taken_at h a js

  taken_at-reset :
      (j : Job) (h : Heap) (a : ℕ) (js : List Job)
      → Apart j.cell js
      → taken_at (Job.reset_for_retry j h) a js ≡ taken_at h a js
  taken_at-reset j h a [] d = refl
  taken_at-reset j h a (i ∷ js) d =
      λ t. (takes-reset mine j i h d.0 t && (i.cell == a)) || taken_at-reset j h a js d.1 t

  sweep-heap :
      (js : List Job) (s : Sweep) (a : ℕ)
      → HasOwnCells js
      → (sweep mine js s).heap a ≡ (if taken_at s.heap a js then fresh_cell else s.heap a)
  unfolding sweep
  sweep-heap [] s a d = refl
  sweep-heap (j ∷ js) s a d = elim (Bool-cases (takes mine s.heap j)) [
    | inl t ↦
        sweep-heap js (sweep_one mine j s) a d.1
        ∙ rw (t, taken_at-reset j s.heap a js d.0) (ground (arith, reset_at j s.heap a))
    | inr f ↦ sweep-heap js (sweep_one mine j s) a d.1 ∙ rw f refl
  ]

-- What a retry of the failed jobs that pass a test leaves.
pub record Requeued (mine : Job → Bool) (q : JobQueue) (r : JobQueue × ℕ) : Type 0 where
  pub to_pending : r.0.pending ≡ q.pending ++ keep (takes mine q.cells) q.completed
  pub left : r.0.completed ≡ keep (λ j. not (takes mine q.cells j)) q.completed
  pub counted : r.1 ≡ length (keep (takes mine q.cells) q.completed)
  pub cells :
      (a : ℕ)
      → r.0.cells a ≡ (if taken_at mine q.cells a q.completed then fresh_cell else q.cells a)
  pub in_flight : r.0.in_flight ≡ q.in_flight
  pub woken : r.0.notified ≡ (if ltb 0 r.1 then suc q.notified else q.notified)

retry_matching-Requeued :
    (mine : Job → Bool) (q : JobQueue)
    → HasOwnCells q.completed
    → Requeued mine q (retry_matching q mine)
unfolding retry_matching
retry_matching-Requeued mine q d =
    let requeued = sweep-requeued mine q.completed (sweep_start q) d in
    let kept = sweep-kept mine q.completed (sweep_start q) d in
    let count = sweep-count mine q.completed (sweep_start q) d in
    record {
      to_pending = ground (arith, ap (λ l. q.pending ++ l) requeued);
      left = ground (arith, kept);
      counted = omega (arith, count);
      cells = λ a. ground (arith, sweep-heap mine q.completed (sweep_start q) a d);
      in_flight = ground arith;
      woken = ground arith;
    }

-- Where the finished jobs have cells of their own, `retry_failed` appends all the failed ones to the
-- pending jobs in order, with their shared state reset, keeps every other finished job in order and
-- with its state, touches no job in flight, and wakes the dispatcher exactly if it requeued any.
pub retry_failed_lem :
    (q : JobQueue) → HasOwnCells q.completed → Requeued (λ j. true) q (retry_failed q)
unfolding retry_failed
retry_failed_lem q d = retry_matching-Requeued (λ j. true) q d

-- For the empty serial, which every untagged device would share, it changes nothing.
retry_failed_for-empty : (q : JobQueue) → retry_failed_for q "" ≡ (q, 0)
unfolding retry_failed_for
retry_failed_for-empty q = refl
