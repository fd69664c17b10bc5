-- ===== src/Transfer/Queue/Ids.antt =====
-- Every job in the queue or in the hands of a caller has an id of its own.
use adbshare.Base.{
  ℕ, ◌+◌, ◌-◌, ◌^◌, ◌≤◌, ◌<◌, ◌≡◌, refl, ◌==◌, ℕ_eq, List, [], ◌∷◌, count_where-append,
  if◌then◌else◌, arith,
}
use adbshare.Transfer.Job.{Job, Heap}
use adbshare.Transfer.Queue.{
  JobQueue, new, has_id, numbered, submit, leave_flight, enter_history, withdraw, requeue,
  jobs_snapshot, try_dispatch, pause_job, resume_job, cancel_job, retry_failed, retry_failed_for,
  retry_matching, pop_front,
}
use adbshare.Transfer.Queue.Bounds.{
  Call, submits, leaves_flight, enters_history, withdraws, requeues, dispatches, retries_failed,
  pauses, resumes, cancels, retries_failed_for, workers_write, step,
}
use adbshare.Transfer.Queue.Conservation.{
  occurs, occurs_parts, everywhere, held_after, Moves, step-ConservesAll,
}

-- How the daemon calls: a new job comes with id 0 while ids are left; the rest is `Moves`.
abbrev pub Allowed : JobQueue → List Job → Call → Type 0
Allowed q held (submits j) = (j.id ≡ 0) × (q.next_id + 1 < 2 ^ 64)
Allowed q held c = Moves q held c

-- A queue, and the jobs in the hands of the callers between their two locks.
pub data Reached (start : JobQueue) : JobQueue → List Job → Type 0 where
  here : Reached start start []
  next :
      {q : JobQueue} {held : List Job} (c : Call)
      → Reached start q held
      → Allowed q held c
      → Reached start (step q c) (held_after q c held)

pub record HasDistinctIds (q : JobQueue) (held : List Job) : Type 0 where
  pub once : (id : ℕ) → everywhere id q held ≤ 1
  pub fresh : (k : ℕ) → everywhere (q.next_id + k) q held ≡ 0

occurs-submit :
    (id : ℕ) (q : JobQueue) (j : Job)
    → j.id ≡ 0
    → occurs id (submit q j).0 ≡ occurs id q + (if q.next_id == id then 1 else 0)
unfolding submit
occurs-submit id q j e = ground (
  arith,
  occurs_parts id q,
  occurs_parts id (submit q j).0,
  count_where-append (has_id id) q.pending (numbered q j ∷ []),
)

next_id-submit :
    (q : JobQueue) (j : Job)
    → j.id ≡ 0
    → q.next_id + 1 < 2 ^ 64
    → (submit q j).0.next_id ≡ q.next_id + 1
unfolding submit
next_id-submit q j e room = ground arith

next_id-pop_front : (js : List Job) (q : JobQueue) → (pop_front js q).0.next_id ≡ q.next_id
next_id-pop_front [] q = refl
next_id-pop_front (j ∷ js) q = refl

next_id-step :
    (q : JobQueue) (held : List Job) (c : Call) → Moves q held c → (step q c).next_id ≡ q.next_id
unfolding step try_dispatch pause_job resume_job cancel_job withdraw requeue leave_flight
    enter_history retry_failed retry_failed_for retry_matching
next_id-step q held (submits j) m = elim m [ ]
next_id-step q held (leaves_flight j) m = refl
next_id-step q held (enters_history j) m = refl
next_id-step q held (requeues j) m = refl
next_id-step q held (withdraws k) m = ground arith
next_id-step q held dispatches m = ground (arith, next_id-pop_front q.pending q)
next_id-step q held (pauses k) m = ground arith
next_id-step q held (resumes k) m = ground arith
next_id-step q held (cancels k) m = ground arith
next_id-step q held retries_failed m = ground arith
next_id-step q held (retries_failed_for serial) m = ground arith
next_id-step q held (workers_write h) m = refl

unused :
    (q : JobQueue) (held : List Job)
    → HasDistinctIds q held
    → (id : ℕ) → q.next_id ≤ id
    → everywhere id q held ≡ 0
unused q held d id h =
    let e : q.next_id + (id - q.next_id) ≡ id = omega arith in rw e at (d.fresh (id - q.next_id))

submit-HasDistinctIds :
    (q : JobQueue) (held : List Job) (j : Job)
    → Allowed q held (submits j)
    → HasDistinctIds q held
    → HasDistinctIds (submit q j).0 held
submit-HasDistinctIds q held j allowed d = record {
  once = λ id. ground (arith, allowed, occurs-submit id q j, d.once id, unused q held d id);
  fresh = λ k.
      let id = (submit q j).0.next_id + k in
      ground (
        arith,
        allowed,
        occurs-submit id q j,
        next_id-submit q j allowed.0 allowed.1,
        unused q held d id,
      );
}

Moves-HasDistinctIds :
    (q : JobQueue) (held : List Job) (c : Call)
    → Moves q held c
    → HasDistinctIds q held
    → HasDistinctIds (step q c) (held_after q c held)
unfolding jobs_snapshot
Moves-HasDistinctIds q held c m d = record {
  once = λ id. omega (arith, (step-ConservesAll id q held c m).0, d.once id);
  fresh = λ k.
      rw (next_id-step q held c m)
        (omega (arith, (step-ConservesAll (q.next_id + k) q held c m).0, d.fresh k));
}

step-HasDistinctIds :
    (q : JobQueue) (held : List Job) (c : Call)
    → Allowed q held c
    → HasDistinctIds q held
    → HasDistinctIds (step q c) (held_after q c held)
unfolding step
step-HasDistinctIds q held (submits j) a d = submit-HasDistinctIds q held j a d
step-HasDistinctIds q held (leaves_flight j) a d = Moves-HasDistinctIds q held (leaves_flight j) a d
step-HasDistinctIds q held (enters_history j) a d =
    Moves-HasDistinctIds q held (enters_history j) a d
step-HasDistinctIds q held (requeues j) a d = Moves-HasDistinctIds q held (requeues j) a d
step-HasDistinctIds q held (withdraws k) a d = Moves-HasDistinctIds q held (withdraws k) a d
step-HasDistinctIds q held dispatches a d = Moves-HasDistinctIds q held dispatches a d
step-HasDistinctIds q held retries_failed a d = Moves-HasDistinctIds q held retries_failed a d
step-HasDistinctIds q held (pauses k) a d = Moves-HasDistinctIds q held (pauses k) a d
step-HasDistinctIds q held (resumes k) a d = Moves-HasDistinctIds q held (resumes k) a d
step-HasDistinctIds q held (cancels k) a d = Moves-HasDistinctIds q held (cancels k) a d
step-HasDistinctIds q held (retries_failed_for s) a d =
    Moves-HasDistinctIds q held (retries_failed_for s) a d
step-HasDistinctIds q held (workers_write h) a d = Moves-HasDistinctIds q held (workers_write h) a d

-- In every queue that a new one reaches, where jobs are submitted with id 0 while ids are left, only a job
-- in flight is marked done, and the parts of `mark_done` and `retry_job` come in any order with other
-- calls: no two of the pending, running and finished jobs, and of those that a caller holds between its
-- two locks, share an id, and the ids from `next_id` on are unused.
pub Reached-HasDistinctIds :
    (parallelism : ℕ) (h : Heap) {q : JobQueue} {held : List Job}
    → Reached (new parallelism h) q held
    → HasDistinctIds q held
Reached-HasDistinctIds parallelism h here =
    unfold jobs_snapshot in record { once = λ id. omega arith; fresh = λ k. refl }
Reached-HasDistinctIds parallelism h (next {q} {held} c r a) =
    step-HasDistinctIds q held c a (Reached-HasDistinctIds parallelism h r)
