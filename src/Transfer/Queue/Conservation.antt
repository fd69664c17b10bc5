-- ===== src/Transfer/Queue/Conservation.antt =====
-- No call loses a job or makes one up: jobs only move between the three lists and the hands of a caller
-- that is between its two locks, and only a full history drops its oldest entry.
use adbshare.Base.{
  ℕ, ◌+◌, ◌-◌, ◌≤◌, ◌<◌, ◌≡◌, refl, Bool, true, not, ◌==◌, ℕ_eq, Option, none, some, List, [], ◌∷◌,
  ◌++◌, length, length-append, keep, find_first, remove_first, count_where, count_where-append,
  count_where-take-drop, count_where-remove_first, if◌then◌else◌, arith, ap,
}
use adbshare.Transfer.Job.{Job}
use adbshare.Transfer.Queue.{
  JobQueue, max_completed, has_id, may_retry, leave_flight, enter_history, withdraw, withdraw_found,
  requeue, jobs_snapshot, try_dispatch, pause_job, resume_job, cancel_job, retry_failed,
  retry_failed_for, retry_matching, trim_completed, sweep, Sweep, sweep_start, sweep_one, is_for,
  pop_front, cancel_pending,
}
use adbshare.Transfer.Queue.Bounds.{
  Call, submits, leaves_flight, enters_history, withdraws, requeues, dispatches, retries_failed,
  pauses, resumes, cancels, retries_failed_for, workers_write, step,
}

-- How many jobs with this id the whole queue holds.
abbrev pub occurs : ℕ → JobQueue → ℕ
occurs id q = count_where (has_id id) (jobs_snapshot q)

pub occurs_parts :
    (id : ℕ) (q : JobQueue)
    → occurs id q
      ≡ count_where (has_id id) q.pending
        + (count_where (has_id id) q.in_flight + count_where (has_id id) q.completed)
unfolding jobs_snapshot
occurs_parts id q = omega (
  arith,
  count_where-append (has_id id) q.pending (q.in_flight ++ q.completed),
  count_where-append (has_id id) q.in_flight q.completed,
)

pub trim_completed_le :
    (p : Job → Bool) (xs : List Job) → count_where p (trim_completed xs) ≤ count_where p xs
unfolding trim_completed
trim_completed_le p xs = ground (arith, count_where-take-drop p (length xs - max_completed) xs)

pub trim_completed_short : (xs : List Job) → length xs ≤ max_completed → trim_completed xs ≡ xs
unfolding trim_completed
trim_completed_short xs h = ground arith

-- The jobs in the hands of callers: those that left the jobs in flight or the history on the first part
-- of `mark_done` or `retry_job`, whose second part is to come.
abbrev pub with_found : Option Job → List Job → List Job
with_found none held = held
with_found (some j) held = j ∷ held

abbrev pub held_after : JobQueue → Call → List Job → List Job
held_after q (leaves_flight j) held = j ∷ held
held_after q (withdraws k) held = with_found (find_first (may_retry q k) q.completed) held
held_after q (enters_history j) held = remove_first (has_id j.id) held
held_after q (requeues j) held = remove_first (has_id j.id) held
held_after q _ held = held

-- How many jobs with this id the queue and its callers hold.
abbrev pub everywhere : ℕ → JobQueue → List Job → ℕ
everywhere id q held = occurs id q + count_where (has_id id) held

-- What the calls keep to: a job that leaves the jobs in flight is there once, a job that is put back is one
-- that its caller holds, and no job is new.
abbrev pub Moves : JobQueue → List Job → Call → Type 0
Moves q held (submits j) = ⊥
Moves q held (leaves_flight j) = count_where (has_id j.id) q.in_flight ≡ 1
Moves q held (enters_history j) = find_first (has_id j.id) held ≡ some j
Moves q held (requeues j) = find_first (has_id j.id) held ≡ some j
Moves q held _ = Unit {0}

-- What a move does to the number of jobs with an id in the queue: nothing, but where the history is full.
abbrev pub Conserves : ℕ → JobQueue → JobQueue → Type 0
Conserves id q q' =
    (occurs id q' ≤ occurs id q) × (length q.completed < max_completed → occurs id q' ≡ occurs id q)

-- The same of the queue and its callers.
abbrev pub ConservesAll : ℕ → JobQueue → List Job → JobQueue → List Job → Type 0
ConservesAll id q held q' held' =
    (everywhere id q' held' ≤ everywhere id q held)
    × (length q.completed < max_completed → everywhere id q' held' ≡ everywhere id q held)

count_sweep :
    (p mine : Job → Bool) (js : List Job) (s : Sweep)
    → count_where p (sweep mine js s).kept + count_where p (sweep mine js s).requeued
      ≡ count_where p s.kept + count_where p s.requeued + count_where p js
unfolding sweep
count_sweep p mine [] s = omega arith
count_sweep p mine (j ∷ js) s = ground (
  arith,
  count_sweep p mine js (sweep_one mine j s),
  count_where-append p s.kept (j ∷ []),
  count_where-append p s.requeued (j ∷ []),
)

pop_front-Conserves :
    (id : ℕ) (js : List Job) (q : JobQueue) → q.pending ≡ js → Conserves id q (pop_front js q).0
pop_front-Conserves id [] q e = (omega arith, λ h. refl)
pop_front-Conserves id (j ∷ js) q e =
    let same : occurs id (pop_front (j ∷ js) q).0 ≡ occurs id q = ground (
      arith,
      occurs_parts id q,
      occurs_parts id (pop_front (j ∷ js) q).0,
      count_where-append (has_id id) q.in_flight (j ∷ []),
    ) in
    (omega arith, λ h. same)

try_dispatch-Conserves : (id : ℕ) (q : JobQueue) → Conserves id q (try_dispatch q).0
unfolding try_dispatch
try_dispatch-Conserves id q = ground (arith, pop_front-Conserves id q.pending q refl)

pause_job-Conserves : (id k : ℕ) (q : JobQueue) → Conserves id q (pause_job q k).0
unfolding pause_job jobs_snapshot
pause_job-Conserves id k q = ground arith

resume_job-Conserves : (id k : ℕ) (q : JobQueue) → Conserves id q (resume_job q k).0
unfolding resume_job jobs_snapshot
resume_job-Conserves id k q = ground arith

cancel_pending-Conserves :
    (id k : ℕ) (q : JobQueue) (o : Option Job)
    → find_first (has_id k) q.pending ≡ o
    → Conserves id q (cancel_pending q k o).0
cancel_pending-Conserves id k q none e = unfold jobs_snapshot in ground arith
cancel_pending-Conserves id k q (some j) e =
    let moved = count_where-remove_first (has_id id) (has_id k) q.pending j e in
    let grown = count_where-append (has_id id) q.completed (j ∷ []) in
    let before = occurs_parts id q in
    let after = occurs_parts id (cancel_pending q k (some j)).0 in
    let q' = (cancel_pending q k (some j)).0 in
    let le : occurs id q' ≤ occurs id q =
      ground (arith, trim_completed_le (has_id id) (q.completed ++ (j ∷ []))) in
    (
      le,
      λ h.
          let short =
            trim_completed_short (q.completed ++ (j ∷ []))
              (omega (arith, length-append q.completed (j ∷ []))) in
          ground (arith, ap (count_where (has_id id)) short),
    )

cancel_job-Conserves : (id k : ℕ) (q : JobQueue) → Conserves id q (cancel_job q k).0
unfolding cancel_job
cancel_job-Conserves id k q = cancel_pending-Conserves id k q (find_first (has_id k) q.pending) refl

retry_matching-Conserves :
    (id : ℕ) (q : JobQueue) (mine : Job → Bool) → Conserves id q (retry_matching q mine).0
unfolding retry_matching
retry_matching-Conserves id q mine =
    let same : occurs id (retry_matching q mine).0 ≡ occurs id q = ground (
      arith,
      occurs_parts id q,
      occurs_parts id (retry_matching q mine).0,
      count_where-append (has_id id) q.pending (sweep mine q.completed (sweep_start q)).requeued,
      count_sweep (has_id id) mine q.completed (sweep_start q),
    ) in
    (omega arith, λ h. same)

count_id_keep :
    (id k : ℕ) (js : List Job)
    → count_where (has_id id) (keep (λ j. not (has_id k j)) js)
      ≡ (if id == k then 0 else count_where (has_id id) js)
count_id_keep id k [] = ground arith
count_id_keep id k (j ∷ js) = ground (arith, count_id_keep id k js)

leave_flight-ConservesAll :
    (id : ℕ) (q : JobQueue) (held : List Job) (j : Job)
    → count_where (has_id j.id) q.in_flight ≡ 1
    → ConservesAll id q held (leave_flight q j) (j ∷ held)
unfolding leave_flight
leave_flight-ConservesAll id q held j one =
    let same : everywhere id (leave_flight q j) (j ∷ held) ≡ everywhere id q held = ground (
      arith,
      count_id_keep id j.id q.in_flight,
      occurs_parts id q,
      occurs_parts id (leave_flight q j),
    ) in
    (omega arith, λ h. same)

withdraw_found-ConservesAll :
    (id k : ℕ) (q : JobQueue) (held : List Job) (o : Option Job)
    → find_first (may_retry q k) q.completed ≡ o
    → ConservesAll id q held (withdraw_found q k o).0 (with_found o held)
withdraw_found-ConservesAll id k q held none e = (omega arith, λ h. refl)
withdraw_found-ConservesAll id k q held (some j) e =
    let q' = (withdraw_found q k (some j)).0 in
    let same : everywhere id q' (j ∷ held) ≡ everywhere id q held = ground (
      arith,
      occurs_parts id q,
      occurs_parts id q',
      count_where-remove_first (has_id id) (may_retry q k) q.completed j e,
    ) in
    (omega arith, λ h. same)

withdraw-ConservesAll :
    (id k : ℕ) (q : JobQueue) (held : List Job)
    → ConservesAll id q held
        (withdraw q k).0
        (with_found (find_first (may_retry q k) q.completed) held)
unfolding withdraw
withdraw-ConservesAll id k q held =
    withdraw_found-ConservesAll id k q held (find_first (may_retry q k) q.completed) refl

requeue-ConservesAll :
    (id : ℕ) (q : JobQueue) (held : List Job) (j : Job)
    → find_first (has_id j.id) held ≡ some j
    → ConservesAll id q held (requeue q j) (remove_first (has_id j.id) held)
unfolding requeue
requeue-ConservesAll id q held j e =
    let same : everywhere id (requeue q j) (remove_first (has_id j.id) held)
        ≡ everywhere id q held =
      ground (
        arith,
        occurs_parts id q,
        occurs_parts id (requeue q j),
        count_where-append (has_id id) q.pending (j ∷ []),
        count_where-remove_first (has_id id) (has_id j.id) held j e,
      ) in
    (omega arith, λ h. same)

enter_history-ConservesAll :
    (id : ℕ) (q : JobQueue) (held : List Job) (j : Job)
    → find_first (has_id j.id) held ≡ some j
    → ConservesAll id q held (enter_history q j) (remove_first (has_id j.id) held)
unfolding enter_history
enter_history-ConservesAll id q held j e =
    let grown = count_where-append (has_id id) q.completed (j ∷ []) in
    let taken = count_where-remove_first (has_id id) (has_id j.id) held j e in
    let before = occurs_parts id q in
    let after = occurs_parts id (enter_history q j) in
    let left = remove_first (has_id j.id) held in
    let le : everywhere id (enter_history q j) left ≤ everywhere id q held =
      ground (arith, trim_completed_le (has_id id) (q.completed ++ (j ∷ []))) in
    (
      le,
      λ h.
          let short =
            trim_completed_short (q.completed ++ (j ∷ []))
              (omega (arith, length-append q.completed (j ∷ []))) in
          ground (arith, ap (count_where (has_id id)) short),
    )

-- A call that leaves the callers' hands as they are.
with_held :
    (id : ℕ) (q q' : JobQueue) (held : List Job)
    → Conserves id q q'
    → ConservesAll id q held q' held
with_held id q q' held c = (omega (arith, c.0), λ h. omega (arith, c.1 h))

pub step-ConservesAll :
    (id : ℕ) (q : JobQueue) (held : List Job) (c : Call)
    → Moves q held c
    → ConservesAll id q held (step q c) (held_after q c held)
unfolding step retry_failed retry_failed_for jobs_snapshot
step-ConservesAll id q held (submits j) m = elim m [ ]
step-ConservesAll id q held (leaves_flight j) m = leave_flight-ConservesAll id q held j m
step-ConservesAll id q held (enters_history j) m = enter_history-ConservesAll id q held j m
step-ConservesAll id q held (withdraws k) m = withdraw-ConservesAll id k q held
step-ConservesAll id q held (requeues j) m = requeue-ConservesAll id q held j m
step-ConservesAll id q held dispatches m =
    with_held id q (try_dispatch q).0 held (try_dispatch-Conserves id q)
step-ConservesAll id q held (pauses k) m =
    with_held id q (pause_job q k).0 held (pause_job-Conserves id k q)
step-ConservesAll id q held (resumes k) m =
    with_held id q (resume_job q k).0 held (resume_job-Conserves id k q)
step-ConservesAll id q held (cancels k) m =
    with_held id q (cancel_job q k).0 held (cancel_job-Conserves id k q)
step-ConservesAll id q held retries_failed m =
    with_held id q (retry_failed q).0 held (retry_matching-Conserves id q (λ j. true))
step-ConservesAll id q held (retries_failed_for serial) m =
    with_held id q (retry_failed_for q serial).0 held
      (ground (arith, retry_matching-Conserves id q (is_for serial)))
step-ConservesAll id q held (workers_write h) m = (omega arith, λ h. refl)

-- While fewer than 200 finished jobs are remembered, every call but `submit`, every part of `mark_done`
-- and `retry_job` and every write of the workers leaves each id exactly as often as it was in the queue
-- and in the hands of the callers between their two locks, which hold what their first part took and put
-- back what they hold; `mark_done` is called with a job that is in flight once.
pub everywhere-step :
    (id : ℕ) (q : JobQueue) (held : List Job) (c : Call)
    → Moves q held c
    → length q.completed < max_completed
    → everywhere id (step q c) (held_after q c held) ≡ everywhere id q held
everywhere-step id q held c m room = (step-ConservesAll id q held c m).1 room
