-- ===== src/Transfer/Queue/Bounds.antt =====
-- The capacity and the history bound hold after any calls, whatever the workers write meanwhile.
use adbshare.Base.{
  ℕ, ◌+◌, ◌-◌, ◌≤◌, ◌<◌, ◌≡◌, refl, true, String, Bool, Option, none, some, List, [], ◌∷◌, ◌++◌,
  length, length-drop, length-append, length-keep-le, length-remove_first-le, find_first, not,
  arith,
}
use adbshare.Transfer.Job.{Job, Heap}
use adbshare.Transfer.Queue.{
  JobQueue, max_completed, new, has_id, may_retry, submit, leave_flight, enter_history, mark_done,
  withdraw, requeue, try_dispatch, pause_job, resume_job, cancel_job, retry_failed,
  retry_failed_for, retry_matching, trim_completed, sweep, Sweep, sweep_start, is_for, sweep_one,
  pop_front, cancel_pending,
}

-- A call of a method, the first or the second part of `mark_done` and of `retry_job`, or a write of the
-- workers through the jobs' shared cells.
pub data Call : Type 0 where
  submits leaves_flight enters_history requeues : Job → Call
  dispatches retries_failed : Call
  pauses resumes cancels withdraws : ℕ → Call
  retries_failed_for : String → Call
  workers_write : Heap → Call

unfoldable pub step : JobQueue → Call → JobQueue
step q (submits j) = (submit q j).0
step q (leaves_flight j) = leave_flight q j
step q (enters_history j) = enter_history q j
step q (withdraws id) = (withdraw q id).0
step q (requeues j) = requeue q j
step q dispatches = (try_dispatch q).0
step q (pauses id) = (pause_job q id).0
step q (resumes id) = (resume_job q id).0
step q (cancels id) = (cancel_job q id).0
step q retries_failed = (retry_failed q).0
step q (retries_failed_for serial) = (retry_failed_for q serial).0
step q (workers_write h) = record q { cells = h }

unfoldable pub run : JobQueue → List Call → JobQueue
run q [] = q
run q (c ∷ cs) = run (step q c) cs

-- The two parts with nothing in between are the method.
run-mark_done :
    (q : JobQueue) (j : Job) → run q (leaves_flight j ∷ enters_history j ∷ []) ≡ mark_done q j
unfolding run step mark_done
run-mark_done q j = refl

pub record IsBounded (q : JobQueue) : Type 0 where
  pub capacity : length q.in_flight ≤ q.parallelism
  pub history : length q.completed ≤ max_completed

pub length-trim_completed : (xs : List Job) → length (trim_completed xs) ≤ max_completed
unfolding trim_completed
length-trim_completed xs = ground (arith, length-drop (length xs - max_completed) xs)

length-sweep :
    (mine : Job → Bool) (js : List Job) (s : Sweep)
    → length (sweep mine js s).kept ≤ length s.kept + length js
unfolding sweep
length-sweep mine [] s = omega arith
length-sweep mine (j ∷ js) s =
    ground (arith, length-sweep mine js (sweep_one mine j s), length-append s.kept (j ∷ []))

submit-IsBounded : (q : JobQueue) (j : Job) → IsBounded q → IsBounded (submit q j).0
unfolding submit
submit-IsBounded q j b = ground arith

leave_flight-IsBounded : (q : JobQueue) (j : Job) → IsBounded q → IsBounded (leave_flight q j)
unfolding leave_flight
leave_flight-IsBounded q j b = record {
  capacity = omega (arith, b, length-keep-le (λ i. not (has_id j.id i)) q.in_flight);
  history = b.history;
}

enter_history-IsBounded : (q : JobQueue) (j : Job) → IsBounded q → IsBounded (enter_history q j)
unfolding enter_history
enter_history-IsBounded q j b = record {
  capacity = b.capacity;
  history = length-trim_completed (q.completed ++ (j ∷ []));
}

pop_front-IsBounded :
    (js : List Job) (q : JobQueue)
    → length q.in_flight < q.parallelism
    → IsBounded q
    → IsBounded (pop_front js q).0
pop_front-IsBounded [] q free b = b
pop_front-IsBounded (j ∷ js) q free b = record {
  capacity = omega (arith, length-append q.in_flight (j ∷ []));
  history = b.history;
}

try_dispatch-IsBounded : (q : JobQueue) → IsBounded q → IsBounded (try_dispatch q).0
unfolding try_dispatch
try_dispatch-IsBounded q b = ground (arith, pop_front-IsBounded q.pending q)

cancel_pending-IsBounded :
    (q : JobQueue) (id : ℕ) (o : Option Job) → IsBounded q → IsBounded (cancel_pending q id o).0
cancel_pending-IsBounded q id none b = ground arith
cancel_pending-IsBounded q id (some j) b = record {
  capacity = b.capacity;
  history = length-trim_completed (q.completed ++ (j ∷ []));
}

cancel_job-IsBounded : (q : JobQueue) (id : ℕ) → IsBounded q → IsBounded (cancel_job q id).0
unfolding cancel_job
cancel_job-IsBounded q id b = cancel_pending-IsBounded q id (find_first (has_id id) q.pending) b

withdraw-IsBounded : (q : JobQueue) (id : ℕ) → IsBounded q → IsBounded (withdraw q id).0
unfolding withdraw
withdraw-IsBounded q id b = ground (arith, length-remove_first-le (may_retry q id) q.completed)

requeue-IsBounded : (q : JobQueue) (j : Job) → IsBounded q → IsBounded (requeue q j)
unfolding requeue
requeue-IsBounded q j b = record { capacity = b.capacity; history = b.history }

pause_job-IsBounded : (q : JobQueue) (id : ℕ) → IsBounded q → IsBounded (pause_job q id).0
unfolding pause_job
pause_job-IsBounded q id b = ground arith

resume_job-IsBounded : (q : JobQueue) (id : ℕ) → IsBounded q → IsBounded (resume_job q id).0
unfolding resume_job
resume_job-IsBounded q id b = ground arith

retry_matching-IsBounded :
    (q : JobQueue) (mine : Job → Bool) → IsBounded q → IsBounded (retry_matching q mine).0
unfolding retry_matching
retry_matching-IsBounded q mine b = ground (arith, length-sweep mine q.completed (sweep_start q))

step-IsBounded : (q : JobQueue) (c : Call) → IsBounded q → IsBounded (step q c)
unfolding step retry_failed retry_failed_for
step-IsBounded q (submits j) b = submit-IsBounded q j b
step-IsBounded q (leaves_flight j) b = leave_flight-IsBounded q j b
step-IsBounded q (enters_history j) b = enter_history-IsBounded q j b
step-IsBounded q (withdraws id) b = withdraw-IsBounded q id b
step-IsBounded q (requeues j) b = requeue-IsBounded q j b
step-IsBounded q dispatches b = try_dispatch-IsBounded q b
step-IsBounded q (pauses id) b = pause_job-IsBounded q id b
step-IsBounded q (resumes id) b = resume_job-IsBounded q id b
step-IsBounded q (cancels id) b = cancel_job-IsBounded q id b
step-IsBounded q retries_failed b = retry_matching-IsBounded q (λ j. true) b
step-IsBounded q (retries_failed_for serial) b =
    ground (arith, retry_matching-IsBounded q (is_for serial))
step-IsBounded q (workers_write h) b = record { capacity = b.capacity; history = b.history }

run-IsBounded : (q : JobQueue) (cs : List Call) → IsBounded q → IsBounded (run q cs)
unfolding run
run-IsBounded q [] b = b
run-IsBounded q (c ∷ cs) b = run-IsBounded (step q c) cs (step-IsBounded q c b)

-- After any sequence of calls on a new queue, also between the two parts of a `mark_done` or a
-- `retry_job`, interleaved with any writes of the workers to the
-- jobs' shared cells, at most `parallelism` jobs are in flight and at most 200 finished jobs are
-- remembered.
pub run-new-IsBounded :
    (parallelism : ℕ) (h : Heap) (cs : List Call) → IsBounded (run (new parallelism h) cs)
run-new-IsBounded parallelism h cs =
    run-IsBounded (new parallelism h) cs (record { capacity = omega arith; history = omega arith })
