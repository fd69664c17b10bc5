-- ===== src/Transfer/Queue.antt =====
-- The job queue: crates/transfer-engine/src/queue.rs.
--
-- A part of a method that holds its locks throughout is one step on the whole queue. `mark_done` and
-- `retry_job` let go of one lock before they take the next, so each has two such parts, between which
-- the caller alone holds the job. `notified` counts the sends on the dispatcher's channel, and `updates` lists the jobs that
-- `on_update` was called with, newest first.
pub mod Bounds
pub mod Conservation
pub mod Ids
pub mod Retry
mod Examples
use adbshare.Base.{
  ℕ, suc, ◌+◌, ◌-◌, ◌%◌, ◌^◌, leb, ltb, String, Bool, true, false, not, ◌&&◌, Option, none, some,
  List, [], ◌∷◌, ◌++◌, length, drop, keep, find_first, remove_first, ◌==◌, ℕ_eq, string_eq,
  if◌then◌else◌,
}
use adbshare.Transfer.Job
use adbshare.Transfer.Job.{Job, JobState, Heap, failed, cancelled, skipped}

abbrev pub max_completed : ℕ
max_completed = 200

pub record JobQueue : Type 0 where
  pub pending : List Job
  pub in_flight : List Job
  pub completed : List Job
  pub next_id : ℕ
  pub parallelism : ℕ
  pub notified : ℕ
  pub on_update : Bool
  pub updates : List Job
  pub cells : Heap

abbrev pub new : ℕ → Heap → JobQueue
new parallelism h = record {
  pending = [];
  in_flight = [];
  completed = [];
  next_id = 1;
  parallelism = parallelism;
  notified = 0;
  on_update = false;
  updates = [];
  cells = h;
}

abbrev pub has_id : ℕ → Job → Bool
has_id id j = j.id == id

-- `drain(0..excess)`
unfoldable pub trim_completed : List Job → List Job
trim_completed completed =
    if ltb max_completed (length completed)
    then drop (length completed - max_completed) completed
    else completed

abbrev pub notify : JobQueue → JobQueue
notify q = record q { notified = suc q.notified }

abbrev pub call_on_update : Job → JobQueue → JobQueue
call_on_update j q = if q.on_update then record q { updates = j ∷ q.updates } else q

-- `submit`: the job that is stored, with an id of its own if it came with 0, and the queue.
abbrev pub numbered : JobQueue → Job → Job
numbered q j = if j.id == 0 then record j { id = q.next_id } else j

unfoldable pub submit : JobQueue → Job → JobQueue × ℕ
submit q job =
    let job' = numbered q job in
    let next = if job.id == 0 then (q.next_id + 1) % 2 ^ 64 else q.next_id in
    (
      call_on_update job'
          (notify (record q { pending = q.pending ++ (job' ∷ []); next_id = next })),
      job'.id,
    )

-- `mark_done` up to `drop(inflight)`, and from `completed.lock()` on.
unfoldable pub leave_flight : JobQueue → Job → JobQueue
leave_flight q job = record q { in_flight = keep (λ j. not (has_id job.id j)) q.in_flight }

unfoldable pub enter_history : JobQueue → Job → JobQueue
unfolding trim_completed
enter_history q job = notify (record q { completed = trim_completed (q.completed ++ (job ∷ [])) })

-- `mark_done` when no other call comes between its two locks.
unfoldable pub mark_done : JobQueue → Job → JobQueue
unfolding leave_flight enter_history
mark_done q job = enter_history (leave_flight q job) job

unfoldable pub jobs_snapshot : JobQueue → List Job
jobs_snapshot q = q.pending ++ (q.in_flight ++ q.completed)

abbrev pub pop_front : List Job → JobQueue → JobQueue × Option Job
pop_front [] q = (q, none)
pop_front (job ∷ rest) q =
    (record q { pending = rest; in_flight = q.in_flight ++ (job ∷ []) }, some job)

unfoldable pub try_dispatch : JobQueue → JobQueue × Option Job
try_dispatch q = if leb q.parallelism (length q.in_flight) then (q, none) else pop_front q.pending q

abbrev pub or_else {ℓ} : {A : Type ℓ} → Option A → Option A → Option A
or_else none b = b
or_else (some a) b = some a

-- The three lists are searched under a lock each; that a job moves between two of the searches is left out.
unfoldable pub find : JobQueue → ℕ → Option Job
find q id =
    or_else (find_first (has_id id) q.pending)
      (or_else (find_first (has_id id) q.in_flight) (find_first (has_id id) q.completed))

-- `self.find(id).map(f).is_some()`
abbrev pub on_found : JobQueue → Option Job → (Job → Heap → Heap) → JobQueue × Bool
on_found q none f = (q, false)
on_found q (some j) f = (record q { cells = f j q.cells }, true)

unfoldable pub pause_job : JobQueue → ℕ → JobQueue × Bool
unfolding find
pause_job q id = on_found q (find q id) Job.pause

unfoldable pub resume_job : JobQueue → ℕ → JobQueue × Bool
unfolding find
resume_job q id = on_found q (find q id) Job.resume

-- What `cancel_job` does to the heap for a job that is still pending.
unfoldable pub mark_cancelled : Job → Heap → Heap
unfolding Job.cancel Job.set_error Job.set_state
mark_cancelled j h = Job.set_state j cancelled (Job.set_error j "cancelled" (Job.cancel j h))

abbrev pub cancel_pending : JobQueue → ℕ → Option Job → JobQueue × Bool
cancel_pending q id none = on_found q (find q id) Job.cancel
cancel_pending q id (some job) = (
  record q {
    pending = remove_first (has_id id) q.pending;
    completed = trim_completed (q.completed ++ (job ∷ []));
    cells = mark_cancelled job q.cells;
  },
  true,
)

unfoldable pub cancel_job : JobQueue → ℕ → JobQueue × Bool
unfolding find trim_completed mark_cancelled
cancel_job q id = cancel_pending q id (find_first (has_id id) q.pending)

abbrev pub is_failed : JobState → Bool
is_failed failed = true
is_failed _ = false

abbrev pub is_retryable : JobState → Bool
is_retryable failed = true
is_retryable cancelled = true
is_retryable skipped = true
is_retryable _ = false

abbrev pub may_retry : JobQueue → ℕ → Job → Bool
may_retry q id j = has_id id j && is_retryable (Job.state j q.cells)

-- `retry_job` up to `drop(completed)`, and from there on.
abbrev pub withdraw_found : JobQueue → ℕ → Option Job → JobQueue × Option Job
withdraw_found q id none = (q, none)
withdraw_found q id (some job) =
    (record q { completed = remove_first (may_retry q id) q.completed }, some job)

unfoldable pub withdraw : JobQueue → ℕ → JobQueue × Option Job
withdraw q id = withdraw_found q id (find_first (may_retry q id) q.completed)

unfoldable pub requeue : JobQueue → Job → JobQueue
unfolding Job.reset_for_retry
requeue q job =
    notify (record q { pending = q.pending ++ (job ∷ []); cells = Job.reset_for_retry job q.cells })

abbrev pub requeue_found : JobQueue × Option Job → JobQueue × Bool
requeue_found (q, none) = (q, false)
requeue_found (q, some job) = (requeue q job, true)

-- `retry_job` when no other call comes between its two locks.
unfoldable pub retry_job : JobQueue → ℕ → JobQueue × Bool
unfolding withdraw requeue
retry_job q id = requeue_found (withdraw q id)

-- The state of the closure that `retain` runs over the completed jobs.
pub record Sweep : Type 0 where
  pub kept : List Job
  pub requeued : List Job
  pub count : ℕ
  pub heap : Heap

abbrev pub sweep_one : (Job → Bool) → Job → Sweep → Sweep
sweep_one mine j s =
    if mine j && is_failed (Job.state j s.heap)
    then record s {
      requeued = s.requeued ++ (j ∷ []);
      count = s.count + 1;
      heap = Job.reset_for_retry j s.heap;
    }
    else record s { kept = s.kept ++ (j ∷ []) }

unfoldable pub sweep : (Job → Bool) → List Job → Sweep → Sweep
sweep mine [] s = s
sweep mine (j ∷ js) s = sweep mine js (sweep_one mine j s)

abbrev pub sweep_start : JobQueue → Sweep
sweep_start q = record { kept = []; requeued = []; count = 0; heap = q.cells }

-- The rest of both methods: what the sweep found goes back to the queue.
unfoldable pub retry_matching : JobQueue → (Job → Bool) → JobQueue × ℕ
unfolding sweep
retry_matching q mine =
    let s = sweep mine q.completed (sweep_start q) in
    let q' = record q { pending = q.pending ++ s.requeued; completed = s.kept; cells = s.heap } in
    (if ltb 0 s.count then notify q' else q', s.count)

unfoldable pub retry_failed : JobQueue → JobQueue × ℕ
retry_failed q = retry_matching q (λ j. true)

-- `job.device.as_deref() == Some(serial)`
abbrev pub is_for : String → Job → Bool
is_for serial j = elim j.device [ none ↦ false | some d ↦ d == serial ]

unfoldable pub retry_failed_for : JobQueue → String → JobQueue × ℕ
retry_failed_for q serial = if serial == "" then (q, 0) else retry_matching q (is_for serial)
