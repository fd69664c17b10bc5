-- ===== src/Transfer/Queue/Examples.antt =====
-- A queue with one job of each phone, and the properties at it.
use adbshare.Base.{
  ℕ, ◌≡◌, refl, ◌++◌, String, true, Option, none, some, List, [], ◌∷◌, string_eq, arith,
}
use adbshare.Transfer.Job.{Job, Heap, push, off, skip_existing, failed, fresh_cell, update}
use adbshare.Transfer.Queue.{
  JobQueue, new, submit, leave_flight, withdraw, jobs_snapshot, try_dispatch, cancel_job,
  retry_failed, retry_failed_for, retry_matching,
}
use adbshare.Transfer.Queue.Bounds.{
  Call, submits, dispatches, cancels, leaves_flight, IsBounded, run, step, run-new-IsBounded,
}
use adbshare.Transfer.Queue.Conservation.{occurs, everywhere, everywhere-step}
use adbshare.Transfer.Queue.Ids.{here, next, HasDistinctIds, Reached-HasDistinctIds}
use adbshare.Transfer.Queue.Retry.{Requeued, retry_failed_lem}

abbrev job_for : Option String → ℕ → ℕ → Job
job_for device id cell = record {
  id = id;
  direction = push;
  source = "/home/me/a";
  destination = "/sdcard/a";
  options = record { chunk_size = 65536; verify = off; overwrite = skip_existing };
  device = device;
  cell = cell;
}

abbrev one_failed : Heap
one_failed = update (λ a. fresh_cell) 1 (record fresh_cell { state = failed })

-- Two finished jobs of two phones, one in flight and one pending; the first has failed.
abbrev busy : JobQueue
busy = record (new 1 one_failed) {
  pending = job_for none 4 4 ∷ [];
  in_flight = job_for none 3 3 ∷ [];
  completed = job_for (some "ABC") 1 1 ∷ job_for (some "ABCD") 2 2 ∷ [];
  next_id = 5;
}

dispatch_waits : try_dispatch busy ≡ (busy, none)
unfolding try_dispatch
dispatch_waits = refl

cancel_moves : (cancel_job busy 4).0.completed ≡ busy.completed ++ (job_for none 4 4 ∷ [])
unfolding cancel_job
cancel_moves = refl

retries_the_failed_one :
    (retry_failed_for busy "ABC").0.pending ≡ job_for none 4 4 ∷ job_for (some "ABC") 1 1 ∷ []
unfolding retry_failed_for retry_matching
retries_the_failed_one = refl

retries_no_prefix : (retry_failed_for busy "AB").1 ≡ 0
unfolding retry_failed_for retry_matching
retries_no_prefix = refl

abbrev history : List Call
history =
    submits (job_for none 0 1)
    ∷ dispatches
    ∷ submits (job_for none 0 2)
    ∷ dispatches
    ∷ cancels 2
    ∷ []

run-new-IsBounded_example : IsBounded (run (new 1 one_failed) history)
run-new-IsBounded_example = run-new-IsBounded 1 one_failed history

everywhere-step_example :
    everywhere 3 (leave_flight busy (job_for none 3 3)) (job_for none 3 3 ∷ [])
    ≡ everywhere 3 busy []
unfolding step
everywhere-step_example =
    everywhere-step 3 busy [] (leaves_flight (job_for none 3 3)) refl (omega arith)

-- Between the two parts of `mark_done` and of `retry_job` no list has the job.
vanishes_when_done : occurs 3 (leave_flight busy (job_for none 3 3)) ≡ 0
unfolding leave_flight jobs_snapshot
vanishes_when_done = refl

vanishes_when_retried : (occurs 1 busy ≡ 1) × (occurs 1 (withdraw busy 1).0 ≡ 0)
unfolding withdraw jobs_snapshot
vanishes_when_retried = (refl, refl)

Reached-HasDistinctIds_example :
    HasDistinctIds
      (step
        (step (step (new 1 one_failed) (submits (job_for none 0 1))) dispatches)
        (leaves_flight (job_for none 1 1)))
      (job_for none 1 1 ∷ [])
Reached-HasDistinctIds_example = Reached-HasDistinctIds 1 one_failed (
    next (leaves_flight (job_for none 1 1))
      (next dispatches (next (submits (job_for none 0 1)) here (refl, omega arith)) tt)
      (unfold submit try_dispatch step in refl))

retry_failed_lem_example : Requeued (λ j. true) busy (retry_failed busy)
retry_failed_lem_example = retry_failed_lem busy ((refl, tt), (tt, tt))
