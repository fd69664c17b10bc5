-- ===== src/Transfer/Worker/Settles.antt =====
-- What `run` leaves of a job, whatever its transfer ended with.
use adbshare.Base.{
  ◌≡◌, refl, ap, ◌∙◌, String, Bool, true, false, ◌⊎◌, inl, inr, Option, some, if◌then◌else◌, arith,
  ℕ, ℕ_eq, eq_self,
}
use adbshare.Transfer.Job.{
  Job, JobState, running, completed, failed, cancelled, Heap, state, is_cancelled, set_state,
  set_error,
}
use adbshare.Transfer.Worker.{Env, WorkError}
use adbshare.Transfer.Worker.Run.{settle, is_running}

module _ {W E : Type 0} (env : Env W E) (print : WorkError E → String) (chunk_size : ℕ)
    (job : Job) where
  -- The label and the error that a transfer's end makes of those before.
  abbrev pub label_after : Bool → WorkError E ⊎ (Unit {0}) → JobState → JobState
  label_after true r s = cancelled
  label_after false (inl e) s = failed
  label_after false (inr u) running = completed
  label_after false (inr u) s = s

  abbrev pub error_after : Bool → WorkError E ⊎ (Unit {0}) → Option String → Option String
  error_after true r o = some "cancelled"
  error_after false (inl e) o = some (print e)
  error_after false (inr u) o = o

  abbrev pub result_after : Bool → WorkError E ⊎ (Unit {0}) → WorkError E ⊎ (Unit {0})
  result_after true r = inr tt
  result_after false (inl e) = inl e
  result_after false (inr u) = inr tt

  label_done :
      (s : JobState)
      → (if is_running env print chunk_size s then completed else s) ≡ label_after false (inr tt) s
  label_done running = refl
  label_done _ = refl

  -- A world and a result, by the job's flag, label and error before and the transfer's result.
  pub record IsSettled (flag : Bool) (s : JobState) (o : Option String)
      (r : WorkError E ⊎ (Unit {0})) (p : W × (WorkError E ⊎ (Unit {0}))) : Type 0 where
    pub label : state job (env.cells p.0) ≡ label_after flag r s
    pub message : (env.cells p.0 job.cell).error ≡ error_after flag r o
    pub result : p.1 ≡ result_after flag r

  marked :
      (s : JobState) (text : String) (h : Heap)
      → (state job (set_state job s (set_error job text h)) ≡ s)
        × ((set_state job s (set_error job text h) job.cell).error ≡ some text)
  unfolding set_state set_error
  marked s text h = (ground (arith, eq_self job.cell), ground (arith, eq_self job.cell))

  completed_label :
      (h : Heap)
      → (state job (set_state job completed h) ≡ completed)
        × ((set_state job completed h job.cell).error ≡ (h job.cell).error)
  unfolding set_state
  completed_label h = (ground (arith, eq_self job.cell), ground (arith, eq_self job.cell))

  module _ (put : (h : Heap) (w : W) → env.cells (env.put_cells h w) ≡ h) where
    settle_done :
        (w : W) (s : JobState) (b : Bool)
        → is_cancelled job (env.cells w) ≡ b
        → state job (env.cells w) ≡ s
        → (r : WorkError E ⊎ (Unit {0}))
        → IsSettled b s (env.cells w job.cell).error r (settle env print chunk_size job (w, r))
    settle_done w s true q e r =
        let h = set_state job cancelled (set_error job "cancelled" (env.cells w)) in
        rw q (record {
          label =
              ap (λ (h : Heap). state job h) (put h w)
              ∙ (marked cancelled "cancelled" (env.cells w)).0;
          message =
              ap (λ (h : Heap). (h job.cell).error) (put h w)
              ∙ (marked cancelled "cancelled" (env.cells w)).1;
          result = refl;
        })
    settle_done w s false q e (inl x) =
        let h = set_state job failed (set_error job (print x) (env.cells w)) in
        rw q (record {
          label =
              ap (λ (h : Heap). state job h) (put h w) ∙ (marked failed (print x) (env.cells w)).0;
          message =
              ap (λ (h : Heap). (h job.cell).error) (put h w)
              ∙ (marked failed (print x) (env.cells w)).1;
          result = refl;
        })
    settle_done w running false q e (inr u) =
        let h = set_state job completed (env.cells w) in
        rw (q, e)
          (record {
            label = ap (λ (h : Heap). state job h) (put h w) ∙ (completed_label (env.cells w)).0;
            message =
                ap (λ (h : Heap). (h job.cell).error) (put h w) ∙ (completed_label (env.cells w)).1;
            result = refl;
          })
    settle_done w s false q e (inr u) =
        rw (q, e) (record { label = e; message = refl; result = refl })

    pub settle-IsSettled :
        (w : W) (r : WorkError E ⊎ (Unit {0}))
        → IsSettled
            (is_cancelled job (env.cells w))
            (state job (env.cells w))
            (env.cells w job.cell).error
            r
            (settle env print chunk_size job (w, r))
    settle-IsSettled w r =
        settle_done w (state job (env.cells w)) (is_cancelled job (env.cells w)) refl refl r
