-- ===== src/Transfer/Worker/Ran.antt =====
-- A run of a push from a pending job to a completed one.
use adbshare.Base.{
  ℕ, suc, ◌<◌, ◌≡◌, ◌≢◌, refl, ap, ◌∙◌, String, false, not, ◌⊎◌, inl, inr, some, length, ℕ_eq,
  eq_self, arith, if◌then◌else◌,
}
use adbshare.Base.Bytes.{Bytes}
use adbshare.Transfer.Job.{
  Job, Heap, JobState, pending, running, completed, on, state, is_cancelled, is_paused,
  is_paused_state, set_state, set_total, mark_started,
}
use adbshare.Transfer.Worker.{Env, WorkError}
use adbshare.Transfer.Worker.Run.{run_push, push, sized_run, settle_option, settle, begin_run}
use adbshare.Transfer.Worker.Copied.{IsCalm, IsCalm-moved}
use adbshare.Transfer.Worker.Pushed.{Delivers, MayPush, push-IsPushed}

module _ {W E : Type 0} (env : Env W E) (print : WorkError E → String) (chunk_size : ℕ) (job : Job)
    (src dst : ℕ) (source : Bytes) (d : Delivers env chunk_size job src dst source)
    (unverified : job.options.verify ≢ on) where
  abbrev Calm : W → Type 0
  Calm = IsCalm env print chunk_size job src dst source d.serves

  -- A pending job that is neither cancelled nor paused.
  pub record IsPending (w : W) : Type 0 where
    pub not_cancelled : is_cancelled job (env.cells w) ≡ false
    pub not_paused : is_paused job (env.cells w) ≡ false
    pub waits : state job (env.cells w) ≡ pending

  begin_run-known :
      (w : W)
      → state job (env.cells w) ≡ pending
      → begin_run env print chunk_size job w
        ≡ env.put_cells (mark_started job (env.now w) (set_state job running (env.cells w))) w
  begin_run-known w e =
      ap
        (λ (x : JobState).
          env.put_cells
            (mark_started job (env.now w) (
              if not (is_paused_state x) then set_state job running (env.cells w) else env.cells w))
            w)
        e

  begun-Calm :
      (w : W)
      → IsPending w
      → Calm (env.put_cells (mark_started job (env.now w) (set_state job running (env.cells w))) w)
  unfolding mark_started set_state
  begun-Calm w p =
      let put =
        d.serves.put_cells (mark_started job (env.now w) (set_state job running (env.cells w))) w in
      record {
        not_cancelled =
            ap (λ (h : Heap). is_cancelled job h) put
            ∙ ground (arith, eq_self job.cell, p.not_cancelled);
        not_paused =
            ap (λ (h : Heap). is_paused job h) put ∙ ground (arith, eq_self job.cell, p.not_paused);
        working = ap (λ (h : Heap). state job h) put ∙ ground (arith, eq_self job.cell);
      }

  set_total-Calm :
      (total : ℕ) (w : W) → Calm w → Calm (env.put_cells (set_total job total (env.cells w)) w)
  unfolding set_total
  set_total-Calm total w c =
      let put = d.serves.put_cells (set_total job total (env.cells w)) w in
      record {
        not_cancelled =
            ap (λ (h : Heap). is_cancelled job h) put
            ∙ ground (arith, eq_self job.cell, c.not_cancelled);
        not_paused =
            ap (λ (h : Heap). is_paused job h) put ∙ ground (arith, eq_self job.cell, c.not_paused);
        working = ap (λ (h : Heap). state job h) put ∙ ground (arith, eq_self job.cell, c.working);
      }

  sized_run-known :
      (parks fuel : ℕ) (p : W × (E ⊎ ℕ)) (total : ℕ)
      → p.1 ≡ inr total
      → sized_run env print chunk_size parks fuel job p
        ≡ settle_option env print chunk_size job (
            push env print chunk_size parks fuel job
              (env.put_cells (set_total job total (env.cells p.0)) p.0))
  sized_run-known parks fuel (w, inl e) total q = cc
  sized_run-known parks fuel (w, inr n) total q = let same : n ≡ total = cc in rw same refl

  state-completed : (h : Heap) → state job (set_state job completed h) ≡ completed
  unfolding set_state
  state-completed h = ground (arith, eq_self job.cell)

  settle-Calm :
      (w : W)
      → Calm w
      → settle env print chunk_size job (w, inr tt)
        ≡ (env.put_cells (set_state job completed (env.cells w)) w, inr tt)
  settle-Calm w c = rw (c.not_cancelled, c.working) refl

  -- `run` of a pending job that pushes and does not verify, which no one cancels or pauses, on a host
  -- and a device that do what is documented, onto a destination that is not there, in mode Always, or in mode Resume onto
  -- a beginning of the source: it ends with enough fuel and returns no error, and then the
  -- destination is the source, byte for byte, and the job is Completed.
  pub run_push-completed :
      (parks fuel : ℕ) (w : W)
      → IsPending w
      → MayPush env print chunk_size job src dst source d unverified job.options.overwrite w
      → length source < fuel
      → (w' : W) × (run_push env print chunk_size (suc parks) fuel job w ≡ some (w', inr tt))
        × (d.serves.file w' ≡ source)
        × (state job (env.cells w') ≡ completed)
  unfolding run_push
  run_push-completed parks fuel w p may enough =
      let h = mark_started job (env.now w) (set_state job running (env.cells w)) in
      let w1 = env.put_cells h w in
      let m = env.metadata job.source w1 in
      let calm2 : Calm m.0 =
        IsCalm-moved env print chunk_size job src dst source d.serves w1 m.0 (d.metadata_cells w1)
          (begun-Calm w p) in
      let h3 = set_total job (length source) (env.cells m.0) in
      let w3 = env.put_cells h3 m.0 in
      let same : d.serves.file w3 ≡ d.serves.file w =
        d.serves.put_file h3 m.0 ∙ d.metadata_file w1 ∙ d.serves.put_file h w in
      let there : d.is_there w3 ≡ d.is_there w =
        d.put_there h3 m.0 ∙ d.metadata_there w1 ∙ d.put_there h w in
      let (w4, e, file, calm4) =
        push-IsPushed env print chunk_size job src dst source d unverified parks fuel w3
          (set_total-Calm (length source) m.0 calm2) (rw (there, same) may) enough in
      let done = set_state job completed (env.cells w4) in
      (
        env.put_cells done w4,
        rw
            (
              p.not_cancelled,
              begin_run-known w p.waits,
              sized_run-known (suc parks) fuel m (length source) (d.metadata_result w1),
              e,
              settle-Calm w4 calm4,
            )
            refl,
        d.serves.put_file done w4 ∙ file,
        ap (λ (x : Heap). state job x) (d.serves.put_cells done w4)
            ∙ state-completed (env.cells w4),
      )
