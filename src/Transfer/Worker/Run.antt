-- ===== src/Transfer/Worker/Run.antt =====
-- Push and run: the code of worker.rs, call by call. Loops that wait or copy take fuel.
use adbshare.Base.{
  ℕ, zero, suc, ◌+◌, ◌-◌, ◌^◌, min, ltb, String, Bool, true, false, not, ◌&&◌, ◌⊎◌, inl, inr,
  Option, none, some, [], ◌∷◌, ◌++◌, length, ◌==◌, string_eq, if◌then◌else◌,
}
use adbshare.Base.Bytes.{Bytes}
use adbshare.Transfer.Job.{
  Job, JobState, OverwriteMode, always, skip_existing, resume_partial, rename, VerifyMode, on,
  running, completed, skipped, failed, cancelled, Heap, state, is_cancelled, is_paused,
  is_paused_state, set_state, set_error, set_total, add_bytes, mark_started,
}
use adbshare.Transfer.Worker.{
  Env, OpenFlags, read_only, create_write, create_write_trunc, WorkError, proxy_error, plain,
  stat_source, seek_source, read_source, close_destination, hashing_local, hashing_remote,
  close_remote, checksum_mismatch, was_cancelled, Work, ◌>>=◌, ◌>>◌, pure, fail, call, attempt,
  effect, map_err,
}
use adbshare.Transfer.Worker.Rename.{pick_remote_rename}

module _ {W E : Type 0} (env : Env W E) (print : WorkError E → String) (chunk_size : ℕ) where
  abbrev pub on_cells : (Heap → Heap) → Work W E (Unit {0})
  on_cells f = effect (λ w. env.put_cells (f (env.cells w)) w)

  abbrev pub reads_cells : {A : Type 0} → (Heap → A) → Work W E A
  reads_cells f w = some (w, inr (f (env.cells w)))

  abbrev pub park_round : Work W E Bool → Job → Bool → Work W E Bool
  park_round next job true w = next (env.sleep w)
  park_round next job false w = some (w, inr (is_cancelled job (env.cells w)))

  -- A round sleeps while the job is paused and not cancelled.
  unfoldable pub wait_while_paused : ℕ → Job → Work W E Bool
  wait_while_paused zero job w = none
  wait_while_paused (suc fuel) job w =
      let h = env.cells w in
      park_round (wait_while_paused fuel job) job (is_paused job h && not (is_cancelled job h)) w

  abbrev pub stopped_or : Work W E Bool → Bool → Work W E Bool
  stopped_or next true = pure true
  stopped_or next false = next

  -- `job.is_cancelled() || self.wait_while_paused(job).await`
  abbrev pub stopped : ℕ → Job → Work W E Bool
  stopped fuel job w = stopped_or (wait_while_paused fuel job) (is_cancelled job (env.cells w)) w

  -- What the loop of `push` breaks with.
  abbrev pub Broke : Type 0
  Broke = WorkError E ⊎ (Unit {0})

  abbrev pub after_write : (ℕ → Work W E Broke) → ℕ → Bytes → Job → E ⊎ (Unit {0}) → Work W E Broke
  after_write next offset bytes job (inl e) = pure (inl (proxy_error e))
  after_write next offset bytes job (inr u) = do
    on_cells (add_bytes job (length bytes))
    next (offset + length bytes)

  abbrev pub after_chunk : (ℕ → Work W E Broke) → ℕ → ℕ → Job → E ⊎ Bytes → Work W E Broke
  after_chunk next offset dst job (inl e) = pure (inl (read_source e))
  after_chunk next offset dst job (inr []) = pure (inr tt)
  after_chunk next offset dst job (inr (b ∷ bs)) = do
    r ← attempt (env.write_at dst offset (b ∷ bs))
    after_write next offset (b ∷ bs) job r

  abbrev pub copy_round : (ℕ → Work W E Broke) → ℕ → ℕ → ℕ → Job → Bool → Work W E Broke
  copy_round next offset src dst job true = pure (inl was_cancelled)
  copy_round next offset src dst job false = do
    got ← attempt (env.read src chunk_size)
    after_chunk next offset dst job got

  -- The copying loop of `push`, from an offset; `parks` is the fuel of each wait. The tracker of
  -- the speed is not modelled.
  unfoldable pub copy_loop : ℕ → ℕ → ℕ → ℕ → Job → ℕ → Work W E Broke
  copy_loop parks zero src dst job offset w = none
  copy_loop parks (suc fuel) src dst job offset w =
      (do
        stop ← stopped parks job
        copy_round (λ o. copy_loop parks fuel src dst job o) offset src dst job stop)
        w

  abbrev pub after_remote_chunk : (ℕ → Bytes → Work W E Bytes) → ℕ → Bytes → Bytes → Work W E Bytes
  after_remote_chunk next offset got [] = pure got
  after_remote_chunk next offset got (b ∷ bs) = next (offset + length (b ∷ bs)) (got ++ (b ∷ bs))

  -- The bytes that `hash_remote` feeds to the hasher.
  unfoldable pub read_remote : ℕ → ℕ → ℕ → Bytes → Work W E Bytes
  read_remote zero fd offset got w = none
  read_remote (suc fuel) fd offset got w =
      (do
        bytes ← call proxy_error (env.read_at fd offset (min chunk_size (2 ^ 32 - 1)))
        after_remote_chunk (read_remote fuel fd) offset got bytes)
        w

  unfoldable pub hash_remote : ℕ → String → Work W E String
  unfolding read_remote
  hash_remote fuel path = do
    fd ← call proxy_error (env.open_remote path read_only)
    bytes ← read_remote fuel fd 0 []
    call close_remote (env.close fd)
    pure (env.sha256 bytes)

  unfoldable pub verify_paths : ℕ → String → String → Work W E (Unit {0})
  unfolding hash_remote
  verify_paths fuel local remote = do
    local_hash ← call hashing_local (env.sha256_file local)
    remote_hash ← map_err hashing_remote (hash_remote fuel remote)
    if local_hash == remote_hash then pure tt else fail (checksum_mismatch local_hash remote_hash)

  -- What a failed loop leaves: the file is closed, and unlinked if this job made it.
  abbrev pub clean_up : Bool → String → Work W E (Unit {0})
  clean_up true dest = do r ← attempt (env.unlink dest); pure tt
  clean_up false dest = pure tt

  abbrev pub verified : ℕ → Job → String → VerifyMode → Work W E (Unit {0})
  verified fuel job dest on = verify_paths fuel job.source dest
  verified fuel job dest _ = pure tt

  abbrev pub end_copy : ℕ → Job → String → Bool → ℕ → Broke → Work W E (Unit {0})
  end_copy fuel job dest created dst (inl e) = do
    r ← attempt (env.close dst)
    clean_up created dest
    fail e
  end_copy fuel job dest created dst (inr u) = do
    call close_destination (env.close dst)
    verified fuel job dest job.options.verify

  abbrev pub seek_to : ℕ → ℕ → Job → Work W E (Unit {0})
  seek_to src zero job = pure tt
  seek_to src (suc n) job = do
    call seek_source (env.seek src (suc n))
    on_cells (add_bytes job (suc n))

  -- The rest of `push`, with the destination, the offset and the flags chosen.
  abbrev pub transfer : ℕ → ℕ → Job → String → ℕ → Bool → OpenFlags → Work W E (Unit {0})
  transfer parks fuel job dest offset created flags = do
    src ← call plain (env.open_source job.source)
    seek_to src offset job
    dst ← call proxy_error (env.open_remote dest flags)
    outcome ← copy_loop parks fuel src dst job offset
    end_copy fuel job dest created dst outcome

  -- An existing destination, by the overwrite mode.
  abbrev pub onto : ℕ → ℕ → Job → ℕ → ℕ → OverwriteMode → Work W E (Unit {0})
  onto parks fuel job source_len size skip_existing = do
    on_cells (set_total job size)
    on_cells (add_bytes job size)
    on_cells (set_state job skipped)
  onto parks fuel job source_len size resume_partial =
      if ltb size source_len
      then transfer parks fuel job job.destination size false create_write
      else transfer parks fuel job job.destination 0 false create_write_trunc
  onto parks fuel job source_len size rename = λ w.
      let p = pick_remote_rename env job.destination w in
      transfer parks fuel job p.1 0 true create_write_trunc p.0
  onto parks fuel job source_len size always =
      transfer parks fuel job job.destination 0 false create_write_trunc

  abbrev pub push_onto : ℕ → ℕ → Job → ℕ → E ⊎ ℕ → Work W E (Unit {0})
  push_onto parks fuel job source_len (inl e) =
      transfer parks fuel job job.destination 0 true create_write_trunc
  push_onto parks fuel job source_len (inr size) =
      onto parks fuel job source_len size job.options.overwrite

  unfoldable pub push : ℕ → ℕ → Job → Work W E (Unit {0})
  unfolding copy_loop verify_paths
  push parks fuel job = do
    source_len ← call stat_source (env.metadata job.source)
    existing ← attempt (env.stat job.destination)
    push_onto parks fuel job source_len existing

  abbrev pub is_running : JobState → Bool
  is_running running = true
  is_running _ = false

  abbrev pub fail_job : Job → WorkError E → W → W
  fail_job job e w = env.put_cells (set_state job failed (set_error job (print e) (env.cells w))) w

  abbrev pub cancel_run : Job → W → W
  cancel_run job w =
      env.put_cells (set_state job cancelled (set_error job "cancelled" (env.cells w))) w

  -- What `run` does with the result of the transfer.
  abbrev pub settle : Job → W × (WorkError E ⊎ (Unit {0})) → W × (WorkError E ⊎ (Unit {0}))
  settle job (w, r) =
      if is_cancelled job (env.cells w) then (cancel_run job w, inr tt) else elim r [
        | inl e ↦ (fail_job job e w, inl e)
        | inr u ↦ (
          (if is_running (state job (env.cells w))
              then env.put_cells (set_state job completed (env.cells w)) w
              else w),
          inr tt,
        )
      ]

  abbrev pub settle_option :
      Job → Option (W × (WorkError E ⊎ (Unit {0}))) → Option (W × (WorkError E ⊎ (Unit {0})))
  settle_option job none = none
  settle_option job (some p) = some (settle job p)

  abbrev pub begin_run : Job → W → W
  begin_run job w =
      let h = env.cells w in
      let h' = if not (is_paused_state (state job h)) then set_state job running h else h in
      env.put_cells (mark_started job (env.now w) h') w

  abbrev pub sized_run : ℕ → ℕ → Job → W × (E ⊎ ℕ) → Option (W × (WorkError E ⊎ (Unit {0})))
  sized_run parks fuel job (w, inl e) = some (fail_job job (plain e) w, inl (plain e))
  sized_run parks fuel job (w, inr total) =
      settle_option job (push parks fuel job (env.put_cells (set_total job total (env.cells w)) w))

  -- `run` of a job whose direction is `push`.
  unfoldable pub run_push : ℕ → ℕ → Job → Work W E (Unit {0})
  unfolding push
  run_push parks fuel job w =
      if is_cancelled job (env.cells w)
      then some (cancel_run job w, inr tt)
      else sized_run parks fuel job (env.metadata job.source (begin_run job w))
