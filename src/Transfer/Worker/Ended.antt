-- ===== src/Transfer/Worker/Ended.antt =====
-- How a run of a push can end.
use adbshare.Base.{◌≡◌, ◌≢◌, String, true, ◌⊎◌, inl, inr, Option, none, some, ℕ, ℕ_eq}
use adbshare.Transfer.Job.{Job, running, failed, cancelled, state, is_cancelled}
use adbshare.Transfer.Worker.{Env, WorkError}

module _ {W E : Type 0} (env : Env W E) (print : WorkError E → String) (chunk_size : ℕ)
    (job : Job) where
  abbrev error_of : W → Option String
  error_of w = (env.cells w job.cell).error

  -- What a caller of `run` can rely on, by the result that it got. An error is the one that the job
  -- shows, and the job is Failed; without an error, the job is not left Running, and one that was
  -- cancelled is Cancelled and says so.
  abbrev pub Tells : W → WorkError E ⊎ (Unit {0}) → Type 0
  Tells w (inl e) = (state job (env.cells w) ≡ failed) × (error_of w ≡ some (print e))
  Tells w (inr u) =
      (state job (env.cells w) ≢ running)
      × (is_cancelled job (env.cells w) ≡ true
          → (state job (env.cells w) ≡ cancelled) × (error_of w ≡ some "cancelled"))

  -- Of a run that ends.
  abbrev pub Told : Option (W × (WorkError E ⊎ (Unit {0}))) → Type 0
  Told none = Unit {0}
  Told (some (w, r)) = Tells w r
