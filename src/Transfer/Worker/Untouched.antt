-- ===== src/Transfer/Worker/Untouched.antt =====
-- Which calls a push makes: a destination that was there is never removed.
use adbshare.Base.{
  ℕ, zero, suc, ◌+◌, ◌-◌, ◌^◌, min, ltb, String, Bool, true, false, ◌≡◌, refl, ◌⊎◌, inl, inr,
  Option, none, some, [], ◌∷◌, length, ◌==◌, string_eq, ◌≢◌, if_both,
}
use adbshare.Base.Bytes.{Bytes}
use adbshare.Transfer.Job.{
  Job, OverwriteMode, always, skip_existing, resume_partial, rename, VerifyMode, off, on, on_error,
  Heap, is_cancelled, add_bytes,
}
use adbshare.Transfer.Worker.{
  Env, OpenFlags, checksum_mismatch, stat_source, read_only, proxy_error, plain, seek_source,
  close_destination, hashing_local, hashing_remote, close_remote, create_write, create_write_trunc,
  WorkError, Work, ◌>>=◌, pure, fail, call, attempt, bind_result, bind_option, map_err,
  remap_option, mapped,
}
use adbshare.Transfer.Worker.Run.{
  push, transfer, onto, push_onto, copy_loop, copy_round, after_chunk, after_write, stopped,
  wait_while_paused, end_copy, verified, verify_paths, hash_remote, read_remote, seek_to,
}
use adbshare.Transfer.Worker.Run.{park_round, stopped_or, after_remote_chunk, on_cells}

-- A property of the world that no call but `unlink` can break.
pub record Withstands {W E : Type 0} (env : Env W E) (P : W → Type 0) : Type 0 where
  pub put : (h : Heap) (w : W) → P w → P (env.put_cells h w)
  pub sleeps : (w : W) → P w → P (env.sleep w)
  pub metadata : (p : String) (w : W) → P w → P (env.metadata p w).0
  pub open_source : (p : String) (w : W) → P w → P (env.open_source p w).0
  pub seek : (f n : ℕ) (w : W) → P w → P (env.seek f n w).0
  pub read : (f n : ℕ) (w : W) → P w → P (env.read f n w).0
  pub sha256_file : (p : String) (w : W) → P w → P (env.sha256_file p w).0
  pub stat : (p : String) (w : W) → P w → P (env.stat p w).0
  pub open_remote : (p : String) (f : OpenFlags) (w : W) → P w → P (env.open_remote p f w).0
  pub write_at : (f o : ℕ) (bs : Bytes) (w : W) → P w → P (env.write_at f o bs w).0
  pub read_at : (f o n : ℕ) (w : W) → P w → P (env.read_at f o n w).0
  pub close : (f : ℕ) (w : W) → P w → P (env.close f w).0

module _ {W E : Type 0} (P : W → Type 0) where
  -- However a piece of work ends, the property holds then.
  abbrev pub EndsIn : {A : Type 0} → Option (W × (WorkError E ⊎ A)) → Type 0
  EndsIn none = Unit
  EndsIn (some p) = P p.0

  abbrev pub Preserves : {A : Type 0} → Work W E A → Type 0
  Preserves m = (w : W) → P w → EndsIn (m w)

  bind_result-EndsIn :
      {A B : Type 0} (f : A → Work W E B) (p : W × (WorkError E ⊎ A))
      → ((a : A) → Preserves (f a))
      → P p.0
      → EndsIn (bind_result f p)
  bind_result-EndsIn f (w, inl e) k h = h
  bind_result-EndsIn f (w, inr a) k h = k a w h

  bind_option-EndsIn :
      {A B : Type 0} (f : A → Work W E B) (o : Option (W × (WorkError E ⊎ A)))
      → ((a : A) → Preserves (f a))
      → EndsIn o
      → EndsIn (bind_option f o)
  bind_option-EndsIn f none k h = tt
  bind_option-EndsIn f (some p) k h = bind_result-EndsIn f p k h

  bind-Preserves :
      {A B : Type 0} (m : Work W E A) (f : A → Work W E B)
      → Preserves m
      → ((a : A) → Preserves (f a))
      → Preserves (m >>= f)
  bind-Preserves m f p k w h = bind_option-EndsIn f (m w) k (p w h)

  mapped-P : {A : Type 0} (f : E → WorkError E) (p : W × (E ⊎ A)) → P p.0 → P (mapped f p).0
  mapped-P f (w, inl e) h = h
  mapped-P f (w, inr a) h = h

  -- A call whose world the code that follows knows more of.
  mapped-EndsIn :
      {A B : Type 0} (g : E → WorkError E) (f : A → Work W E B) (p : W × (E ⊎ A))
      → ((a : A) → EndsIn (f a p.0))
      → P p.0
      → EndsIn (bind_result f (mapped g p))
  mapped-EndsIn g f (w, inl e) k h = h
  mapped-EndsIn g f (w, inr a) k h = k a

  call-Preserves :
      {A : Type 0} (f : E → WorkError E) (m : W → W × (E ⊎ A))
      → ((w : W) → P w → P (m w).0)
      → Preserves (call f m)
  call-Preserves f m k w h = mapped-P f (m w) (k w h)

module _ {W E : Type 0} (env : Env W E) (print : WorkError E → String) (chunk_size : ℕ)
    (P : W → Type 0) (safe : Withstands env P) where
  pure-Preserves : {A : Type 0} (a : A) → Preserves {W = W} {E = E} P (pure a)
  pure-Preserves a w h = h

  park_round-Preserves :
      (next : Work W E Bool) (job : Job) (parked : Bool)
      → Preserves P next
      → Preserves P (park_round env print chunk_size next job parked)
  park_round-Preserves next job true k w h = k (env.sleep w) (safe.sleeps w h)
  park_round-Preserves next job false k w h = h

  wait_while_paused-Preserves :
      (fuel : ℕ) (job : Job) → Preserves P (wait_while_paused env print chunk_size fuel job)
  unfolding wait_while_paused
  wait_while_paused-Preserves zero job w h = tt
  wait_while_paused-Preserves (suc fuel) job w h =
      park_round-Preserves (wait_while_paused env print chunk_size fuel job) job _
        (wait_while_paused-Preserves fuel job) w h

  stopped_or-Preserves :
      (next : Work W E Bool) (b : Bool)
      → Preserves P next
      → Preserves P (stopped_or env print chunk_size next b)
  stopped_or-Preserves next true k w h = h
  stopped_or-Preserves next false k w h = k w h

  stopped-Preserves : (fuel : ℕ) (job : Job) → Preserves P (stopped env print chunk_size fuel job)
  stopped-Preserves fuel job w h =
      stopped_or-Preserves (wait_while_paused env print chunk_size fuel job)
        (is_cancelled job (env.cells w)) (wait_while_paused-Preserves fuel job) w h

  after_write-Preserves :
      (next : ℕ → Work W E (WorkError E ⊎ (Unit {0}))) (offset : ℕ) (bytes : Bytes) (job : Job)
      (r : E ⊎ (Unit {0}))
      → ((o : ℕ) → Preserves P (next o))
      → Preserves P (after_write env print chunk_size next offset bytes job r)
  after_write-Preserves next offset bytes job (inl e) k w h = h
  after_write-Preserves next offset bytes job (inr u) k w h =
      k (offset + length bytes) _ (safe.put _ w h)

  after_chunk-Preserves :
      (next : ℕ → Work W E (WorkError E ⊎ (Unit {0}))) (offset dst : ℕ) (job : Job) (r : E ⊎ Bytes)
      → ((o : ℕ) → Preserves P (next o))
      → Preserves P (after_chunk env print chunk_size next offset dst job r)
  after_chunk-Preserves next offset dst job (inl e) k w h = h
  after_chunk-Preserves next offset dst job (inr []) k w h = h
  after_chunk-Preserves next offset dst job (inr (b ∷ bs)) k w h =
      let p = env.write_at dst offset (b ∷ bs) w in
      after_write-Preserves next offset (b ∷ bs) job p.1 k p.0
        (safe.write_at dst offset (b ∷ bs) w h)

  copy_round-Preserves :
      (next : ℕ → Work W E (WorkError E ⊎ (Unit {0}))) (offset src dst : ℕ) (job : Job)
      (stop : Bool)
      → ((o : ℕ) → Preserves P (next o))
      → Preserves P (copy_round env print chunk_size next offset src dst job stop)
  copy_round-Preserves next offset src dst job true k w h = h
  copy_round-Preserves next offset src dst job false k w h =
      let p = env.read src chunk_size w in
      after_chunk-Preserves next offset dst job p.1 k p.0 (safe.read src chunk_size w h)

  copy_loop-Preserves :
      (parks fuel src dst : ℕ) (job : Job) (offset : ℕ)
      → Preserves P (copy_loop env print chunk_size parks fuel src dst job offset)
  unfolding copy_loop
  copy_loop-Preserves parks zero src dst job offset w h = tt
  copy_loop-Preserves parks (suc fuel) src dst job offset w h =
      bind-Preserves P (stopped env print chunk_size parks job) _ (stopped-Preserves parks job)
        (λ stop.
          copy_round-Preserves _ offset src dst job stop
            (λ o. copy_loop-Preserves parks fuel src dst job o))
        w h

  after_remote_chunk-Preserves :
      (next : ℕ → Bytes → Work W E Bytes) (offset : ℕ) (got bytes : Bytes)
      → ((o : ℕ) (bs : Bytes) → Preserves P (next o bs))
      → Preserves P (after_remote_chunk env print chunk_size next offset got bytes)
  after_remote_chunk-Preserves next offset got [] k w h = h
  after_remote_chunk-Preserves next offset got (b ∷ bs) k w h = k _ _ w h

  read_remote-Preserves :
      (fuel fd offset : ℕ) (got : Bytes)
      → Preserves P (read_remote env print chunk_size fuel fd offset got)
  unfolding read_remote
  read_remote-Preserves zero fd offset got w h = tt
  read_remote-Preserves (suc fuel) fd offset got w h =
      bind-Preserves P (call proxy_error (env.read_at fd offset (min chunk_size (2 ^ 32 - 1)))) _
        (call-Preserves P proxy_error _ (safe.read_at fd offset (min chunk_size (2 ^ 32 - 1))))
        (λ bytes.
          after_remote_chunk-Preserves (read_remote env print chunk_size fuel fd) offset got bytes
            (λ o bs. read_remote-Preserves fuel fd o bs))
        w h

  hash_remote-Preserves :
      (fuel : ℕ) (path : String) → Preserves P (hash_remote env print chunk_size fuel path)
  unfolding hash_remote
  hash_remote-Preserves fuel path =
      bind-Preserves P (call proxy_error (env.open_remote path read_only)) _
        (call-Preserves P proxy_error _ (safe.open_remote path read_only))
        (λ fd.
          bind-Preserves P (read_remote env print chunk_size fuel fd 0 []) _
            (read_remote-Preserves fuel fd 0 [])
            (λ bytes.
              bind-Preserves P (call close_remote (env.close fd)) (λ u. pure (env.sha256 bytes))
                (call-Preserves P close_remote _ (safe.close fd)) (λ u w h. h)))

  map_err-EndsIn :
      {A : Type 0} (f : WorkError E → WorkError E) (o : Option (W × (WorkError E ⊎ A)))
      → EndsIn P o
      → EndsIn P (remap_option f o)
  map_err-EndsIn f none h = tt
  map_err-EndsIn f (some (w, inl e)) h = h
  map_err-EndsIn f (some (w, inr a)) h = h

  verify_paths-Preserves :
      (fuel : ℕ) (local remote : String)
      → Preserves P (verify_paths env print chunk_size fuel local remote)
  unfolding verify_paths
  verify_paths-Preserves fuel local remote =
      bind-Preserves P (call hashing_local (env.sha256_file local)) _
        (call-Preserves P hashing_local _ (safe.sha256_file local))
        (λ l.
          bind-Preserves P (map_err hashing_remote (hash_remote env print chunk_size fuel remote)) _
            (λ w h. map_err-EndsIn hashing_remote _ (hash_remote-Preserves fuel remote w h))
            (λ r.
              if_both (λ (m : Work W E (Unit {0})). Preserves P m) (l == r) {x = pure tt}
                {y = fail (checksum_mismatch l r)} (λ w h. h) (λ w h. h)))

  verified-Preserves :
      (fuel : ℕ) (job : Job) (dest : String) (v : VerifyMode)
      → Preserves P (verified env print chunk_size fuel job dest v)
  verified-Preserves fuel job dest on w h = verify_paths-Preserves fuel job.source dest w h
  verified-Preserves fuel job dest off w h = h
  verified-Preserves fuel job dest on_error w h = h

  end_copy-Preserves :
      (fuel : ℕ) (job : Job) (dest : String) (dst : ℕ) (r : WorkError E ⊎ (Unit {0}))
      → Preserves P (end_copy env print chunk_size fuel job dest false dst r)
  end_copy-Preserves fuel job dest dst (inl e) w h = safe.close dst w h
  end_copy-Preserves fuel job dest dst (inr u) w h =
      bind-Preserves P (call close_destination (env.close dst)) _
        (call-Preserves P close_destination _ (safe.close dst))
        (λ u. verified-Preserves fuel job dest job.options.verify) w h

  on_cells-Preserves : (f : Heap → Heap) → Preserves P (on_cells env print chunk_size f)
  on_cells-Preserves f w h = safe.put (f (env.cells w)) w h

  seek_to-Preserves : (src n : ℕ) (job : Job) → Preserves P (seek_to env print chunk_size src n job)
  seek_to-Preserves src zero job w h = h
  seek_to-Preserves src (suc n) job w h =
      bind-Preserves P (call seek_source (env.seek src (suc n)))
        (λ u. on_cells env print chunk_size (add_bytes job (suc n)))
        (call-Preserves P seek_source _ (safe.seek src (suc n)))
        (λ u. on_cells-Preserves (add_bytes job (suc n))) w h

  transfer-Preserves :
      (parks fuel : ℕ) (job : Job) (dest : String) (offset : ℕ) (flags : OpenFlags)
      → Preserves P (transfer env print chunk_size parks fuel job dest offset false flags)
  transfer-Preserves parks fuel job dest offset flags =
      bind-Preserves P (call plain (env.open_source job.source)) _
        (call-Preserves P plain _ (safe.open_source job.source))
        (λ src.
          bind-Preserves P (seek_to env print chunk_size src offset job) _
            (seek_to-Preserves src offset job)
            (λ u.
              bind-Preserves P (call proxy_error (env.open_remote dest flags)) _
                (call-Preserves P proxy_error _ (safe.open_remote dest flags))
                (λ dst.
                  bind-Preserves P (copy_loop env print chunk_size parks fuel src dst job offset) _
                    (copy_loop-Preserves parks fuel src dst job offset)
                    (λ r. end_copy-Preserves fuel job dest dst r))))

  onto-Preserves :
      (parks fuel : ℕ) (job : Job) (source_len size : ℕ) (mode : OverwriteMode)
      → mode ≢ rename
      → Preserves P (onto env print chunk_size parks fuel job source_len size mode)
  onto-Preserves parks fuel job source_len size skip_existing ne w h =
      safe.put _ _ (safe.put _ _ (safe.put _ w h))
  onto-Preserves parks fuel job source_len size resume_partial ne w h =
      if_both (λ m. Preserves P m) (ltb size source_len)
        (transfer-Preserves parks fuel job job.destination size create_write)
        (transfer-Preserves parks fuel job job.destination 0 create_write_trunc) w h
  onto-Preserves parks fuel job source_len size rename ne w h = absurd (ne refl)
  onto-Preserves parks fuel job source_len size always ne w h =
      transfer-Preserves parks fuel job job.destination 0 create_write_trunc w h

  -- A push onto a destination that is there, in any mode but Rename, makes no call of `unlink`,
  -- however it ends, cancelled or failed: what no other call can break still holds.
  pub push-Preserves :
      (parks fuel : ℕ) (job : Job) (w : W)
      → job.options.overwrite ≢ rename
      → (size : ℕ) × ((env.stat job.destination (env.metadata job.source w).0).1 ≡ inr size)
      → P w
      → EndsIn P (push env print chunk_size parks fuel job w)
  unfolding push
  push-Preserves parks fuel job w ne (size, there) h =
      mapped-EndsIn P stat_source
        (λ source_len.
          attempt (env.stat job.destination)
          >>= push_onto env print chunk_size parks fuel job source_len)
        (env.metadata job.source w)
        (λ source_len. rw there (
          onto-Preserves parks fuel job source_len size job.options.overwrite ne
            (env.stat job.destination (env.metadata job.source w).0).0
            (safe.stat job.destination (env.metadata job.source w).0
              (safe.metadata job.source w h))))
        (safe.metadata job.source w h)
