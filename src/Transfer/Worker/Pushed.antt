-- ===== src/Transfer/Worker/Pushed.antt =====
-- A push that no one stops makes the destination the source.
use mathlib.Core.Path.{subst}
use adbshare.Base.{
  ℕ, zero, suc, ◌≤◌, ◌<◌, ◌≡◌, ◌≢◌, refl, ap, sym, ◌∙◌, ltb, String, Bool, true, false, ◌⊎◌, inl,
  inr, Option, some, [], length, take, arith, Bool-cases,
}
use adbshare.Base.Bytes.{Bytes}
use adbshare.Transfer.Job.{
  Heap, Job, OverwriteMode, always, resume_partial, VerifyMode, off, on, on_error, add_bytes,
}
use adbshare.Transfer.Worker.{
  Env, OpenFlags, create_write, create_write_trunc, WorkError, plain, seek_source, proxy_error,
  close_destination, stat_source, Work, ◌>>=◌, call, attempt, bind_result, mapped,
}
use adbshare.Transfer.Worker.Run.{
  push, transfer, onto, push_onto, copy_loop, end_copy, verified, seek_to, on_cells,
}
use adbshare.Transfer.Worker.Copied.{
  Serves, IsCalm, IsAt, copy_loop-source, add_bytes-IsCalm, IsCalm-moved,
}

-- What is documented of the other calls of a push, for a source and a destination: `is_there` says
-- whether the destination is there, and `file` is then its content.
pub record Delivers {W E : Type 0} (env : Env W E) (chunk_size : ℕ) (job : Job) (src dst : ℕ)
    (source : Bytes) : Type 0 where
  pub serves : Serves env chunk_size job src dst source
  pub is_there : W → Bool
  pub metadata_result : (w : W) → (env.metadata job.source w).1 ≡ inr (length source)
  pub metadata_file : (w : W) → serves.file (env.metadata job.source w).0 ≡ serves.file w
  pub metadata_there : (w : W) → is_there (env.metadata job.source w).0 ≡ is_there w
  pub metadata_cells :
      (w : W) → env.cells (env.metadata job.source w).0 job.cell ≡ env.cells w job.cell
  pub stat_there :
      (w : W) → is_there w ≡ true → (env.stat job.destination w).1 ≡ inr (length (serves.file w))
  pub stat_absent :
      (w : W) → is_there w ≡ false → (e : E) × ((env.stat job.destination w).1 ≡ inl e)
  pub stat_file : (w : W) → serves.file (env.stat job.destination w).0 ≡ serves.file w
  pub stat_cells :
      (w : W) → env.cells (env.stat job.destination w).0 job.cell ≡ env.cells w job.cell
  pub open_source_result : (w : W) → (env.open_source job.source w).1 ≡ inr src
  pub open_source_position : (w : W) → serves.position (env.open_source job.source w).0 ≡ 0
  pub open_source_file : (w : W) → serves.file (env.open_source job.source w).0 ≡ serves.file w
  pub open_source_cells :
      (w : W) → env.cells (env.open_source job.source w).0 job.cell ≡ env.cells w job.cell
  pub seek_result : (n : ℕ) (w : W) → (env.seek src n w).1 ≡ inr tt
  pub seek_position : (n : ℕ) (w : W) → serves.position (env.seek src n w).0 ≡ n
  pub seek_file : (n : ℕ) (w : W) → serves.file (env.seek src n w).0 ≡ serves.file w
  pub seek_cells : (n : ℕ) (w : W) → env.cells (env.seek src n w).0 job.cell ≡ env.cells w job.cell
  pub open_result : (f : OpenFlags) (w : W) → (env.open_remote job.destination f w).1 ≡ inr dst
  pub open_trunc_file :
      (w : W) → serves.file (env.open_remote job.destination create_write_trunc w).0 ≡ []
  pub open_write_file :
      (w : W) → serves.file (env.open_remote job.destination create_write w).0 ≡ serves.file w
  pub open_position :
      (f : OpenFlags) (w : W)
      → serves.position (env.open_remote job.destination f w).0 ≡ serves.position w
  pub open_cells :
      (f : OpenFlags) (w : W)
      → env.cells (env.open_remote job.destination f w).0 job.cell ≡ env.cells w job.cell
  pub close_result : (w : W) → (env.close dst w).1 ≡ inr tt
  pub close_cells : (w : W) → env.cells (env.close dst w).0 job.cell ≡ env.cells w job.cell
  pub put_there : (h : Heap) (w : W) → is_there (env.put_cells h w) ≡ is_there w
  pub close_file : (w : W) → serves.file (env.close dst w).0 ≡ serves.file w

module _ {W E : Type 0} (env : Env W E) (print : WorkError E → String) (chunk_size : ℕ) (job : Job)
    (src dst : ℕ) (source : Bytes) (d : Delivers env chunk_size job src dst source)
    (unverified : job.options.verify ≢ on) where
  abbrev IsCalmNow : W → Type 0
  IsCalmNow = IsCalm env print chunk_size job src dst source d.serves

  abbrev IsPushed : Option (W × (WorkError E ⊎ (Unit {0}))) → Type 0
  IsPushed o = (w' : W) × (o ≡ some (w', inr tt)) × (d.serves.file w' ≡ source) × IsCalmNow w'

  -- A call whose result is known.
  call_known :
      {A B : Type 0} (g : E → WorkError E) (f : A → Work W E B) (p : W × (E ⊎ A)) (a : A)
      → p.1 ≡ inr a
      → bind_result f (mapped g p) ≡ f a p.0
  call_known g f (w, inl e) a q = cc
  call_known g f (w, inr b) a q = ap (λ x. f x w) cc

  bind-IsPushed :
      {A : Type 0} (g : E → WorkError E) (f : A → Work W E (Unit {0})) (m : W → W × (E ⊎ A)) (w : W)
      (a : A)
      → (m w).1 ≡ inr a
      → IsPushed (f a (m w).0)
      → IsPushed ((call g m >>= f) w)
  bind-IsPushed g f m w a q h = rw (call_known g f (m w) a q) h

  verified_off :
      (fuel : ℕ) (dest : String) (v : VerifyMode) (w : W)
      → v ≢ on
      → verified env print chunk_size fuel job dest v w ≡ some (w, inr tt)
  verified_off fuel dest on w ne = absurd (ne refl)
  verified_off fuel dest off w ne = refl
  verified_off fuel dest on_error w ne = refl

  end_copy-IsPushed :
      (fuel : ℕ) (created : Bool) (w : W)
      → d.serves.file w ≡ source
      → IsCalmNow w
      → IsPushed (end_copy env print chunk_size fuel job job.destination created dst (inr tt) w)
  end_copy-IsPushed fuel created w same calm =
      let w' = (env.close dst w).0 in
      bind-IsPushed close_destination
        (λ u. verified env print chunk_size fuel job job.destination job.options.verify)
        (env.close dst) w tt (d.close_result w)
        (
          w',
          verified_off fuel job.destination job.options.verify w' unverified,
          d.close_file w ∙ same,
          IsCalm-moved env print chunk_size job src dst source d.serves w w' (d.close_cells w) calm,
        )

  -- The loop and what follows it.
  copied-IsPushed :
      (parks fuel offset : ℕ) (created : Bool) (w : W)
      → IsAt env print chunk_size job src dst source d.serves offset w
      → length source < fuel
      → IsPushed (
          (copy_loop env print chunk_size (suc parks) fuel src dst job offset
              >>= end_copy env print chunk_size fuel job job.destination created dst)
            w)
  copied-IsPushed parks fuel offset created w at enough =
      let (w', e, same, calm) =
        copy_loop-source env print chunk_size job src dst source d.serves parks fuel offset w at
          (omega arith) in
      rw e (end_copy-IsPushed fuel created w' same calm)

  -- Opened with the source at the offset, and the destination as far as the offset.
  opened-IsPushed :
      (parks fuel offset : ℕ) (created : Bool) (flags : OpenFlags) (w : W)
      → IsCalmNow w
      → d.serves.position w ≡ offset
      → d.serves.file (env.open_remote job.destination flags w).0 ≡ take offset source
      → offset ≤ length source
      → length source < fuel
      → IsPushed (
          (call proxy_error (env.open_remote job.destination flags) >>= (λ fd.
              copy_loop env print chunk_size (suc parks) fuel src fd job offset
              >>= end_copy env print chunk_size fuel job job.destination created fd))
            w)
  opened-IsPushed parks fuel offset created flags w calm at same inside enough =
      let w' = (env.open_remote job.destination flags w).0 in
      bind-IsPushed proxy_error
        (λ fd.
          copy_loop env print chunk_size (suc parks) fuel src fd job offset
          >>= end_copy env print chunk_size fuel job job.destination created fd)
        (env.open_remote job.destination flags) w dst (d.open_result flags w)
        (copied-IsPushed parks fuel offset created w'
          (record {
            calm =
                IsCalm-moved env print chunk_size job src dst source d.serves w w'
                  (d.open_cells flags w) calm;
            at_position = d.open_position flags w ∙ at;
            copied = same;
            inside = inside;
          })
          enough)

  seek_to-known :
      (n : ℕ) (w : W)
      → d.serves.position w ≡ 0
      → IsCalmNow w
      → (w' : W) × (seek_to env print chunk_size src n job w ≡ some (w', inr tt))
        × (d.serves.position w' ≡ n)
        × (d.serves.file w' ≡ d.serves.file w)
        × IsCalmNow w'
  seek_to-known zero w at calm = (w, refl, at, refl, calm)
  seek_to-known (suc n) w at calm =
      let w' = (env.seek src (suc n) w).0 in
      let h = add_bytes job (suc n) (env.cells w') in
      (
        env.put_cells h w',
        call_known seek_source (λ u. on_cells env print chunk_size (add_bytes job (suc n)))
            (env.seek src (suc n) w) tt (d.seek_result (suc n) w),
        d.serves.put_position h w' ∙ d.seek_position (suc n) w,
        d.serves.put_file h w' ∙ d.seek_file (suc n) w,
        add_bytes-IsCalm env print chunk_size job src dst source d.serves (suc n) w' (
            IsCalm-moved env print chunk_size job src dst source d.serves w w'
              (d.seek_cells (suc n) w) calm),
      )

  transfer-IsPushed :
      (parks fuel offset : ℕ) (created : Bool) (flags : OpenFlags) (w : W)
      → IsCalmNow w
      → ((w' : W)
          → d.serves.file w' ≡ d.serves.file w
          → d.serves.file (env.open_remote job.destination flags w').0 ≡ take offset source)
      → offset ≤ length source
      → length source < fuel
      → IsPushed (
          transfer env print chunk_size (suc parks) fuel job job.destination offset created flags w)
  transfer-IsPushed parks fuel offset created flags w calm opens inside enough =
      let w1 = (env.open_source job.source w).0 in
      let (w2, e, at, same, calm2) = seek_to-known offset w1 (d.open_source_position w) (
        IsCalm-moved env print chunk_size job src dst source d.serves w w1 (d.open_source_cells w)
          calm) in
      bind-IsPushed plain
        (λ fd. seek_to env print chunk_size fd offset job >>= (λ u.
          call proxy_error (env.open_remote job.destination flags) >>= (λ to.
            copy_loop env print chunk_size (suc parks) fuel fd to job offset
            >>= end_copy env print chunk_size fuel job job.destination created to)))
        (env.open_source job.source) w src (d.open_source_result w)
        (rw e (
          opened-IsPushed parks fuel offset created flags w2 calm2 at
            (opens w2 (same ∙ d.open_source_file w)) inside enough))

  -- What the overwrite mode asks of the destination: that it is not there, that it is rewritten, or
  -- that it is resumed where the source goes on.
  abbrev pub MayPush : OverwriteMode → W → Type 0
  MayPush mode w =
      (d.is_there w ≡ false)
      ⊎ ((mode ≡ always)
          ⊎ ((mode ≡ resume_partial) × (d.serves.file w ≡ take (length (d.serves.file w)) source)))

  rewrite-IsPushed :
      (parks fuel : ℕ) (created : Bool) (w : W)
      → IsCalmNow w
      → length source < fuel
      → IsPushed (
          transfer env print chunk_size
            (suc parks)
            fuel
            job
            job.destination
            0
            created
            create_write_trunc
            w)
  rewrite-IsPushed parks fuel created w calm enough =
      transfer-IsPushed parks fuel 0 created create_write_trunc w calm
        (λ w' same. d.open_trunc_file w') (omega arith) enough

  resume-IsPushed :
      (parks fuel size : ℕ) (w : W)
      → IsCalmNow w
      → d.serves.file w ≡ take size source
      → length source < fuel
      → IsPushed
          (onto env print chunk_size (suc parks) fuel job (length source) size resume_partial w)
  resume-IsPushed parks fuel size w calm begun enough =
      elim (Bool-cases (ltb size (length source))) [
        | inl t ↦ rw t (
            transfer-IsPushed parks fuel size false create_write w calm
              (λ w' same. d.open_write_file w' ∙ same ∙ begun) (ground arith) enough)
        | inr t ↦ rw t (rewrite-IsPushed parks fuel false w calm enough)
      ]

  stat_calm : (w : W) → IsCalmNow w → IsCalmNow (env.stat job.destination w).0
  stat_calm w calm =
      IsCalm-moved env print chunk_size job src dst source d.serves w _ (d.stat_cells w) calm

  in_mode :
      (parks fuel size : ℕ) (mode : OverwriteMode) (w : W)
      → mode ≡ job.options.overwrite
      → IsPushed (
          onto env print chunk_size
            (suc parks)
            fuel
            job
            (length source)
            size
            mode
            (env.stat job.destination w).0)
      → IsPushed (
          onto env print chunk_size
            (suc parks)
            fuel
            job
            (length source)
            size
            job.options.overwrite
            (env.stat job.destination w).0)
  in_mode parks fuel size mode w m h =
      subst
        (λ x. IsPushed (
          onto env print chunk_size (suc parks) fuel job (length source) size x
            (env.stat job.destination w).0))
        m h

  push_onto-IsPushed :
      (parks fuel : ℕ) (mode : OverwriteMode) (w : W) (there : Bool)
      → mode ≡ job.options.overwrite
      → d.is_there w ≡ there
      → IsCalmNow w
      → MayPush mode w
      → length source < fuel
      → IsPushed (
          push_onto env print chunk_size
            (suc parks)
            fuel
            job
            (length source)
            (env.stat job.destination w).1
            (env.stat job.destination w).0)
  push_onto-IsPushed parks fuel mode w false m q calm may enough =
      let (e, r) = d.stat_absent w q in
      rw r
        (rewrite-IsPushed parks fuel true (env.stat job.destination w).0 (stat_calm w calm) enough)
  push_onto-IsPushed parks fuel mode w true m q calm (inl gone) enough = absurd (ground arith)
  push_onto-IsPushed parks fuel mode w true m q calm (inr (inl a)) enough = rw (d.stat_there w q) (
      in_mode parks fuel (length (d.serves.file w)) always w (sym a ∙ m) (
        rewrite-IsPushed parks fuel false (env.stat job.destination w).0 (stat_calm w calm) enough))
  push_onto-IsPushed parks fuel mode w true m q calm (inr (inr (a, begun))) enough =
      rw (d.stat_there w q) (
        in_mode parks fuel (length (d.serves.file w)) resume_partial w (sym a ∙ m) (
          resume-IsPushed parks fuel (length (d.serves.file w)) (env.stat job.destination w).0
            (stat_calm w calm) (d.stat_file w ∙ begun) enough))

  -- The push of a Running job that no one cancels or pauses.
  pub push-IsPushed :
      (parks fuel : ℕ) (w : W)
      → IsCalm env print chunk_size job src dst source d.serves w
      → MayPush job.options.overwrite w
      → length source < fuel
      → (w' : W) × (push env print chunk_size (suc parks) fuel job w ≡ some (w', inr tt))
        × (d.serves.file w' ≡ source)
        × IsCalmNow w'
  unfolding push
  push-IsPushed parks fuel w calm may enough =
      let w1 = (env.metadata job.source w).0 in
      let same : d.serves.file w1 ≡ d.serves.file w = d.metadata_file w in
      let there : d.is_there w1 ≡ d.is_there w = d.metadata_there w in
      bind-IsPushed stat_source
        (λ n.
          attempt (env.stat job.destination)
          >>= push_onto env print chunk_size (suc parks) fuel job n)
        (env.metadata job.source) w (length source) (d.metadata_result w)
        (push_onto-IsPushed parks fuel job.options.overwrite w1 (d.is_there w1) refl refl
          (IsCalm-moved env print chunk_size job src dst source d.serves w w1 (d.metadata_cells w)
            calm)
          (rw (there, same) may) enough)
