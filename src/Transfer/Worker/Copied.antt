-- ===== src/Transfer/Worker/Copied.antt =====
-- The copying loop of a push carries the whole source over.
use native.Mathlib.Nat.{zero-add, suc-add}
use adbshare.Base.{
  take-nil, ℕ, zero, suc, ◌+◌, ◌-◌, ◌≤◌, ◌<◌, ◌≡◌, refl, ap, sym, ◌∙◌, String, false, ◌⊎◌, inr,
  Option, some, [], ◌∷◌, ◌++◌, length, take, drop, length-drop, length-take, take-length, arith,
  ℕ_eq, eq_self,
}
use adbshare.Base.Bytes.{Bytes}
use adbshare.Transfer.Job.{Job, Cell, Heap, is_cancelled, is_paused, state, running, add_bytes}
use adbshare.Transfer.Worker.{Env, WorkError, Work}
use adbshare.Transfer.Worker.Run.{copy_loop, after_chunk, stopped, wait_while_paused}

take-length-take : (a : ℕ) (xs : Bytes) → take a xs ≡ take (length (take a xs)) xs
take-length-take zero xs = refl
take-length-take (suc a) [] = refl
take-length-take (suc a) (x ∷ xs) = ap (◌∷◌ x) (take-length-take a xs)

take-further :
    (n a : ℕ) (xs : Bytes)
    → take n xs ++ take a (drop n xs) ≡ take (n + length (take a (drop n xs))) xs
take-further zero a xs = rw zero-add (take-length-take a xs)
take-further (suc n) a [] = rw (take-nil a) (sym (take-nil (suc n + 0)))
take-further (suc n) a (x ∷ xs) = rw suc-add (ap (◌∷◌ x) (take-further n a xs))

-- What is documented of the calls in the loop, while no one cancels or pauses the job: a read of the
-- source takes the bytes at its position, some as long as there are any and at most a chunk; a write
-- at the end of the destination appends; and neither changes the other's file or the job's flags.
pub record Serves {W E : Type 0} (env : Env W E) (chunk_size : ℕ) (job : Job) (src dst : ℕ)
    (source : Bytes) : Type 0 where
  pub position : W → ℕ
  pub file : W → Bytes
  pub amount : W → ℕ
  pub read_result :
      (w : W) → (env.read src chunk_size w).1 ≡ inr (take (amount w) (drop (position w) source))
  pub read_some : (w : W) → position w < length source → 0 < amount w
  pub read_chunk : (w : W) → amount w ≤ chunk_size
  pub read_moves :
      (w : W)
      → position w ≤ length source
      → position (env.read src chunk_size w).0
        ≡ position w + length (take (amount w) (drop (position w) source))
  pub read_file : (w : W) → file (env.read src chunk_size w).0 ≡ file w
  pub read_cells : (w : W) → env.cells (env.read src chunk_size w).0 job.cell ≡ env.cells w job.cell
  pub write_result : (o : ℕ) (bs : Bytes) (w : W) → (env.write_at dst o bs w).1 ≡ inr tt
  pub write_file :
      (bs : Bytes) (w : W) → file (env.write_at dst (length (file w)) bs w).0 ≡ file w ++ bs
  pub write_position :
      (o : ℕ) (bs : Bytes) (w : W) → position (env.write_at dst o bs w).0 ≡ position w
  pub write_cells :
      (o : ℕ) (bs : Bytes) (w : W)
      → env.cells (env.write_at dst o bs w).0 job.cell ≡ env.cells w job.cell
  pub put_position : (h : Heap) (w : W) → position (env.put_cells h w) ≡ position w
  pub put_file : (h : Heap) (w : W) → file (env.put_cells h w) ≡ file w
  pub put_cells : (h : Heap) (w : W) → env.cells (env.put_cells h w) ≡ h

module _ {W E : Type 0} (env : Env W E) (print : WorkError E → String) (chunk_size : ℕ) (job : Job)
    (src dst : ℕ) (source : Bytes) (serves : Serves env chunk_size job src dst source) where
  -- The job is Running, and no one has cancelled or paused it.
  pub record IsCalm (w : W) : Type 0 where
    pub not_cancelled : is_cancelled job (env.cells w) ≡ false
    pub not_paused : is_paused job (env.cells w) ≡ false
    pub working : state job (env.cells w) ≡ running

  -- The loop stands at an offset: the destination has what was read of the source.
  pub record IsAt (offset : ℕ) (w : W) : Type 0 where
    pub calm : IsCalm w
    pub at_position : serves.position w ≡ offset
    pub copied : serves.file w ≡ take offset source
    pub inside : offset ≤ length source

  stopped-calm :
      (parks : ℕ) (w : W)
      → IsCalm w
      → stopped env print chunk_size (suc parks) job w ≡ some (w, inr false)
  unfolding wait_while_paused
  stopped-calm parks w c = ground arith

  pub IsCalm-moved :
      (w w' : W) → env.cells w' job.cell ≡ env.cells w job.cell → IsCalm w → IsCalm w'
  IsCalm-moved w w' e c = record {
    not_cancelled = ap (λ (x : Cell). x.cancel_flag) e ∙ c.not_cancelled;
    not_paused = ap (λ (x : Cell). x.paused_flag) e ∙ c.not_paused;
    working = ap (λ (x : Cell). x.state) e ∙ c.working;
  }

  abbrev pub Copies : Option (W × (WorkError E ⊎ (WorkError E ⊎ (Unit {0})))) → Type 0
  Copies o = (w' : W) × (o ≡ some (w', inr (inr tt))) × (serves.file w' ≡ source) × IsCalm w'

  -- The world after a read, a write and the count of the bytes.
  abbrev after_read : W → W
  after_read w = (env.read src chunk_size w).0

  abbrev after_round : ℕ → Bytes → W → W
  after_round offset bs w =
      let w' = (env.write_at dst offset bs w).0 in
      env.put_cells (add_bytes job (length bs) (env.cells w')) w'

  pub add_bytes-IsCalm :
      (n : ℕ) (w : W) → IsCalm w → IsCalm (env.put_cells (add_bytes job n (env.cells w)) w)
  unfolding add_bytes
  add_bytes-IsCalm n w c =
      let put = serves.put_cells (add_bytes job n (env.cells w)) w in
      record {
        not_cancelled =
            ap (λ (h : Heap). (h job.cell).cancel_flag) put ∙ ground (arith, eq_self job.cell);
        not_paused =
            ap (λ (h : Heap). (h job.cell).paused_flag) put ∙ ground (arith, eq_self job.cell);
        working = ap (λ (h : Heap). state job h) put ∙ ground (arith, eq_self job.cell);
      }

  round-IsAt :
      (offset : ℕ) (bs : Bytes) (w : W)
      → IsAt offset w
      → bs ≡ take (serves.amount w) (drop offset source)
      → IsAt (offset + length bs) (after_round offset bs (after_read w))
  round-IsAt offset bs w at e =
      let w' = after_read w in
      let w'' = (env.write_at dst offset bs w').0 in
      let h = add_bytes job (length bs) (env.cells w'') in
      let had : serves.file w' ≡ take offset source = serves.read_file w ∙ at.copied in
      let here : offset ≡ length (serves.file w') =
        rw had (omega (arith, length-take offset source, at.inside)) in
      record {
        calm = add_bytes-IsCalm (length bs) w'' (
            IsCalm-moved w' w'' (serves.write_cells offset bs w')
              (IsCalm-moved w w' (serves.read_cells w) at.calm));
        at_position =
            serves.put_position h w''
            ∙ serves.write_position offset bs w'
            ∙ serves.read_moves w (omega (arith, at.inside, at.at_position))
            ∙ rw (at.at_position, e) refl;
        copied =
            serves.put_file h w''
            ∙ ap (λ o. serves.file (env.write_at dst o bs w').0) here
            ∙ serves.write_file bs w'
            ∙ rw (had, e) (take-further offset (serves.amount w) source);
        inside = omega (
          arith,
          ap length e,
          length-take (serves.amount w) (drop offset source),
          length-drop offset source,
          at.inside,
        );
      }

  -- One chunk, and the loop that goes on.
  chunk-Copies :
      (next : ℕ → Work W E (WorkError E ⊎ (Unit {0}))) (offset : ℕ) (bs : Bytes) (w : W)
      → IsAt offset w
      → bs ≡ take (serves.amount w) (drop offset source)
      → ((o : ℕ) (w' : W) → IsAt o w' → offset < o → Copies (next o w'))
      → Copies (after_chunk env print chunk_size next offset dst job (inr bs) (after_read w))
  chunk-Copies next offset [] w at e k = (
    after_read w,
    refl,
    serves.read_file w
        ∙ at.copied
        ∙ ap (λ n. take n source)
            (grind (
              arith,
              ap length e,
              length-take (serves.amount w) (drop offset source),
              length-drop offset source,
              at.inside,
              at.at_position,
              serves.read_some w,
            ))
        ∙ take-length source,
    IsCalm-moved w (after_read w) (serves.read_cells w) at.calm,
  )
  chunk-Copies next offset (b ∷ bs) w at e k =
      rw (serves.write_result offset (b ∷ bs) (after_read w)) (
        k (offset + length (b ∷ bs)) (after_round offset (b ∷ bs) (after_read w))
          (round-IsAt offset (b ∷ bs) w at e) (omega arith))

  pub copy_loop-source :
      (parks fuel offset : ℕ) (w : W)
      → IsAt offset w
      → length source - offset < fuel
      → Copies (copy_loop env print chunk_size (suc parks) fuel src dst job offset w)
  unfolding copy_loop
  copy_loop-source parks zero offset w at enough = absurd (omega arith)
  copy_loop-source parks (suc fuel) offset w at enough =
      rw (stopped-calm parks w at.calm, serves.read_result w, at.at_position)
        (chunk-Copies (λ o. copy_loop env print chunk_size (suc parks) fuel src dst job o) offset _
          w at refl
          (λ o w' at' more. copy_loop-source parks fuel o w' at' (omega (arith, more, at'.inside))))
