-- ===== src/Transfer/Worker/Examples.antt =====
-- A host and a device with one file each, and the properties at them.
use adbshare.Base.{
  ℕ, ◌+◌, ◌≡◌, refl, String, Bool, true, false, inl, inr, none, some, [], ◌∷◌, ◌++◌, length, take,
  drop, if◌then◌else◌, arith,
}
use adbshare.Base.Bytes.{Bytes}
use adbshare.Transfer.Job.{
  Job, push as to_phone, off, always, resume_partial, OverwriteMode, Heap, fresh_cell, paused,
  completed, state, add_bytes,
}
use adbshare.Transfer.Worker.{Env, OpenFlags, create_write_trunc, WorkError}
use adbshare.Transfer.Worker.Run.{push, run_push, copy_loop, wait_while_paused, settle}
use adbshare.Transfer.Worker.Copied.{Serves}
use adbshare.Transfer.Worker.Pushed.{Delivers}
use adbshare.Transfer.Worker.Ran.{run_push-completed}
use adbshare.Transfer.Worker.Untouched.{Withstands, EndsIn, push-Preserves}

-- The source is five bytes, read from `position` on; `file` is the destination, if it is there.
record World : Type 0 where
  position : ℕ
  there : Bool
  file : Bytes
  heap : Heap

abbrev source : Bytes
source = 1 ∷ 2 ∷ 3 ∷ 4 ∷ 5 ∷ []

abbrev file_after : OpenFlags → Bytes → Bytes
file_after create_write_trunc bs = []
file_after _ bs = bs

abbrev env : Env World (Unit {0})
env = record {
  cells = λ w. w.heap;
  put_cells = λ h w. record w { heap = h };
  now = λ w. 0;
  sleep = λ w. w;
  metadata = λ p w. (w, inr (length source));
  open_source = λ p w. (record w { position = 0 }, inr 7);
  seek = λ fd n w. (record w { position = n }, inr tt);
  read = λ fd n w.
      let bs = take n (drop w.position source) in
      (record w { position = w.position + length bs }, inr bs);
  sha256_file = λ p w. (w, inr "");
  stat = λ p w. (w, if w.there then inr (length w.file) else inl tt);
  open_remote = λ p f w. (record w { file = file_after f w.file; there = true }, inr 9);
  write_at = λ fd o bs w. (record w { file = w.file ++ bs }, inr tt);
  read_at = λ fd o n w. (w, inr (take n (drop o w.file)));
  close = λ fd w. (w, inr tt);
  unlink = λ p w. (record w { there = false }, inr tt);
  parent = λ p. "/sdcard";
  file_stem = λ p. some "a";
  extension = λ p. some "txt";
  join = λ a b. b;
  decimal = λ n. "1";
  sha256 = λ bs. "";
}

abbrev job_in : OverwriteMode → Job
job_in mode = record {
  id = 1;
  direction = to_phone;
  source = "/home/me/a.txt";
  destination = "/sdcard/a.txt";
  options = record { chunk_size = 2; verify = off; overwrite = mode };
  device = none;
  cell = 0;
}

abbrev half_sent : World
half_sent = record { position = 0; there = true; file = 1 ∷ 2 ∷ []; heap = λ a. fresh_cell }

abbrev named : WorkError (Unit {0}) → String
named e = "error"

resumes :
    (w : World) × (push env named 2 1 9 (job_in resume_partial) half_sent ≡ some (w, inr tt))
    × (w.file ≡ source)
unfolding push copy_loop wait_while_paused add_bytes
resumes = (_, refl, refl)

abbrev serves : (mode : OverwriteMode) → Serves env 2 (job_in mode) 7 9 source
serves mode = record {
  position = λ w. w.position;
  file = λ w. w.file;
  amount = λ w. 2;
  read_result = λ w. refl;
  read_some = λ w h. omega arith;
  read_chunk = λ w. omega arith;
  read_moves = λ w h. refl;
  read_file = λ w. refl;
  read_cells = λ w. refl;
  write_result = λ o bs w. refl;
  write_file = λ bs w. refl;
  write_position = λ o bs w. refl;
  write_cells = λ o bs w. refl;
  put_position = λ h w. refl;
  put_file = λ h w. refl;
  put_cells = λ h w. refl;
}

abbrev delivers : (mode : OverwriteMode) → Delivers env 2 (job_in mode) 7 9 source
delivers mode = record {
  serves = serves mode;
  is_there = λ w. w.there;
  metadata_result = λ w. refl;
  metadata_file = λ w. refl;
  metadata_there = λ w. refl;
  metadata_cells = λ w. refl;
  stat_there = λ w h. ground arith;
  stat_absent = λ w h. (tt, ground arith);
  stat_file = λ w. refl;
  stat_cells = λ w. refl;
  open_source_result = λ w. refl;
  open_source_position = λ w. refl;
  open_source_file = λ w. refl;
  open_source_cells = λ w. refl;
  seek_result = λ n w. refl;
  seek_position = λ n w. refl;
  seek_file = λ n w. refl;
  seek_cells = λ n w. refl;
  open_result = λ f w. refl;
  open_trunc_file = λ w. refl;
  open_write_file = λ w. refl;
  open_position = λ f w. refl;
  open_cells = λ f w. refl;
  close_result = λ w. refl;
  close_file = λ w. refl;
  close_cells = λ w. refl;
  put_there = λ h w. refl;
}

run_push-completed_example :
    (w : World) × (run_push env named 2 1 9 (job_in resume_partial) half_sent ≡ some (w, inr tt))
    × ((delivers resume_partial).serves.file w ≡ source)
    × (state (job_in resume_partial) w.heap ≡ completed)
run_push-completed_example =
    run_push-completed env named 2 (job_in resume_partial) 7 9 source (delivers resume_partial)
      (λ p. ground arith) 0 9 half_sent
      (record { not_cancelled = refl; not_paused = refl; waits = refl }) (inr (inr (refl, refl)))
      (omega arith)

abbrev IsThere : World → Type 0
IsThere w = w.there ≡ true

IsThere-Withstands : Withstands env IsThere
IsThere-Withstands = record {
  put = λ h w p. p;
  sleeps = λ w p. p;
  metadata = λ p w h. h;
  open_source = λ p w h. h;
  seek = λ f n w h. h;
  read = λ f n w h. h;
  sha256_file = λ p w h. h;
  stat = λ p w h. h;
  open_remote = λ p f w h. refl;
  write_at = λ f o bs w h. h;
  read_at = λ f o n w h. h;
  close = λ f w h. h;
}

push-Preserves_example : EndsIn IsThere (push env named 2 1 9 (job_in always) half_sent)
push-Preserves_example =
    push-Preserves env named 2 IsThere IsThere-Withstands 1 9 (job_in always) half_sent
      (λ p. ground arith) (2, refl) refl

-- A job paused while its last bytes went over keeps the label Paused, though it is done.
abbrev paused_late : World
paused_late = record half_sent { heap = λ a. record fresh_cell { state = paused } }

-- A transfer that ended well while the job was labelled Paused leaves it so.
stays_paused :
    state (job_in always) ((settle env named 2 (job_in always) (paused_late, inr tt)).0).heap
    ≡ paused
stays_paused = refl
