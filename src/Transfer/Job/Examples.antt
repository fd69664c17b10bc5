-- ===== src/Transfer/Job/Examples.antt =====
-- A job that is paused, resumed and, once completed, left alone.
use adbshare.Base.{◌≡◌, refl, none}
use adbshare.Transfer.Job.{
  Job, Heap, push, off, skip_existing, running, completed, pause, resume, state, fresh_cell, update,
}
use adbshare.Transfer.Job.Pausing.{pause-resume-IsFinal}

abbrev photo : Job
photo = record {
  id = 4;
  direction = push;
  source = "/home/me/photo.jpg";
  destination = "/sdcard/photo.jpg";
  options = record { chunk_size = 65536; verify = off; overwrite = skip_existing };
  device = none;
  cell = 9;
}

abbrev finished : Heap
finished = update (λ a. fresh_cell) 9 (record fresh_cell { state = completed })

-- A pending job that is paused and resumed is labelled running.
pending_resumed : state photo (resume photo (pause photo (λ a. fresh_cell))) ≡ running
unfolding pause resume
pending_resumed = refl

pause-resume-IsFinal_example :
    (state photo (pause photo finished) ≡ completed)
    × (state photo (resume photo finished) ≡ completed)
    × (state photo (resume photo (pause photo finished)) ≡ completed)
pause-resume-IsFinal_example = pause-resume-IsFinal photo finished tt
