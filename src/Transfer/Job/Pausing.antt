-- ===== src/Transfer/Job/Pausing.antt =====
-- Pausing and resuming: which states move, and what is left alone.
use adbshare.Base.{◌≡◌, refl, ap, ◌∙◌, true, false, arith, eq_self, ℕ_eq}
use adbshare.Transfer.Job.{
  Job, JobState, pending, running, paused, completed, skipped, failed, cancelled, Cell, Heap, pause,
  resume, state,
}

-- A job that has reached one of these keeps it until it is retried.
abbrev pub IsFinal : JobState → Type 0
IsFinal completed = Unit {0}
IsFinal skipped = Unit {0}
IsFinal failed = Unit {0}
IsFinal cancelled = Unit {0}
IsFinal _ = ⊥

-- The label after `pause`, and after `resume`.
abbrev pub paused_label : JobState → JobState
paused_label pending = paused
paused_label running = paused
paused_label s = s

abbrev pub resumed_label : JobState → JobState
resumed_label paused = running
resumed_label s = s

cell-pause :
    (j : Job) (h : Heap) (s : JobState)
    → state j h ≡ s
    → pause j h j.cell ≡ record (h j.cell) { state = paused_label s; paused_flag = true }
unfolding pause
cell-pause j h pending e = ground (arith, eq_self j.cell)
cell-pause j h _ e = ground (arith, eq_self j.cell)

cell-resume :
    (j : Job) (h : Heap) (s : JobState)
    → state j h ≡ s
    → resume j h j.cell ≡ record (h j.cell) { state = resumed_label s; paused_flag = false }
unfolding resume
cell-resume j h pending e = ground (arith, eq_self j.cell)
cell-resume j h _ e = ground (arith, eq_self j.cell)

paused_label-IsFinal : (s : JobState) → IsFinal s → paused_label s ≡ s
paused_label-IsFinal pending f = elim f [ ]
paused_label-IsFinal running f = elim f [ ]
paused_label-IsFinal _ f = refl

resumed_label-IsFinal : (s : JobState) → IsFinal s → resumed_label s ≡ s
resumed_label-IsFinal paused f = elim f [ ]
resumed_label-IsFinal pending f = refl
resumed_label-IsFinal _ f = refl

-- A job that is completed, skipped, failed or cancelled keeps that state when it is paused, when it
-- is resumed, and when it is paused and then resumed.
pub pause-resume-IsFinal :
    (j : Job) (h : Heap)
    → IsFinal (state j h)
    → (state j (pause j h) ≡ state j h)
      × (state j (resume j h) ≡ state j h)
      × (state j (resume j (pause j h)) ≡ state j h)
pause-resume-IsFinal j h f =
    let p : state j (pause j h) ≡ state j h =
      ap (λ (c : Cell). c.state) (cell-pause j h (state j h) refl)
      ∙ paused_label-IsFinal (state j h) f in
    let r : state j (resume j h) ≡ state j h =
      ap (λ (c : Cell). c.state) (cell-resume j h (state j h) refl)
      ∙ resumed_label-IsFinal (state j h) f in
    (
      p,
      r,
      ap (λ (c : Cell). c.state) (cell-resume j (pause j h) (state j h) p)
          ∙ resumed_label-IsFinal (state j h) f,
    )
