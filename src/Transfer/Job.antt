-- ===== src/Transfer/Job.antt =====
-- A transfer job: crates/transfer-engine/src/job.rs.
--
-- Clones of a `Job` share the mutable half through `Arc`s, so that half is a `Cell` of a heap and a
-- `Job` holds the cell's address. A method that locks or stores acts on the heap.
pub mod Pausing
mod Examples
use adbshare.Base.{
  ℕ, ◌+◌, ◌%◌, ◌^◌, String, Bool, true, false, Option, none, some, ◌==◌, ℕ_eq, if◌then◌else◌,
}

pub data Direction : Type 0 where
  push pull : Direction

pub data VerifyMode : Type 0 where
  off on on_error : VerifyMode

pub data OverwriteMode : Type 0 where
  always skip_existing resume_partial rename : OverwriteMode

pub record JobOptions : Type 0 where
  pub chunk_size : ℕ
  pub verify : VerifyMode
  pub overwrite : OverwriteMode

pub data JobState : Type 0 where
  pending running paused completed skipped failed cancelled : JobState

pub record Job : Type 0 where
  pub id : ℕ
  pub direction : Direction
  pub source : String
  pub destination : String
  pub options : JobOptions
  pub device : Option String
  pub cell : ℕ

pub record Cell : Type 0 where
  pub state : JobState
  pub bytes_done : ℕ
  pub bytes_total : ℕ
  pub speed_bps : ℕ
  pub eta_secs : ℕ
  pub started : Option ℕ
  pub error : Option String
  pub cancel_flag : Bool
  pub paused_flag : Bool

abbrev pub Heap : Type 0
Heap = ℕ → Cell

abbrev pub update : Heap → ℕ → Cell → Heap
update h a c b = if a == b then c else h b

-- The cell that `with_device` allocates; `reset_for_retry` goes back to it.
abbrev pub fresh_cell : Cell
fresh_cell = record {
  state = pending;
  bytes_done = 0;
  bytes_total = 0;
  speed_bps = 0;
  eta_secs = 0;
  started = none;
  error = none;
  cancel_flag = false;
  paused_flag = false;
}

-- `Job::with_device`, at a free address of the heap.
unfoldable pub with_device :
    ℕ → Direction → String → String → JobOptions → Option String → ℕ → Heap → Job × Heap
with_device id direction source destination options device cell h = (
  record {
    id = id;
    direction = direction;
    source = source;
    destination = destination;
    options = options;
    device = device;
    cell = cell;
  },
  update h cell fresh_cell,
)

-- `Job::state`
abbrev pub state : Job → Heap → JobState
state j h = (h j.cell).state

abbrev pub is_cancelled : Job → Heap → Bool
is_cancelled j h = (h j.cell).cancel_flag

abbrev pub is_paused : Job → Heap → Bool
is_paused j h = (h j.cell).paused_flag

unfoldable pub set_state : Job → JobState → Heap → Heap
set_state j s h = update h j.cell (record (h j.cell) { state = s })

unfoldable pub set_error : Job → String → Heap → Heap
set_error j e h = update h j.cell (record (h j.cell) { error = some e })

unfoldable pub set_total : Job → ℕ → Heap → Heap
set_total j n h = update h j.cell (record (h j.cell) { bytes_total = n })

-- `fetch_add` wraps.
unfoldable pub add_bytes : Job → ℕ → Heap → Heap
add_bytes j n h =
    update h j.cell (record (h j.cell) { bytes_done = ((h j.cell).bytes_done + n) % 2 ^ 64 })

unfoldable pub mark_started : Job → ℕ → Heap → Heap
mark_started j now h = update h j.cell (record (h j.cell) { started = some now })

unfoldable pub reset_for_retry : Job → Heap → Heap
reset_for_retry j h = update h j.cell (record (h j.cell) {
  state = pending;
  bytes_done = 0;
  bytes_total = 0;
  speed_bps = 0;
  eta_secs = 0;
  started = none;
  error = none;
  cancel_flag = false;
  paused_flag = false;
})

unfoldable pub cancel : Job → Heap → Heap
cancel j h = update h j.cell (record (h j.cell) { cancel_flag = true })

abbrev pausable : JobState → Bool
pausable pending = true
pausable running = true
pausable _ = false

abbrev pub is_paused_state : JobState → Bool
is_paused_state paused = true
is_paused_state _ = false

unfoldable pub pause : Job → Heap → Heap
unfolding set_state
pause j h =
    let h' = update h j.cell (record (h j.cell) { paused_flag = true }) in
    if pausable (state j h') then set_state j paused h' else h'

unfoldable pub resume : Job → Heap → Heap
unfolding set_state
resume j h =
    let h' = update h j.cell (record (h j.cell) { paused_flag = false }) in
    if is_paused_state (state j h') then set_state j running h' else h'
