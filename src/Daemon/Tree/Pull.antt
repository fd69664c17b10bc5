-- ===== src/Daemon/Tree/Pull.antt =====
-- enqueue_tree_pull and parse_job_options of main.rs: a directory of the phone as jobs of the queue.
use adbshare.Base.{
  ℕ, zero, suc, ◌+◌, ◌*◌, leb, String, Bool, ◌⊎◌, inl, inr, Option, none, some, List, [], ◌∷◌, ◌++◌,
  length, ◌==◌, ℕ_eq, string_eq, if◌then◌else◌,
}
use adbshare.Base.Bytes.{Bytes}
use adbshare.Proxy.Ops.{mode_is_dir, mode_is_symlink}
use adbshare.Proxy.Listing.{DirEntry}
use adbshare.Transfer.Job.{
  pull, JobOptions, OverwriteMode, skip_existing, always, rename, on, off, with_device,
}
use adbshare.Transfer.Queue.{JobQueue, submit}
use adbshare.Daemon.Tree.{
  TreeEnv, TreeError, from_client, from_host, child_path, tree_max_depth, tree_max_files,
}

-- What the reply says of a part that was left out.
pub data TreeNote : Type 0 where
  too_many_files : TreeNote
  nested_too_deep : Bytes → TreeNote

pub record TreeEnqueueResult : Type 0 where
  pub enqueued : List ℕ
  pub copied : ℕ
  pub errors : List TreeNote

-- The chunk size of the options is the default.
unfoldable pub parse_job_options : String → Bool → Option JobOptions
parse_job_options overwrite verify =
    let v = if verify then on else off in
    let with_mode : OverwriteMode → Option JobOptions =
      λ m. some (record { chunk_size = 2 * 1024 * 1024; verify = v; overwrite = m }) in
    if overwrite == "skip"
    then with_mode skip_existing
    else if overwrite == "replace"
    then with_mode always
    else if overwrite == "keep-both"
    then with_mode rename
    else none

-- A directory still to be walked: where it is, where it goes, and how deep it is.
abbrev pub Pending : Type 0
Pending = Bytes × Bytes × ℕ

pub record Walk (W : Type 0) : Type 0 where
  pub world : W
  pub queue : JobQueue
  pub out : TreeEnqueueResult

-- How a round of the loop over the entries ends: the next one, the reply, or an error.
pub data Round (W E : Type 0) : Type 0 where
  goes_on : List Pending → Walk W → Round W E
  replies : Walk W → Round W E
  fails : TreeError E → Walk W → Round W E

module _ {W E : Type 0} (env : TreeEnv W E) (device : String) (options : JobOptions) where
  abbrev pub note : TreeNote → Walk W → Walk W
  note n s = record s { out = record s.out { errors = s.out.errors ++ (n ∷ []) } }

  -- `Job::with_device` and `submit`
  abbrev pub enqueue : Bytes → Bytes → Walk W → Walk W
  enqueue remote local s =
      let made =
        with_device 0 pull (env.text remote) (env.text local) options (some device)
          (env.free_cell s.queue) s.queue.cells in
      let put = submit (record s.queue { cells = made.1 }) made.0 in
      record s { queue = put.0; out = record s.out { enqueued = s.out.enqueued ++ (put.1 ∷ []) } }

  abbrev pub made_dir : Pending → List Pending → Walk W → W × (E ⊎ (Unit {0})) → Round W E
  made_dir child stack s (w, inl e) = fails (from_host e) (record s { world = w })
  made_dir child stack s (w, inr u) = goes_on (child ∷ stack) (record s { world = w })

  -- One entry below the cap.
  abbrev pub pull_entry : DirEntry → Pending → List Pending → Walk W → Round W E
  pull_entry e (remote, local, depth) stack s =
      let remote_child = child_path remote e.name in
      let local_child = env.join local e.name in
      if mode_is_symlink e.stat.mode
      then goes_on stack s
      else if mode_is_dir e.stat.mode
      then made_dir (remote_child, local_child, depth + 1) stack s
          (env.create_dir_all local_child s.world)
      else goes_on stack (enqueue remote_child local_child s)

  abbrev pub capped_entry : DirEntry → Pending → List Pending → Walk W → Round W E
  capped_entry e at stack s =
      if leb tree_max_files (length s.out.enqueued)
      then replies (note too_many_files s)
      else pull_entry e at stack s

  abbrev pub and_on : (List Pending → Walk W → Round W E) → Round W E → Round W E
  and_on next (goes_on stack s) = next stack s
  and_on next (replies s) = replies s
  and_on next (fails e s) = fails e s

  unfoldable pub pull_entries : List DirEntry → Pending → List Pending → Walk W → Round W E
  pull_entries [] at stack s = goes_on stack s
  pull_entries (e ∷ es) at stack s = and_on (pull_entries es at) (capped_entry e at stack s)

  abbrev pub pull_listed : Pending → List Pending → Walk W → W × (E ⊎ List DirEntry) → Round W E
  pull_listed at stack s (w, inl e) = fails (from_client e) (record s { world = w })
  pull_listed at stack s (w, inr es) = pull_entries es at stack (record s { world = w })

  abbrev pub pull_dir : Pending → List Pending → Walk W → Round W E
  pull_dir (remote, local, depth) stack s =
      if leb tree_max_depth depth
      then goes_on stack (note (nested_too_deep remote) s)
      else pull_listed (remote, local, depth) stack s (env.listdir remote s.world)

  -- The loop over the stack; `none` stands for fuel that ran out.
  abbrev pub after_dir :
      (List Pending → Walk W → Option (Walk W × Option (TreeError E)))
      → Round W E
      → Option (Walk W × Option (TreeError E))
  after_dir next (goes_on stack s) = next stack s
  after_dir next (replies s) = some (s, none)
  after_dir next (fails e s) = some (s, some e)

  unfoldable pub pull_walk : ℕ → List Pending → Walk W → Option (Walk W × Option (TreeError E))
  unfolding pull_entries
  pull_walk zero stack s = none
  pull_walk (suc fuel) [] s = some (s, none)
  pull_walk (suc fuel) (at ∷ stack) s = after_dir (pull_walk fuel) (pull_dir at stack s)

  -- From the walk on, with the options parsed, the paths checked and the base directory made.
  unfoldable pub enqueue_tree_pull :
      ℕ → Bytes → Bytes → W → JobQueue → Option (Walk W × Option (TreeError E))
  unfolding pull_walk
  enqueue_tree_pull fuel device_dir local_dir w q =
      pull_walk fuel ((device_dir, local_dir, 0) ∷ [])
        (record { world = w; queue = q; out = record { enqueued = []; copied = 0; errors = [] } })
