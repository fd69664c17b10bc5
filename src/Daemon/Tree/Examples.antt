-- ===== src/Daemon/Tree/Examples.antt =====
-- Two phones, and the properties at them: one whose directories hold a file each, and one whose
-- directories hold another directory without end.
use adbshare.Base.{ℕ, ◌≡◌, refl, inr, Option, none, some, List, [], ◌∷◌, ◌++◌, arith}
use adbshare.Base.Bytes.{Bytes}
use adbshare.Proxy.Ops.{Stat, mode_is_dir, mode_is_symlink}
use adbshare.Transfer.Job.{fresh_cell, JobOptions, off, skip_existing, with_device}
use adbshare.Transfer.Queue.{JobQueue, new as new_queue, submit}
use adbshare.Daemon.Tree.{
  TreeEnv, TreeError, trim_slashes, child_path, delete_recursive, delete_levels,
}
use adbshare.Daemon.Tree.Confined.{IsUnder, WithstandsBelow, delete_recursive_lem}
use adbshare.Daemon.Tree.Pull.{Walk, enqueue_tree_pull, pull_walk, pull_entries}
use adbshare.Daemon.Tree.Appended.{Appends}
use adbshare.Daemon.Tree.Ends.{enqueue_tree_pull-Appends}

abbrev stat_of : ℕ → Stat
stat_of mode = record {
  mode = mode;
  size = 3;
  mtime = 0;
  atime = 0;
  ctime = 0;
  uid = 0;
  gid = 0;
  nlink = 1;
  blksize = 512;
  blocks = 1;
}

-- The world is what was removed, newest first. The name of every entry is `a`.
abbrev phone : ℕ → TreeEnv (List Bytes) (Unit {0})
phone mode = record {
  lstat = λ p w. (w, inr (stat_of 0o040755));
  listdir = λ p w. (w, inr (record { name = 97 ∷ []; stat = stat_of mode } ∷ []));
  unlink = λ p w. (p ∷ w, inr tt);
  rmdir = λ p w. (p ∷ w, inr tt);
  create_dir_all = λ p w. (w, inr tt);
  join = λ base name. base ++ (47 ∷ name);
  text = λ p. "path";
  free_cell = λ q. q.next_id;
}

abbrev options : JobOptions
options = record { chunk_size = 2; verify = off; overwrite = skip_existing }

abbrev empty_queue : JobQueue
empty_queue = new_queue 4 (λ a. fresh_cell)

abbrev root : Bytes
root = 47 ∷ 100 ∷ []

abbrev AllUnder : List Bytes → Type 0
AllUnder [] = Unit
AllUnder (p ∷ ps) = IsUnder root p × AllUnder ps

phone-WithstandsBelow : (mode : ℕ) → WithstandsBelow (phone mode) root AllUnder
phone-WithstandsBelow mode = record {
  lstat = λ p w h. h;
  listdir = λ p w st u q d s h. h;
  unlink = λ p w u h. (u, h);
  rmdir = λ p w u h. (u, h);
}

delete_recursive_lem_example : AllUnder (delete_recursive (phone 0o040755) root []).0
delete_recursive_lem_example =
    delete_recursive_lem (phone 0o040755) root AllUnder (phone-WithstandsBelow 0o040755) [] tt

delete_stops : (delete_recursive (phone 0o040755) root []).0 ≡ []
unfolding delete_recursive delete_levels mode_is_dir mode_is_symlink child_path trim_slashes
delete_stops = refl

enqueue_tree_pull-Appends_example :
    (s : Walk (List Bytes)) × (r : Option (TreeError (Unit {0}))) × (enqueue_tree_pull
        (phone 0o100644)
        "ABC"
        options
        34
        root
        root
        []
        empty_queue
      ≡ some (s, r))
    × Appends "ABC" options empty_queue s.queue s.out.enqueued
enqueue_tree_pull-Appends_example =
    enqueue_tree_pull-Appends (phone 0o100644) "ABC" options 1 34 root root [] empty_queue
      (λ p w es q. ground arith) (omega arith)

one_job :
    (s : Walk (List Bytes)) × (enqueue_tree_pull
        (phone 0o100644)
        "ABC"
        options
        34
        root
        root
        []
        empty_queue
      ≡ some (s, none))
    × (s.out.enqueued ≡ 1 ∷ [])
unfolding enqueue_tree_pull pull_walk pull_entries mode_is_dir mode_is_symlink child_path
    trim_slashes submit with_device
one_job = (_, refl, refl)
