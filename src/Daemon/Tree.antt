-- ===== src/Daemon/Tree.antt =====
-- Whole directories: delete_recursive and enqueue_tree_pull of main.rs, with their caps.
--
-- The client, the host's directories and the paths of the host are a TreeEnv. A path is its bytes.
pub mod Appended
pub mod Confined
pub mod Ends
pub mod Pull
mod Examples
use adbshare.Base.{
  ℕ, zero, suc, ◌+◌, ◌-◌, leb, ltb, String, Bool, true, false, not, ◌||◌, ◌⊎◌, inl, inr, Option,
  none, some, List, [], ◌∷◌, ◌++◌, length, ◌==◌, ℕ_eq, if◌then◌else◌,
}
use adbshare.Base.Bytes.{Bytes}
use adbshare.Proxy.Ops.{Stat, mode_is_dir, mode_is_symlink}
use adbshare.Proxy.Listing.{DirEntry}
use adbshare.Transfer.Job.{Job, JobOptions, pull, with_device}
use adbshare.Transfer.Queue.{JobQueue, submit}

abbrev pub delete_max_depth : ℕ
delete_max_depth = 64

abbrev pub tree_max_depth : ℕ
tree_max_depth = 32

abbrev pub tree_max_files : ℕ
tree_max_files = 10000

pub record TreeEnv (W E : Type 0) : Type 0 where
  pub lstat : Bytes → W → W × (E ⊎ Stat)
  pub listdir : Bytes → W → W × (E ⊎ List DirEntry)
  pub unlink : Bytes → W → W × (E ⊎ (Unit {0}))
  pub rmdir : Bytes → W → W × (E ⊎ (Unit {0}))
  -- `std::fs::create_dir_all`, `Path::join`, and a path as a job holds it
  pub create_dir_all : Bytes → W → W × (E ⊎ (Unit {0}))
  pub join : Bytes → Bytes → Bytes
  pub text : Bytes → String
  -- a free address for the cell of a new job
  pub free_cell : JobQueue → ℕ

abbrev pub keep_trimmed : ℕ → Bytes → Bytes
keep_trimmed b [] = if b == 47 then [] else b ∷ []
keep_trimmed b (c ∷ cs) = b ∷ c ∷ cs

-- `trim_end_matches('/')`
unfoldable pub trim_slashes : Bytes → Bytes
trim_slashes [] = []
trim_slashes (b ∷ bs) = keep_trimmed b (trim_slashes bs)

unfoldable pub child_path : Bytes → Bytes → Bytes
child_path parent name = trim_slashes parent ++ (47 ∷ name)

pub data TreeError (E : Type 0) : Type 0 where
  too_deep : Bytes → TreeError E
  from_client from_host : E → TreeError E

module _ {W E : Type 0} (env : TreeEnv W E) where
  abbrev pub Removed : Type 0
  Removed = W × (TreeError E ⊎ (Unit {0}))

  abbrev pub or_client : W × (E ⊎ (Unit {0})) → Removed
  or_client (w, inl e) = (w, inl (from_client e))
  or_client (w, inr u) = (w, inr tt)

  -- `?` after the delete of a child.
  abbrev pub then_remove : Removed → (W → Removed) → Removed
  then_remove (w, inl x) next = (w, inl x)
  then_remove (w, inr u) next = next w

  -- The loop over the entries; `remove` deletes a child.
  abbrev pub remove_children : (Bytes → W → Removed) → Bytes → List DirEntry → W → Removed
  remove_children remove path [] w = or_client (env.rmdir path w)
  remove_children remove path (e ∷ es) w =
      then_remove (remove (child_path path e.name) w) (remove_children remove path es)

  abbrev pub remove_listed : (Bytes → W → Removed) → Bytes → W × (E ⊎ List DirEntry) → Removed
  remove_listed remove path (w, inl e) = (w, inl (from_client e))
  remove_listed remove path (w, inr es) = remove_children remove path es w

  abbrev pub remove_node : (Bytes → W → Removed) → Bytes → W × (E ⊎ Stat) → Removed
  remove_node remove path (w, inl e) = (w, inl (from_client e))
  remove_node remove path (w, inr st) =
      if mode_is_symlink st.mode || not (mode_is_dir st.mode)
      then or_client (env.unlink path w)
      else remove_listed remove path (env.listdir path w)

  -- `delete_recursive`, by the levels that are left: `depth` is `delete_max_depth + 1 - levels`.
  unfoldable pub delete_levels : ℕ → Bytes → W → Removed
  delete_levels zero path w = (w, inl (too_deep path))
  delete_levels (suc levels) path w = remove_node (delete_levels levels) path (env.lstat path w)

  unfoldable pub delete_recursive : Bytes → W → Removed
  unfolding delete_levels
  delete_recursive = delete_levels (suc delete_max_depth)
