-- ===== src/Fs.antt =====
-- The mounted file system: its caches, crates/adbfs/src/cache.rs, and its inode table,
-- crates/adbfs/src/filesystem.rs.
--
-- A path is the list of its components below the root, each by its bytes. The clock is an argument: each
-- call has one `now`, in the unit of the time to live, and `elapsed` is what has passed since.
pub mod StatCache
pub mod DirCache
pub mod Inodes
use adbshare.Base.{ℕ, ◌-◌, ltb, Bool, true, false, ◌&&◌, List, [], ◌∷◌, ◌==◌, ℕ_eq, list_eq}
use adbshare.Base.Bytes.{Bytes}

abbrev pub PathBuf : Type 0
PathBuf = List Bytes

-- `path.starts_with(prefix)`
abbrev pub starts_with : PathBuf → PathBuf → Bool
starts_with path [] = true
starts_with [] (q ∷ qs) = false
starts_with (p ∷ ps) (q ∷ qs) = p == q && starts_with ps qs

-- `when.elapsed() < ttl`
abbrev pub is_fresh : ℕ → ℕ → ℕ → Bool
is_fresh ttl now when = ltb (now - when) ttl
