-- ===== src/Fs/Inodes.antt =====
-- The inode table of the mounted file system: crates/adbfs/src/filesystem.rs.
--
-- A path is the list of its components below the root, so `/` is the empty one, and a name that the kernel
-- gives has no slash. Each function stands for the code between taking the two locks and releasing them.
pub mod Paired
pub mod Resolves
pub mod Follows
mod Examples
use adbshare.Base.{
  ℕ, ◌+◌, ◌%◌, ◌^◌, Bool, Option, none, some, List, [], ◌∷◌, ◌++◌, map, length, drop, ◌==◌, ℕ_eq,
  list_eq, if◌then◌else◌,
}
use adbshare.Base.Assoc.{Assoc, lookup, retain, remove, insert}
use adbshare.Base.Bytes.{Bytes}
use adbshare.Fs.{PathBuf, starts_with}

abbrev pub root : ℕ
root = 1

-- `ino_to_path`, `path_to_ino` and `next_ino` of `Adbfs`.
pub record Inodes : Type 0 where
  pub path_to_ino : Assoc PathBuf ℕ
  pub ino_to_path : Assoc ℕ PathBuf
  pub next_ino : ℕ

abbrev pub new : Inodes
new = record { path_to_ino = ([], root) ∷ []; ino_to_path = (root, []) ∷ []; next_ino = 100 }

-- The two `insert` calls, and the two `remove` calls.
unfoldable pub tie : ℕ → PathBuf → Inodes → Inodes
unfolding insert
tie ino path t = record t {
  path_to_ino = insert path ino t.path_to_ino;
  ino_to_path = insert ino path t.ino_to_path;
}

unfoldable pub untie : ℕ → PathBuf → Inodes → Inodes
unfolding remove
untie ino path t = record t {
  path_to_ino = remove path t.path_to_ino;
  ino_to_path = remove ino t.ino_to_path;
}

-- `next_ino.fetch_add(1, …)`, which wraps.
unfoldable pub ino_for_found : PathBuf → Inodes → Option ℕ → Inodes × ℕ
unfolding tie
ino_for_found path t (some ino) = (t, ino)
ino_for_found path t none =
    (tie t.next_ino path (record t { next_ino = (t.next_ino + 1) % 2 ^ 64 }), t.next_ino)

unfoldable pub ino_for : PathBuf → Inodes → Inodes × ℕ
unfolding ino_for_found lookup
ino_for path t = ino_for_found path t (lookup path t.path_to_ino)

unfoldable pub forget_found : ℕ → Inodes → Option PathBuf → Inodes
unfolding untie
forget_found ino t none = t
forget_found ino t (some path) = untie ino path t

unfoldable pub forget_ino : ℕ → Inodes → Inodes
unfolding forget_found lookup
forget_ino ino t = if ino == root then t else forget_found ino t (lookup ino t.ino_to_path)

abbrev child : Bytes → Option PathBuf → Option PathBuf
child name none = none
child name (some p) = some (p ++ name ∷ [])

unfoldable pub resolve_child : ℕ → Bytes → Inodes → Option PathBuf
unfolding lookup
resolve_child parent name t = child name (lookup parent t.ino_to_path)

-- What `rename` does to the table once the device has renamed.
unfoldable pub drop_found : PathBuf → Inodes → Option ℕ → Inodes
unfolding untie
drop_found dst t none = t
drop_found dst t (some dst_ino) = untie dst_ino dst t

unfoldable pub drop_overwritten : PathBuf → Inodes → Inodes
unfolding drop_found lookup
drop_overwritten dst t = drop_found dst t (lookup dst t.path_to_ino)

abbrev pub moved_to : PathBuf → Option ℕ → List (ℕ × PathBuf)
moved_to path none = []
moved_to path (some ino) = (ino, path) ∷ []

abbrev pub unlisted : PathBuf → Inodes → Inodes
unlisted path t = record t { path_to_ino = remove path t.path_to_ino }

-- The entries of these paths are taken out of `path_to_ino`, each with the path that it gets.
unfoldable pub take_out : (PathBuf → PathBuf) → List PathBuf → Inodes → Inodes × List (ℕ × PathBuf)
unfolding lookup remove
take_out f [] t = (t, [])
take_out f (old ∷ olds) t =
    let rest = take_out f olds (unlisted old t) in
    (rest.0, moved_to (f old) (lookup old t.path_to_ino) ++ rest.1)

-- `dst.join(old.strip_prefix(src))`
abbrev pub moved_path : PathBuf → PathBuf → PathBuf → PathBuf
moved_path src dst old = dst ++ drop (length src) old

unfoldable pub stale : PathBuf → Inodes → List PathBuf
unfolding retain
stale src t = map (λ (e : PathBuf × ℕ). e.0) (retain (λ p i. starts_with p src) t.path_to_ino)

unfoldable pub place : List (ℕ × PathBuf) → Inodes → Inodes
unfolding tie
place [] t = t
place ((ino, path) ∷ moved) t = place moved (tie ino path t)

unfoldable pub collect : PathBuf → PathBuf → Bool → Inodes → Inodes × List (ℕ × PathBuf)
unfolding take_out stale
collect src dst is_dir t =
    let first = take_out (λ p. dst) (src ∷ []) t in
    let rest = take_out (moved_path src dst) (if is_dir then stale src first.0 else []) first.0 in
    (rest.0, first.1 ++ rest.1)

unfoldable pub move_inodes : PathBuf → PathBuf → Bool → Inodes → Inodes
unfolding drop_overwritten collect place
move_inodes src dst is_dir t =
    let c = collect src dst is_dir (drop_overwritten dst t) in place c.1 c.0
