-- ===== src/Fs/Inodes/Examples.antt =====
-- Two directories with a file of the same name.
use adbshare.Base.{◌≡◌, refl, true, some, none, [], ◌∷◌, List, ℕ_eq, list_eq, arith}
use adbshare.Base.Assoc.{lookup}
use adbshare.Base.Bytes.{Bytes}
use adbshare.Fs.Inodes.{new, ino_for, resolve_child, move_inodes}
use adbshare.Fs.Inodes.Resolves.{Call, looks_up, forgets, renames, run, resolve_child-ino_for}
use adbshare.Fs.Inodes.Follows.{move_inodes-follows}

abbrev music : Bytes
music = 109 ∷ []

abbrev photos : Bytes
photos = 112 ∷ []

abbrev cover : Bytes
cover = 99 ∷ []

abbrev calls : List Call
calls =
    looks_up (photos ∷ cover ∷ [])
    ∷ looks_up (music ∷ [])
    ∷ looks_up (music ∷ cover ∷ [])
    ∷ forgets 7
    ∷ renames (photos ∷ []) (cover ∷ []) true
    ∷ []

resolve_child-ino_for_example :
    resolve_child
      (ino_for (music ∷ cover ∷ []) (run calls new)).1
      cover
      (ino_for (music ∷ cover ∷ []) (run calls new)).0
    ≡ some (music ∷ cover ∷ cover ∷ [])
resolve_child-ino_for_example = resolve_child-ino_for calls (music ∷ cover ∷ []) cover (omega arith)

known : lookup (music ∷ cover ∷ []) (run calls new).path_to_ino ≡ some 102
unfolding lookup run
known = refl

move_inodes-follows_example :
    lookup 102 (move_inodes (music ∷ []) (photos ∷ []) true (run calls new)).ino_to_path
    ≡ some (photos ∷ cover ∷ [])
move_inodes-follows_example =
    move_inodes-follows calls (music ∷ []) (cover ∷ []) (photos ∷ []) 102 (omega arith) known
      (λ e. cc e)

-- The inode that a file below the overwritten directory had keeps its path after the rename. Forgetting it
-- then takes the path from the inode that moved there.
abbrev clash : List Call
clash =
    looks_up (music ∷ cover ∷ [])
    ∷ looks_up (photos ∷ cover ∷ [])
    ∷ renames (music ∷ []) (photos ∷ []) true
    ∷ forgets 101
    ∷ []

clash-lost :
    (lookup 100 (run clash new).ino_to_path ≡ some (photos ∷ cover ∷ []))
    × (lookup (photos ∷ cover ∷ []) (run clash new).path_to_ino ≡ none)
unfolding lookup run
clash-lost = (refl, refl)
