-- ===== src/Proxy/Device/Copy.antt =====
-- `do_copy_file` with its helpers, and the arm 0x12 of `dispatch`. The files that it opens are closed
-- on every path, which is not modelled.
use adbshare.Base.{
  ℕ, ltb, not, Bool, ◌&&◌, ◌||◌, none, some, [], ◌∷◌, ◌++◌, length, ◌==◌, ℕ_eq, list_eq,
  if◌then◌else◌,
}
use adbshare.Base.Bytes.{Bytes}
use adbshare.Proxy.Device.{
  Libc, Ret, done, fails, Metadata, read_two_paths, bad_copy_path, copy_status, codes, bad_path,
  max_path,
}

abbrev last_segment : Bytes → Bytes → Bytes
last_segment acc [] = acc
last_segment acc (b ∷ bs) = last_segment (if b == b'/' then [] else acc ++ (b ∷ [])) bs

-- What ends a copy: a failed call, or the source being shorter than its metadata said.
pub data CopyError : Type 0 where
  os_error : ℕ → CopyError
  source_shortened : CopyError

pub data CopyResult : Type 0 where
  copied_file : CopyResult
  copy_failed : CopyError → CopyResult

module _ (libc : Libc) where
  open libc use {
    World, open_source, open_directory, openat_new, metadata, copy_bytes, sync_all, fstatat,
    unlinkat, file_name, parent, strerror,
  }

  abbrev synced : Ret (Unit {0}) × World → CopyResult × World
  synced (done u, w) = (copied_file, w)
  synced (fails e, w) = (copy_failed (os_error e), w)

  abbrev after_copy : ℕ → ℕ → Ret ℕ × World → CopyResult × World
  after_copy size dst (fails e, w) = (copy_failed (os_error e), w)
  after_copy size dst (done n, w) =
      if not (n == size) then (copy_failed source_shortened, w) else synced (sync_all dst w)

  abbrev unlink_same : ℕ → Bytes → Metadata → Ret Metadata × World → World
  unlink_same dir name owned (fails e, w) = w
  unlink_same dir name owned (done current, w) =
      if (current.dev == owned.dev) && (current.ino == owned.ino)
      then (unlinkat dir name w).1
      else w

  abbrev remove_if_owned : ℕ → Bytes → Ret Metadata × World → World
  remove_if_owned dir name (fails e, w) = w
  remove_if_owned dir name (done owned, w) = unlink_same dir name owned (fstatat dir name w)

  -- `remove_owned_partial`
  unfoldable pub remove_owned_partial : ℕ → Bytes → ℕ → World → World
  remove_owned_partial dir name dst w = remove_if_owned dir name (metadata dst w)

  abbrev clean_up : ℕ → Bytes → ℕ → CopyResult × World → CopyResult × World
  clean_up dir name dst (copied_file, w) = (copied_file, w)
  clean_up dir name dst (copy_failed e, w) = (copy_failed e, remove_owned_partial dir name dst w)

  -- `copy_into_owned`
  unfoldable pub copy_into_owned : ℕ → ℕ → ℕ → ℕ → Bytes → World → CopyResult × World
  unfolding remove_owned_partial
  copy_into_owned src size dst dir name w =
      clean_up dir name dst (after_copy size dst (copy_bytes src size dst w))

  abbrev os_failure : ℕ → World → Bytes × World
  os_failure e w = (copy_status e ∷ strerror e, w)

  abbrev copy_reply : CopyResult × World → Bytes × World
  copy_reply (copied_file, w) = (0 ∷ [], w)
  copy_reply (copy_failed (os_error e), w) = os_failure e w
  copy_reply (copy_failed source_shortened, w) = (0x07 ∷ codes "source shortened during copy", w)

  abbrev into_created : ℕ → ℕ → ℕ → Bytes → Ret ℕ × World → Bytes × World
  into_created src size dir name (fails e, w) = os_failure e w
  into_created src size dir name (done dst, w) =
      copy_reply (copy_into_owned src size dst dir name w)

  abbrev into_directory : ℕ → ℕ → Bytes → Ret ℕ × World → Bytes × World
  into_directory src size name (fails e, w) = os_failure e w
  into_directory src size name (done dir, w) =
      into_created src size dir name (openat_new dir name w)

  abbrev no_name : Bytes
  no_name = 0x08 ∷ codes "destination must name a file"

  abbrev is_no_name : Bytes → Bool
  is_no_name seg = seg == [] || (seg == (b'.' ∷ []) || seg == (b'.' ∷ b'.' ∷ []))

  abbrev to_destination : ℕ → Bytes → ℕ → World → Bytes × World
  to_destination src dst size w =
      if is_no_name (last_segment [] dst) then (no_name, w) else elim (file_name dst) [
        | none ↦ (no_name, w)
        | some name ↦ into_directory src size name (open_directory (parent dst) w)
      ]

  abbrev from_regular : ℕ → Bytes → Ret Metadata × World → Bytes × World
  from_regular src dst (fails e, w) = os_failure e w
  from_regular src dst (done m, w) =
      if not m.is_file
      then ((if m.is_dir then 0x03 else 0x08) ∷ codes "source must be a regular file", w)
      else to_destination src dst m.len w

  abbrev from_source : Bytes → Ret ℕ × World → Bytes × World
  from_source dst (fails e, w) = os_failure e w
  from_source dst (done src, w) = from_regular src dst (metadata src w)

  abbrev refused_path : Bytes → Bool
  refused_path p = bad_copy_path p || ltb max_path (length p)

  unfoldable pub do_copy_file : Bytes → Bytes → World → Bytes × World
  unfolding copy_into_owned
  do_copy_file src dst w =
      if refused_path src || refused_path dst
      then (bad_path, w)
      else from_source dst (open_source src w)

  unfoldable pub handle_copy_file : Bytes → World → Bytes × World
  unfolding do_copy_file
  handle_copy_file args w = elim (read_two_paths args) [
    | none ↦ (bad_path, w)
    | some (src, dst) ↦ do_copy_file src dst w
  ]
