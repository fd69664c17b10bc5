-- ===== src/Proxy/Device/Paths.antt =====
-- The requests that name files by path: the arms 0x05 to 0x11 of `dispatch`.
use adbshare.Base.{ℕ, ltb, none, some, [], ◌∷◌, ◌++◌, length, ◌==◌, ℕ_eq, list_eq, if◌then◌else◌}
use adbshare.Base.Bytes.{Bytes, le_bytes, from_le, slice}
use adbshare.Proxy.Device.{
  Libc, Ret, done, fails, CStat, CStatVfs, read_path, cstring, c_str, stat_status, encode_stat,
  codes, short, bad_path, unit_reply,
}

-- `[len u32][bytes]`
abbrev pub counted : Bytes → Bytes
counted bs = le_bytes 4 (length bs) ++ bs

module _ (libc : Libc) where
  open libc use {
    World, stat_call, lstat_call, mkdir_call, unlink_call, rmdir_call, rename_call, truncate_call,
    realpath_call, readlink_call, symlink_call, utimes_call, statvfs_call, strerror,
  }

  -- `match read_path(args) { Some((path, rest)) => …, None => bad path }`
  abbrev with_path : Bytes → (Bytes → Bytes → World → Bytes × World) → World → Bytes × World
  with_path args f w = elim (read_path args) [
    | none ↦ (bad_path, w)
    | some (path, rest) ↦ f path rest w
  ]

  -- `match cstring(&path) { Some(p) => …, None => bad path }`
  abbrev with_cstring : Bytes → (Bytes → World → Bytes × World) → World → Bytes × World
  with_cstring path f w = elim (cstring path) [ none ↦ (bad_path, w) | some p ↦ f p w ]

  -- `do_stat` and `do_lstat` terminate the path by hand.
  abbrev stat_reply : Ret CStat × World → Bytes × World
  stat_reply (done st, w) = (0 ∷ encode_stat st, w)
  stat_reply (fails e, w) = (stat_status e ∷ strerror e, w)

  unfoldable pub do_stat : Bytes → World → Bytes × World
  do_stat path w = stat_reply (stat_call (c_str (path ++ (0 ∷ []))) w)

  unfoldable pub do_lstat : Bytes → World → Bytes × World
  do_lstat path w = stat_reply (lstat_call (c_str (path ++ (0 ∷ []))) w)

  unfoldable pub handle_stat : ℕ → Bytes → World → Bytes × World
  unfolding do_stat do_lstat
  handle_stat op args =
      with_path args (λ path rest w. if op == 0x05 then do_stat path w else do_lstat path w)

  unfoldable pub handle_mkdir : Bytes → World → Bytes × World
  handle_mkdir args = with_path args (λ path rest w.
      if ltb (length rest) 4
      then (short, w)
      else with_cstring path (λ p w. unit_reply "mkdir" (mkdir_call p (from_le (slice rest 0 4)) w))
          w)

  unfoldable pub handle_unlink : Bytes → World → Bytes × World
  handle_unlink args =
      with_path args (λ path rest. with_cstring path (λ p w. unit_reply "unlink" (unlink_call p w)))

  unfoldable pub handle_rmdir : Bytes → World → Bytes × World
  handle_rmdir args =
      with_path args (λ path rest. with_cstring path (λ p w. unit_reply "rmdir" (rmdir_call p w)))

  unfoldable pub handle_rename : Bytes → World → Bytes × World
  handle_rename args = with_path args (λ src rest. with_path rest (λ dst rest'.
      with_cstring src (λ s. with_cstring dst (λ d w. unit_reply "rename" (rename_call s d w)))))

  unfoldable pub handle_truncate : Bytes → World → Bytes × World
  handle_truncate args = with_path args (λ path rest w.
      if ltb (length rest) 8
      then (short, w)
      else with_cstring path
          (λ p w. unit_reply "truncate" (truncate_call p (from_le (slice rest 0 8)) w)) w)

  abbrev realpath_reply : Ret Bytes × World → Bytes × World
  realpath_reply (done r, w) = (0 ∷ counted r, w)
  realpath_reply (fails e, w) = (0x01 ∷ codes "realpath", w)

  unfoldable pub handle_realpath : Bytes → World → Bytes × World
  handle_realpath args =
      with_path args (λ path rest. with_cstring path (λ p w. realpath_reply (realpath_call p w)))

  -- EINVAL is 22: the name is not a symlink.
  abbrev readlink_reply : Ret Bytes × World → Bytes × World
  readlink_reply (done r, w) = (0 ∷ counted r, w)
  readlink_reply (fails e, w) = ((if e == 22 then 0x08 else stat_status e) ∷ strerror e, w)

  unfoldable pub handle_readlink : Bytes → World → Bytes × World
  handle_readlink args =
      with_path args
        (λ path rest. with_cstring path (λ p w. readlink_reply (readlink_call p 4096 w)))

  unfoldable pub handle_symlink : Bytes → World → Bytes × World
  handle_symlink args = with_path args (λ target rest. with_path rest (λ linkpath rest'.
      with_cstring target
        (λ t. with_cstring linkpath (λ l w. unit_reply "symlink" (symlink_call t l w)))))

  unfoldable pub handle_utime : Bytes → World → Bytes × World
  handle_utime args = with_path args (λ path rest w.
      if ltb (length rest) 16
      then (short, w)
      else with_cstring path
          (λ p w.
            unit_reply "utimes"
              (utimes_call p (from_le (slice rest 0 8)) (from_le (slice rest 8 16)) w))
          w)

  abbrev statvfs_reply : Ret CStatVfs × World → Bytes × World
  statvfs_reply (done st, w) =
      (0 ∷ le_bytes 8 st.f_bavail ++ (le_bytes 8 st.f_blocks ++ le_bytes 8 st.f_bsize), w)
  statvfs_reply (fails e, w) = (0x07 ∷ codes "statvfs", w)

  unfoldable pub handle_statvfs : Bytes → World → Bytes × World
  handle_statvfs args =
      with_path args (λ path rest. with_cstring path (λ p w. statvfs_reply (statvfs_call p w)))
