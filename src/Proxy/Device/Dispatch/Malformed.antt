-- ===== src/Proxy/Device/Dispatch/Malformed.antt =====
-- Requests whose paths cannot be used never reach the kernel.
use adbshare.Base.{ℕ, ◌≡◌, get_or, true, none, some, arith}
use adbshare.Base.Bytes.{Bytes}
use adbshare.Proxy.Ops.{
  Op, open_file, close, read, write, stat, list_dir, mkdir, unlink, rmdir, rename, truncate,
  read_link, symlink, lstat, utime, disk_usage, copy_file, fstat, op_code,
}
use adbshare.Proxy.Device.{Libc, OwnedFds, bad_path, read_path, read_two_paths, cstring, has_nul}
use adbshare.Proxy.Device.Paths.{
  handle_stat, handle_mkdir, handle_unlink, handle_rmdir, handle_rename, handle_truncate,
  handle_readlink, handle_symlink, handle_utime, handle_statvfs,
}
use adbshare.Proxy.Device.Listing.{handle_listdir}
use adbshare.Proxy.Device.Copy.{handle_copy_file}
use adbshare.Proxy.Device.Dispatch.{answer}

-- The operations whose arguments begin with a counted path.
abbrev pub TakesPath : Op → Type 0
TakesPath open_file = ⊥
TakesPath close = ⊥
TakesPath read = ⊥
TakesPath write = ⊥
TakesPath fstat = ⊥
TakesPath _ = Unit {0}

-- Of those, the ones that pass the path to the kernel through `cstring`.
abbrev pub ChecksNul : Op → Type 0
ChecksNul mkdir = Unit {0}
ChecksNul unlink = Unit {0}
ChecksNul rmdir = Unit {0}
ChecksNul rename = Unit {0}
ChecksNul truncate = Unit {0}
ChecksNul read_link = Unit {0}
ChecksNul symlink = Unit {0}
ChecksNul utime = Unit {0}
ChecksNul disk_usage = Unit {0}
ChecksNul _ = ⊥

module _ (libc : Libc) (args : Bytes) (conn : ℕ) (m : OwnedFds) where
  open libc use {World}

  -- An operation on a path whose arguments do not begin with a length, at most 4096, and that many bytes, is
  -- answered "bad path" with status `InvalidArg`, and neither the kernel nor the table sees it.
  pub answer_unreadable :
      (op : Op) (w : World)
      → TakesPath op
      → read_path args ≡ none
      → answer libc (op_code op) args conn m w ≡ (bad_path, w, m)
  unfolding answer op_code handle_stat handle_listdir handle_mkdir handle_unlink handle_rmdir
      handle_rename handle_truncate handle_readlink handle_symlink handle_utime handle_statvfs
      handle_copy_file read_two_paths
  answer_unreadable open_file w t e = elim t [ ]
  answer_unreadable close w t e = elim t [ ]
  answer_unreadable read w t e = elim t [ ]
  answer_unreadable write w t e = elim t [ ]
  answer_unreadable fstat w t e = elim t [ ]
  answer_unreadable _ w t e = ground arith

  -- A first path with a NUL among its declared bytes is answered with status `InvalidArg` by `mkdir`,
  -- `unlink`, `rmdir`, `rename`, `truncate`, `readlink`, `symlink`, `utime` and the disk usage, and
  -- neither the kernel nor the table sees it.
  pub answer_nul :
      (op : Op) (path rest : Bytes) (w : World)
      → ChecksNul op
      → read_path args ≡ some (path, rest)
      → has_nul path ≡ true
      → (get_or (answer libc (op_code op) args conn m w).0 0 0 ≡ 0x08)
        × ((answer libc (op_code op) args conn m w).1 ≡ w)
        × ((answer libc (op_code op) args conn m w).2 ≡ m)
  unfolding answer op_code handle_mkdir handle_unlink handle_rmdir handle_rename handle_truncate
      handle_readlink handle_symlink handle_utime handle_statvfs cstring
  answer_nul open_file path rest w c e n = elim c [ ]
  answer_nul close path rest w c e n = elim c [ ]
  answer_nul read path rest w c e n = elim c [ ]
  answer_nul write path rest w c e n = elim c [ ]
  answer_nul stat path rest w c e n = elim c [ ]
  answer_nul lstat path rest w c e n = elim c [ ]
  answer_nul list_dir path rest w c e n = elim c [ ]
  answer_nul copy_file path rest w c e n = elim c [ ]
  answer_nul fstat path rest w c e n = elim c [ ]
  answer_nul _ path rest w c e n = ground arith
