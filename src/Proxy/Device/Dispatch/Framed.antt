-- ===== src/Proxy/Device/Dispatch/Framed.antt =====
-- Every reply is a frame that the host can cut off and read a status from.
use adbshare.Base.{ℕ, ◌^◌, ◌<◌, ◌≡◌, [], ◌∷◌, ◌++◌, length, drop, arith}
use adbshare.Base.Bytes.{Bytes, le_bytes, from_le, slice, from_le_u32}
use adbshare.Proxy.Device.{Libc, OwnedFds, stat_status, copy_status}
use adbshare.Proxy.Device.Files.{handle_open, handle_close, handle_read, handle_write, handle_fstat}
use adbshare.Proxy.Device.Paths.{
  handle_stat, handle_mkdir, handle_unlink, handle_rmdir, handle_rename, handle_truncate,
  handle_realpath, handle_readlink, handle_symlink, handle_utime, handle_statvfs,
}
use adbshare.Proxy.Device.Listing.{handle_listdir}
use adbshare.Proxy.Device.Copy.{handle_copy_file}
use adbshare.Proxy.Device.Dispatch.{answer, dispatch}

-- The body begins with a status byte of `adb_proxy::Status`.
abbrev pub HasStatus : Bytes → Type 0
HasStatus [] = ⊥
HasStatus (b ∷ bs) = b < 12

stat_status-lt : (e : ℕ) → stat_status e < 12
unfolding stat_status
stat_status-lt e = ground arith

copy_status-lt : (e : ℕ) → copy_status e < 12
unfolding copy_status
copy_status-lt e = ground arith

module _ (libc : Libc) where
  open libc use {World}

  open_status :
      (args : Bytes) (conn : ℕ) (m : OwnedFds) (w : World)
      → HasStatus (handle_open libc args conn m w).0
  unfolding handle_open
  open_status args conn m w = ground arith

  close_status :
      (args : Bytes) (m : OwnedFds) (w : World) → HasStatus (handle_close libc args m w).0
  unfolding handle_close
  close_status args m w = ground arith

  read_status : (args : Bytes) (w : World) → HasStatus (handle_read libc args w).0
  unfolding handle_read
  read_status args w = ground arith

  write_status : (args : Bytes) (w : World) → HasStatus (handle_write libc args w).0
  unfolding handle_write
  write_status args w = ground arith

  stat_reply_status : (op : ℕ) (args : Bytes) (w : World) → HasStatus (handle_stat libc op args w).0
  unfolding handle_stat
  stat_reply_status op args w = grind (arith, stat_status-lt)

  fstat_status : (args : Bytes) (w : World) → HasStatus (handle_fstat libc args w).0
  unfolding handle_fstat
  fstat_status args w = ground arith

  listdir_status : (args : Bytes) (w : World) → HasStatus (handle_listdir libc args w).0
  unfolding handle_listdir
  listdir_status args w = grind (arith, stat_status-lt)

  mkdir_status : (args : Bytes) (w : World) → HasStatus (handle_mkdir libc args w).0
  unfolding handle_mkdir
  mkdir_status args w = ground arith

  rename_status : (args : Bytes) (w : World) → HasStatus (handle_rename libc args w).0
  unfolding handle_rename
  rename_status args w = ground arith

  readlink_status : (args : Bytes) (w : World) → HasStatus (handle_readlink libc args w).0
  unfolding handle_readlink
  readlink_status args w = grind (arith, stat_status-lt)

  copy_file_status : (args : Bytes) (w : World) → HasStatus (handle_copy_file libc args w).0
  unfolding handle_copy_file
  copy_file_status args w = grind (arith, copy_status-lt)

  unlink_status : (args : Bytes) (w : World) → HasStatus (handle_unlink libc args w).0
  unfolding handle_unlink
  unlink_status args w = ground arith

  rmdir_status : (args : Bytes) (w : World) → HasStatus (handle_rmdir libc args w).0
  unfolding handle_rmdir
  rmdir_status args w = ground arith

  truncate_status : (args : Bytes) (w : World) → HasStatus (handle_truncate libc args w).0
  unfolding handle_truncate
  truncate_status args w = ground arith

  realpath_status : (args : Bytes) (w : World) → HasStatus (handle_realpath libc args w).0
  unfolding handle_realpath
  realpath_status args w = ground arith

  symlink_status : (args : Bytes) (w : World) → HasStatus (handle_symlink libc args w).0
  unfolding handle_symlink
  symlink_status args w = ground arith

  utime_status : (args : Bytes) (w : World) → HasStatus (handle_utime libc args w).0
  unfolding handle_utime
  utime_status args w = ground arith

  statvfs_status : (args : Bytes) (w : World) → HasStatus (handle_statvfs libc args w).0
  unfolding handle_statvfs
  statvfs_status args w = ground arith

  answer_status :
      (op : ℕ) (args : Bytes) (conn : ℕ) (m : OwnedFds) (w : World)
      → HasStatus (answer libc op args conn m w).0
  unfolding answer
  answer_status op args conn m w = ground (
    arith,
    open_status args conn m w,
    close_status args m w,
    read_status args w,
    write_status args w,
    stat_reply_status op args w,
    fstat_status args w,
    listdir_status args w,
    mkdir_status args w,
    unlink_status args w,
    rmdir_status args w,
    rename_status args w,
    truncate_status args w,
    realpath_status args w,
    readlink_status args w,
    symlink_status args w,
    utime_status args w,
    statvfs_status args w,
    copy_file_status args w,
  )

  -- What the host reads from a reply: the length field counts the rest, and the rest begins with a status.
  pub record IsFrame (frame : Bytes) : Type 0 where
    pub counted : from_le (slice frame 0 4) ≡ length (drop 4 frame)
    pub status : HasStatus (drop 4 frame)

  IsFrame-of-IsFrame :
      (out : Bytes) → length out < 2 ^ 32 → HasStatus out → IsFrame (le_bytes 4 (length out) ++ out)
  unfolding le_bytes slice from_le
  IsFrame-of-IsFrame out fits s = record { counted = from_le_u32 (length out) fits; status = s }

  -- Whatever the request, known or not, well-formed or not, and whatever the kernel answers, the reply is
  -- a frame whose length field counts the rest and whose body begins with one of the twelve status
  -- bytes, where the body is shorter than 4 GiB.
  pub dispatch-IsFrame :
      (op : ℕ) (args : Bytes) (conn : ℕ) (m : OwnedFds) (w : World)
      → length (answer libc op args conn m w).0 < 2 ^ 32
      → IsFrame (dispatch libc op args conn m w).0
  unfolding dispatch
  dispatch-IsFrame op args conn m w fits =
      IsFrame-of-IsFrame (answer libc op args conn m w).0 fits (answer_status op args conn m w)
