-- ===== src/Proxy/Client/Reaches.antt =====
-- What the host asks for is what the device's kernel is asked for.
use adbshare.Base.{ℕ, ◌^◌, ◌≤◌, ◌<◌, ◌≡◌, false, ◌++◌, length, arith}
use adbshare.Base.Bytes.{Bytes, le_bytes, length-le_bytes}
use adbshare.Proxy.Ops.{
  Op, mkdir, unlink, rmdir, rename, truncate, symlink, utime, write, read, op_code,
}
use adbshare.Proxy.Device.{Libc, OwnedFds, max_path, max_response, cstring, has_nul, unit_reply}
use adbshare.Proxy.Device.Files.{handle_read, handle_write, read_reply, write_reply}
use adbshare.Proxy.Device.Paths.{
  handle_mkdir, handle_unlink, handle_rmdir, handle_rename, handle_truncate, handle_symlink,
  handle_utime,
}
use adbshare.Proxy.Device.Dispatch.{answer}
use adbshare.Proxy.Client.{
  path_args, two_path_args, mkdir_args, truncate_args, utime_args, read_args, write_args,
}
use adbshare.Proxy.Client.Fields.{
  read_path-counted, read_path-last, u32_field, u64_field, u64_fields, u32_u64_u32, read_fields,
}

-- A path that the host can ask for: at most 4096 bytes, none of them NUL.
pub record IsPath (path : Bytes) : Type 0 where
  pub fits : length path ≤ max_path
  pub clean : has_nul path ≡ false

-- Seven of the host's calls that change the device's file system.
pub data Change : Type 0 where
  makes : Bytes → ℕ → Change
  unlinks removes : Bytes → Change
  renames links : Bytes → Bytes → Change
  cuts : Bytes → ℕ → Change
  touches : Bytes → ℕ → ℕ → Change

abbrev pub op_of : Change → Op
op_of (makes p mode) = mkdir
op_of (unlinks p) = unlink
op_of (removes p) = rmdir
op_of (renames a b) = rename
op_of (links a b) = symlink
op_of (cuts p size) = truncate
op_of (touches p atime mtime) = utime

abbrev pub args_of : Change → Bytes
args_of (makes p mode) = mkdir_args p mode
args_of (unlinks p) = path_args p
args_of (removes p) = path_args p
args_of (renames a b) = two_path_args a b
args_of (links a b) = two_path_args a b
args_of (cuts p size) = truncate_args p size
args_of (touches p atime mtime) = utime_args p atime mtime

-- Paths that can be asked for, and numbers that fit their fields.
abbrev pub IsAskable : Change → Type 0
IsAskable (makes p mode) = IsPath p × (mode < 2 ^ 32)
IsAskable (unlinks p) = IsPath p
IsAskable (removes p) = IsPath p
IsAskable (renames a b) = IsPath a × IsPath b
IsAskable (links a b) = IsPath a × IsPath b
IsAskable (cuts p size) = IsPath p × (size < 2 ^ 64)
IsAskable (touches p atime mtime) = IsPath p × (atime < 2 ^ 64) × (mtime < 2 ^ 64)

module _ (libc : Libc) where
  open libc use {
    World, mkdir_call, unlink_call, rmdir_call, rename_call, symlink_call, truncate_call,
    utimes_call, pread, pwrite,
  }

  -- What the kernel is to be asked, and how its answer reads.
  abbrev pub asked : Change → World → Bytes × World
  asked (makes p mode) w = unit_reply "mkdir" (mkdir_call p mode w)
  asked (unlinks p) w = unit_reply "unlink" (unlink_call p w)
  asked (removes p) w = unit_reply "rmdir" (rmdir_call p w)
  asked (renames a b) w = unit_reply "rename" (rename_call a b w)
  asked (links a b) w = unit_reply "symlink" (symlink_call a b w)
  asked (cuts p size) w = unit_reply "truncate" (truncate_call p size w)
  asked (touches p atime mtime) w = unit_reply "utimes" (utimes_call p atime mtime w)

  makes_lem :
      (p : Bytes) (mode : ℕ) (w : World)
      → IsAskable (makes p mode)
      → handle_mkdir libc (mkdir_args p mode) w ≡ asked (makes p mode) w
  unfolding handle_mkdir mkdir_args cstring
  makes_lem p mode w a =
      ground (arith, read_path-counted p (le_bytes 4 mode), u32_field mode, length-le_bytes 4 mode)

  unlinks_lem :
      (p : Bytes) (w : World) → IsPath p → handle_unlink libc (path_args p) w ≡ asked (unlinks p) w
  unfolding handle_unlink path_args cstring
  unlinks_lem p w a = ground (arith, read_path-last p)

  renames_lem :
      (a b : Bytes) (w : World)
      → IsPath a
      → IsPath b
      → handle_rename libc (two_path_args a b) w ≡ asked (renames a b) w
  unfolding handle_rename two_path_args cstring
  renames_lem a b w pa pb =
      ground (arith, read_path-counted a (le_bytes 4 (length b) ++ b), read_path-last b)

  removes_lem :
      (p : Bytes) (w : World) → IsPath p → handle_rmdir libc (path_args p) w ≡ asked (removes p) w
  unfolding handle_rmdir path_args cstring
  removes_lem p w a = ground (arith, read_path-last p)

  links_lem :
      (a b : Bytes) (w : World)
      → IsPath a
      → IsPath b
      → handle_symlink libc (two_path_args a b) w ≡ asked (links a b) w
  unfolding handle_symlink two_path_args cstring
  links_lem a b w pa pb =
      ground (arith, read_path-counted a (le_bytes 4 (length b) ++ b), read_path-last b)

  cuts_lem :
      (p : Bytes) (size : ℕ) (w : World)
      → IsAskable (cuts p size)
      → handle_truncate libc (truncate_args p size) w ≡ asked (cuts p size) w
  unfolding handle_truncate truncate_args cstring
  cuts_lem p size w a =
      ground (arith, read_path-counted p (le_bytes 8 size), u64_field size, length-le_bytes 8 size)

  touches_lem :
      (p : Bytes) (atime mtime : ℕ) (w : World)
      → IsAskable (touches p atime mtime)
      → handle_utime libc (utime_args p atime mtime) w ≡ asked (touches p atime mtime) w
  unfolding handle_utime utime_args cstring
  touches_lem p atime mtime w a =
      ground
        (arith, read_path-counted p (le_bytes 8 atime ++ le_bytes 8 mtime), u64_fields atime mtime)

  -- Each of `mkdir`, `unlink`, `rmdir`, `rename`, `symlink`, `truncate` and `utime`, called on the host with
  -- NUL-free paths of at most 4096 bytes and numbers that fit their fields, makes the device call its
  -- kernel once, with exactly those paths and numbers, and answers what the kernel answered; the table
  -- of open files stays.
  pub answer-args_of :
      (c : Change) (conn : ℕ) (m : OwnedFds) (w : World)
      → IsAskable c
      → answer libc (op_code (op_of c)) (args_of c) conn m w ≡ ((asked c w).0, (asked c w).1, m)
  unfolding answer op_code
  answer-args_of (makes p mode) conn m w a = ground (arith, makes_lem p mode w)
  answer-args_of (unlinks p) conn m w a = ground (arith, unlinks_lem p w)
  answer-args_of (removes p) conn m w a = ground (arith, removes_lem p w)
  answer-args_of (renames p q) conn m w a = ground (arith, renames_lem p q w)
  answer-args_of (links p q) conn m w a = ground (arith, links_lem p q w)
  answer-args_of (cuts p size) conn m w a = ground (arith, cuts_lem p size w)
  answer-args_of (touches p atime mtime) conn m w a = ground (arith, touches_lem p atime mtime w)

  read_lem :
      (fd offset len : ℕ) (w : World)
      → fd < 2 ^ 32
      → offset < 2 ^ 64
      → len ≤ max_response
      → handle_read libc (read_args fd offset len) w ≡ read_reply libc (pread fd len offset w)
  unfolding handle_read
  read_lem fd offset len w h k l =
      let f = read_fields fd offset len h k (omega arith) in
      rw (f.0, f.1, f.2, f.3, handle_read) (ground arith)

  write_lem :
      (fd offset : ℕ) (payload : Bytes) (w : World)
      → fd < 2 ^ 32
      → offset < 2 ^ 64
      → length payload < 2 ^ 32
      → handle_write libc (write_args fd offset payload) w
        ≡ write_reply libc (length payload) (pwrite fd payload offset w)
  unfolding handle_write write_args
  write_lem fd offset payload w h k l =
      ground (arith, u32_u64_u32 fd offset (length payload) payload)

  -- A read of at most 8 MiB and a write, through a descriptor and at an offset that fit their fields, make the
  -- device call `pread` and `pwrite` once with that descriptor, that offset and that length or payload,
  -- and answer what the kernel answered.
  pub answer-read_write :
      (fd offset len : ℕ) (payload : Bytes) (conn : ℕ) (m : OwnedFds) (w : World)
      → fd < 2 ^ 32
      → offset < 2 ^ 64
      → len ≤ max_response
      → length payload < 2 ^ 32
      → (answer libc (op_code read) (read_args fd offset len) conn m w ≡ (
        (read_reply libc (pread fd len offset w)).0,
        (read_reply libc (pread fd len offset w)).1,
        m,
      ))
        × (answer libc (op_code write) (write_args fd offset payload) conn m w ≡ (
          (write_reply libc (length payload) (pwrite fd payload offset w)).0,
          (write_reply libc (length payload) (pwrite fd payload offset w)).1,
          m,
        ))
  unfolding answer op_code
  answer-read_write fd offset len payload conn m w h k l l' = (
    λ i. ((read_lem fd offset len w h k l i).0, (read_lem fd offset len w h k l i).1, m),
    λ i.
        ((write_lem fd offset payload w h k l' i).0, (write_lem fd offset payload w h k l' i).1, m),
  )
