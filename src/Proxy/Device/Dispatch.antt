-- ===== src/Proxy/Device/Dispatch.antt =====
-- `dispatch`: one request to one framed reply, on the state that requests share.
pub mod Framed
pub mod Owned
pub mod Malformed
pub mod Misframed
pub mod Truncated
use adbshare.Base.{ℕ, ◌||◌, ◌∷◌, ◌++◌, length, ◌==◌, ℕ_eq, if◌then◌else◌}
use adbshare.Base.Bytes.{Bytes, le_bytes}
use adbshare.Proxy.Device.{Libc, OwnedFds, codes}
use adbshare.Proxy.Device.Files.{handle_open, handle_close, handle_read, handle_write, handle_fstat}
use adbshare.Proxy.Device.Paths.{
  handle_stat, handle_mkdir, handle_unlink, handle_rmdir, handle_rename, handle_truncate,
  handle_realpath, handle_readlink, handle_symlink, handle_utime, handle_statvfs,
}
use adbshare.Proxy.Device.Listing.{handle_listdir}
use adbshare.Proxy.Device.Copy.{handle_copy_file}

module _ (libc : Libc) where
  open libc use {World}

  -- An arm that leaves the table of open files alone.
  abbrev owning : OwnedFds → Bytes × World → Bytes × World × OwnedFds
  owning owned (out, w) = (out, w, owned)

  -- The `match` on the op code: the body of the reply.
  unfoldable pub answer : ℕ → Bytes → ℕ → OwnedFds → World → Bytes × World × OwnedFds
  answer op args conn owned w =
      if op == 0x01
      then handle_open libc args conn owned w
      else if op == 0x02
      then handle_close libc args owned w
      else owning owned (
          if op == 0x03
          then handle_read libc args w
          else if op == 0x04
          then handle_write libc args w
          else if op == 0x05 || op == 0x0F
          then handle_stat libc op args w
          else if op == 0x13
          then handle_fstat libc args w
          else if op == 0x06
          then handle_listdir libc args w
          else if op == 0x07
          then handle_mkdir libc args w
          else if op == 0x08
          then handle_unlink libc args w
          else if op == 0x09
          then handle_rmdir libc args w
          else if op == 0x0A
          then handle_rename libc args w
          else if op == 0x0B
          then handle_truncate libc args w
          else if op == 0x0C
          then handle_realpath libc args w
          else if op == 0x0D
          then handle_readlink libc args w
          else if op == 0x0E
          then handle_symlink libc args w
          else if op == 0x10
          then handle_utime libc args w
          else if op == 0x11
          then handle_statvfs libc args w
          else if op == 0x12
          then handle_copy_file libc args w
          else (0x0B ∷ codes "unknown op", w))

  abbrev framed : Bytes × World × OwnedFds → Bytes × World × OwnedFds
  framed (out, w, owned) = (le_bytes 4 (length out) ++ out, w, owned)

  unfoldable pub dispatch : ℕ → Bytes → ℕ → OwnedFds → World → Bytes × World × OwnedFds
  dispatch op args conn owned w = framed (answer op args conn owned w)
