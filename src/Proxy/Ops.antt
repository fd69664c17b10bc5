-- ===== src/Proxy/Ops.antt =====
-- Wire types and op codes of the proxy protocol: crates/adb-proxy/src/ops.rs.
--
-- An `i64` is kept as its 64-bit pattern, a number below `2 ^ 64`.
pub mod Codec
use Prim.Native.Nat.{bit_and, bit_or}
use adbshare.Base.{ℕ, ltb, Bool, not, Option, none, some, ◌++◌, length, ◌==◌, ℕ_eq, if◌then◌else◌}
use adbshare.Base.Bytes.{Bytes, le_bytes, from_le, slice}

pub data Op : Type 0 where
  open_file close read write stat list_dir mkdir unlink rmdir rename truncate : Op
  read_link symlink lstat utime disk_usage copy_file fstat : Op

-- `op as u8`
unfoldable pub op_code : Op → ℕ
op_code open_file = 0x01
op_code close = 0x02
op_code read = 0x03
op_code write = 0x04
op_code stat = 0x05
op_code list_dir = 0x06
op_code mkdir = 0x07
op_code unlink = 0x08
op_code rmdir = 0x09
op_code rename = 0x0A
op_code truncate = 0x0B
op_code read_link = 0x0D
op_code symlink = 0x0E
op_code lstat = 0x0F
op_code utime = 0x10
op_code disk_usage = 0x11
op_code copy_file = 0x12
op_code fstat = 0x13

pub data Status : Type 0 where
  ok not_found permission_denied is_dir not_dir exists not_empty : Status
  io_error invalid_arg no_space name_too_long not_supported : Status

-- `status as u8`
unfoldable pub status_code : Status → ℕ
status_code ok = 0x00
status_code not_found = 0x01
status_code permission_denied = 0x02
status_code is_dir = 0x03
status_code not_dir = 0x04
status_code exists = 0x05
status_code not_empty = 0x06
status_code io_error = 0x07
status_code invalid_arg = 0x08
status_code no_space = 0x09
status_code name_too_long = 0x0A
status_code not_supported = 0x0B

-- `Status::from_u8`
unfoldable pub from_u8 : ℕ → Status
from_u8 v =
    if v == 0x00
    then ok
    else if v == 0x01
    then not_found
    else if v == 0x02
    then permission_denied
    else if v == 0x03
    then is_dir
    else if v == 0x04
    then not_dir
    else if v == 0x05
    then exists
    else if v == 0x06
    then not_empty
    else if v == 0x07
    then io_error
    else if v == 0x08
    then invalid_arg
    else if v == 0x09
    then no_space
    else if v == 0x0A
    then name_too_long
    else not_supported

abbrev pub flag_read : ℕ
flag_read = 0x1

abbrev pub flag_write : ℕ
flag_write = 0x2

-- `OpenFlags::from_octal`
unfoldable pub from_octal : ℕ → ℕ
from_octal mode =
    let f = if not (bit_and mode 0o444 == 0) then bit_or 0 flag_read else 0 in
    if not (bit_and mode 0o222 == 0) then bit_or f flag_write else f

abbrev s_ifmt : ℕ
s_ifmt = 0o170000

unfoldable pub mode_is_dir : ℕ → Bool
mode_is_dir mode = bit_and mode s_ifmt == 0o040000

unfoldable pub mode_is_symlink : ℕ → Bool
mode_is_symlink mode = bit_and mode s_ifmt == 0o120000

unfoldable pub permissions : ℕ → ℕ
permissions mode = bit_and mode 0o7777

pub record Stat : Type 0 where
  pub mode : ℕ
  pub size : ℕ
  pub mtime : ℕ
  pub atime : ℕ
  pub ctime : ℕ
  pub uid : ℕ
  pub gid : ℕ
  pub nlink : ℕ
  pub blksize : ℕ
  pub blocks : ℕ

unfoldable pub encode : Stat → Bytes
encode s =
    le_bytes 4 s.mode
    ++ (le_bytes 8 s.size
        ++ (le_bytes 8 s.mtime
            ++ (le_bytes 8 s.atime
                ++ (le_bytes 8 s.ctime
                    ++ (le_bytes 4 s.uid
                        ++ (le_bytes 4 s.gid
                            ++ (le_bytes 4 s.nlink
                                ++ (le_bytes 4 s.blksize ++ le_bytes 8 s.blocks))))))))

unfoldable pub decode : Bytes → Option Stat
decode bytes =
    if ltb (length bytes) 60
    then none
    else some (record {
      mode = from_le (slice bytes 0 4);
      size = from_le (slice bytes 4 12);
      mtime = from_le (slice bytes 12 20);
      atime = from_le (slice bytes 20 28);
      ctime = from_le (slice bytes 28 36);
      uid = from_le (slice bytes 36 40);
      gid = from_le (slice bytes 40 44);
      nlink = from_le (slice bytes 44 48);
      blksize = from_le (slice bytes 48 52);
      blocks = from_le (slice bytes 52 60);
    })
