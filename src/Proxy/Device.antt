-- ===== src/Proxy/Device.antt =====
-- The device-side proxy: crates/adbshare-proxy-device/src/main.rs.
--
-- The kernel is the parameter `Libc`: one function for each call that the source makes, over a state
-- `World` of its own. A path that reaches it is a C string, given by its bytes before the NUL. A call
-- that fails leaves its `errno`. A signed argument is passed as its bit pattern. The log is not
-- modelled.
pub mod Files
pub mod Paths
pub mod Listing
pub mod Copy
pub mod Dispatch
pub mod Mock
use Prim.Native.Nat.{bit_and, bit_or}
use Prim.Native.Char.{code}
use Prim.Native.String
use adbshare.Base.{
  ℕ, ◌+◌, ◌*◌, ltb, leb, String, Bool, true, false, not, ◌&&◌, ◌||◌, Option, none, some, List, [],
  ◌∷◌, ◌++◌, length, take, drop, count_where, ◌==◌, ℕ_eq, list_eq, if◌then◌else◌, max,
}
use adbshare.Base.Bytes.{Bytes, le_bytes, from_le, slice}
use adbshare.Base.Assoc.{Assoc, insert, remove}

abbrev pub max_request : ℕ
max_request = 8 * 1024 * 1024

abbrev pub max_path : ℕ
max_path = 4096

abbrev pub max_response : ℕ
max_response = 8 * 1024 * 1024

abbrev pub listdir_page : ℕ
listdir_page = 16384

-- The fields of `libc::stat` that the program reads.
pub record CStat : Type 0 where
  pub st_mode : ℕ
  pub st_size : ℕ
  pub st_mtime : ℕ
  pub st_atime : ℕ
  pub st_ctime : ℕ
  pub st_uid : ℕ
  pub st_gid : ℕ
  pub st_nlink : ℕ
  pub st_blksize : ℕ
  pub st_blocks : ℕ

pub record CStatVfs : Type 0 where
  pub f_bavail : ℕ
  pub f_blocks : ℕ
  pub f_bsize : ℕ

-- What a call returns: a value, or -1 and an `errno`.
pub data Ret {ℓ} (A : Type ℓ) : Type ℓ where
  done : A → Ret A
  fails : ℕ → Ret A

-- The fields of `std::fs::Metadata`, and of the `stat` of `fstatat`, that the copy reads.
pub record Metadata : Type 0 where
  pub is_file : Bool
  pub is_dir : Bool
  pub len : ℕ
  pub dev : ℕ
  pub ino : ℕ

pub record Libc : Type 1 where
  pub World : Type 0
  pub open_call : Bytes → ℕ → ℕ → World → Ret ℕ × World
  pub close_call : ℕ → World → Ret (Unit {0}) × World
  pub pread : ℕ → ℕ → ℕ → World → Ret Bytes × World
  pub pwrite : ℕ → Bytes → ℕ → World → Ret ℕ × World
  pub stat_call : Bytes → World → Ret CStat × World
  pub lstat_call : Bytes → World → Ret CStat × World
  pub fstat_call : ℕ → World → Ret CStat × World
  pub mkdir_call : Bytes → ℕ → World → Ret (Unit {0}) × World
  pub unlink_call : Bytes → World → Ret (Unit {0}) × World
  pub rmdir_call : Bytes → World → Ret (Unit {0}) × World
  pub rename_call : Bytes → Bytes → World → Ret (Unit {0}) × World
  pub truncate_call : Bytes → ℕ → World → Ret (Unit {0}) × World
  pub realpath_call : Bytes → World → Ret Bytes × World
  pub readlink_call : Bytes → ℕ → World → Ret Bytes × World
  pub symlink_call : Bytes → Bytes → World → Ret (Unit {0}) × World
  pub utimes_call : Bytes → ℕ → ℕ → World → Ret (Unit {0}) × World
  pub statvfs_call : Bytes → World → Ret CStatVfs × World
  -- `opendir`, `readdir` to the end and `closedir`: the names, in the order of the directory.
  pub names_in : Bytes → World → Ret (List Bytes) × World
  -- The calls of `do_copy_file`: `std::fs` opens with `O_NOFOLLOW | O_NONBLOCK` and `O_DIRECTORY`,
  -- `openat` with `O_WRONLY | O_CREAT | O_EXCL | O_NOFOLLOW`, `io::copy` of at most so many bytes,
  -- `sync_all`, `fstatat` without following, and `unlinkat`.
  pub open_source : Bytes → World → Ret ℕ × World
  pub open_directory : Bytes → World → Ret ℕ × World
  pub openat_new : ℕ → Bytes → World → Ret ℕ × World
  pub metadata : ℕ → World → Ret Metadata × World
  pub copy_bytes : ℕ → ℕ → ℕ → World → Ret ℕ × World
  pub sync_all : ℕ → World → Ret (Unit {0}) × World
  pub fstatat : ℕ → Bytes → World → Ret Metadata × World
  pub unlinkat : ℕ → Bytes → World → Ret (Unit {0}) × World
  -- `Path::file_name` and `Path::parent` of an absolute path.
  pub file_name : Bytes → Option Bytes
  pub parent : Bytes → Bytes
  pub strerror : ℕ → Bytes

-- The bytes of an ASCII text.
abbrev pub codes : String → Bytes
codes String.[] = []
codes (String.◌∷◌ c s) = code c ∷ codes s

-- A file descriptor is owned by the connection that opened it.
abbrev pub OwnedFds : Type 0
OwnedFds = Assoc ℕ ℕ

unfoldable pub track : ℕ → ℕ → OwnedFds → OwnedFds
unfolding insert
track fd conn m = insert fd conn m

unfoldable pub untrack : ℕ → OwnedFds → OwnedFds
unfolding remove
untrack fd m = remove fd m

unfoldable pub count_for : ℕ → OwnedFds → ℕ
count_for conn m = count_where (λ e. e.1 == conn) m

-- `read_path`
unfoldable pub read_path : Bytes → Option (Bytes × Bytes)
read_path args =
    let len = from_le (slice args 0 4) in
    if ltb (length args) 4
    then none
    else if ltb max_path len || ltb (length args) (4 + len)
    then none
    else some (slice args 4 (4 + len), drop (4 + len) args)

abbrev pub has_nul : Bytes → Bool
has_nul [] = false
has_nul (b ∷ bs) = (b == 0) || has_nul bs

-- `cstring`: `CString::new` refuses an inner NUL.
unfoldable pub cstring : Bytes → Option Bytes
cstring path = if has_nul path then none else some path

-- What libc reads at a pointer to these bytes.
abbrev pub c_str : Bytes → Bytes
c_str [] = []
c_str (b ∷ bs) = let rest = c_str bs in if b == 0 then [] else b ∷ rest

abbrev pub starts_with_slash : Bytes → Bool
starts_with_slash [] = false
starts_with_slash (b ∷ bs) = b == b'/'

abbrev pub bad_copy_path : Bytes → Bool
bad_copy_path p = not (starts_with_slash p) || has_nul p

abbrev is_empty : Bytes → Bool
is_empty [] = true
is_empty (b ∷ bs) = false

-- `read_two_paths`
unfoldable pub read_two_paths : Bytes → Option (Bytes × Bytes)
read_two_paths args = elim (read_path args) [
  | none ↦ none
  | some (src, rest) ↦ elim (read_path rest) [
    | none ↦ none
    | some (dst, rest') ↦
        if not (is_empty rest') || (bad_copy_path src || bad_copy_path dst)
        then none
        else some (src, dst)
  ]
]

-- `handle_open`: the translation of the wire's flags.
abbrev has_flag : ℕ → ℕ → Bool
has_flag flags f = not (bit_and flags f == 0)

abbrev with_flag : Bool → ℕ → ℕ → ℕ
with_flag b f flags = if b then bit_or flags f else flags

unfoldable pub libc_flags : ℕ → ℕ
libc_flags p =
    let access =
      if has_flag p 0x1 && has_flag p 0x2
      then with_flag true 0o2 0
      else if has_flag p 0x2
      then with_flag true 0o1 0
      else with_flag true 0o0 0 in
    with_flag (has_flag p 0x20) 0o2000 (
      with_flag (has_flag p 0x10) 0o1000
        (with_flag (has_flag p 0x8) 0o200 (with_flag (has_flag p 0x4) 0o100 access)))

-- `stat_error`: the status for an errno. Linux numbers: ENOENT 2, EPERM 1, EACCES 13, ENOTDIR 20,
-- ELOOP 40, ENAMETOOLONG 36, EINVAL 22.
unfoldable pub stat_status : ℕ → ℕ
stat_status errno =
    if errno == 2
    then 0x01
    else if errno == 13 || errno == 1
    then 0x02
    else if errno == 20
    then 0x04
    else if errno == 40
    then 0x08
    else if errno == 36
    then 0x0A
    else 0x07

-- `copy_error`: EISDIR 21, EEXIST 17, ENOSPC 28.
unfoldable pub copy_status : ℕ → ℕ
copy_status errno =
    if errno == 2
    then 0x01
    else if errno == 13 || errno == 1
    then 0x02
    else if errno == 21
    then 0x03
    else if errno == 20
    then 0x04
    else if errno == 17
    then 0x05
    else if errno == 22 || errno == 40
    then 0x08
    else if errno == 28
    then 0x09
    else if errno == 36
    then 0x0A
    else 0x07

unfoldable pub encode_stat : CStat → Bytes
encode_stat st =
    le_bytes 4 st.st_mode
    ++ (le_bytes 8 st.st_size
        ++ (le_bytes 8 st.st_mtime
            ++ (le_bytes 8 st.st_atime
                ++ (le_bytes 8 st.st_ctime
                    ++ (le_bytes 4 st.st_uid
                        ++ (le_bytes 4 st.st_gid
                            ++ (le_bytes 4 st.st_nlink
                                ++ (le_bytes 4 st.st_blksize ++ le_bytes 8 st.st_blocks))))))))

-- A reply body: a status byte, then text or a payload.
abbrev pub bad_path : Bytes
bad_path = 0x08 ∷ codes "bad path"

abbrev pub short : Bytes
short = 0x08 ∷ codes "short"

-- `if r == 0 { 0 } else { 0x07, name }`
abbrev pub unit_reply {ℓ} : {W : Type ℓ} → String → Ret (Unit {0}) × W → Bytes × W
unit_reply name (done u, w) = (0 ∷ [], w)
unit_reply name (fails e, w) = (0x07 ∷ codes name, w)
