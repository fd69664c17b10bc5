-- ===== src/Proxy/Client.antt =====
-- The host side's requests and replies: crates/adb-proxy/src/client.rs.
--
-- A path is its bytes. The pool, the time-outs and the tasks that own the socket are not modelled here:
-- a request is what `request` writes, and a reply is what it makes of the frame that comes back.
pub mod Fields
pub mod Reaches
pub mod Payloads
use adbshare.Base.{
  ℕ, ◌+◌, ◌-◌, ◌*◌, ◌^◌, min, ltb, leb, not, String, List, [], ◌∷◌, ◌++◌, length, drop, ◌==◌, ℕ_eq,
  if◌then◌else◌,
}
use adbshare.Base.Bytes.{Bytes, le_bytes, from_le, slice}
use adbshare.Proxy.Ops.{Op, op_code, Status, from_u8}

abbrev pub max_request : ℕ
max_request = 8 * 1024 * 1024

pub data ProxyError : Type 0 where
  closed : ProxyError
  too_large : ℕ → ProxyError
  status_error : Status → Bytes → ProxyError
  invalid : String → ProxyError

pub data Result {ℓ} (A : Type ℓ) : Type ℓ where
  ok : A → Result A
  err : ProxyError → Result A

infixl 5 ◌>>=◌
abbrev pub ◌>>=◌ {ℓ κ} : {A : Type ℓ} {B : Type κ} → Result A → (A → Result B) → Result B
ok a >>= f = f a
err e >>= f = err e

-- `request`, up to the write: `[op u8][len u32 LE][args]`.
unfoldable pub request_bytes : Op → Bytes → Result Bytes
request_bytes op args =
    let len = length args in
    if ltb max_request len
    then err (too_large len)
    else if not (ltb len (2 ^ 32))
    then err (too_large len)
    else ok ((op_code op ∷ []) ++ (le_bytes 4 len ++ args))

-- `status != Status::Ok`
abbrev data_or_error : Status → Bytes → Result Bytes
data_or_error Status.ok payload = ok payload
data_or_error s payload = err (status_error s payload)

-- `request`, from the reply frame on. The text of an error status is kept as its bytes.
unfoldable pub read_response : Bytes → Result Bytes
read_response [] = err (invalid "empty response frame")
read_response (b ∷ payload) = data_or_error (from_u8 b) payload

-- The arguments of each method.
unfoldable pub path_args : Bytes → Bytes
path_args path = le_bytes 4 (length path) ++ path

unfoldable pub two_path_args : Bytes → Bytes → Bytes
two_path_args a b = le_bytes 4 (length a) ++ (a ++ (le_bytes 4 (length b) ++ b))

unfoldable pub listdir_args : Bytes → ℕ → ℕ → Bytes
listdir_args path offset page =
    le_bytes 4 (length path) ++ (path ++ (le_bytes 4 offset ++ le_bytes 4 page))

unfoldable pub open_args : Bytes → ℕ → ℕ → Bytes
open_args path flags mode =
    le_bytes 4 flags ++ (le_bytes 4 mode ++ (le_bytes 4 (length path) ++ path))

unfoldable pub mkdir_args : Bytes → ℕ → Bytes
mkdir_args path mode = le_bytes 4 (length path) ++ (path ++ le_bytes 4 mode)

unfoldable pub truncate_args : Bytes → ℕ → Bytes
truncate_args path size = le_bytes 4 (length path) ++ (path ++ le_bytes 8 size)

unfoldable pub utime_args : Bytes → ℕ → ℕ → Bytes
utime_args path atime mtime =
    le_bytes 4 (length path) ++ (path ++ (le_bytes 8 atime ++ le_bytes 8 mtime))

unfoldable pub read_args : ℕ → ℕ → ℕ → Bytes
read_args fd offset len = le_bytes 4 fd ++ (le_bytes 8 offset ++ le_bytes 4 len)

unfoldable pub write_args : ℕ → ℕ → Bytes → Bytes
write_args fd offset payload =
    le_bytes 4 fd ++ (le_bytes 8 offset ++ (le_bytes 4 (length payload) ++ payload))

unfoldable pub fd_args : ℕ → Bytes
fd_args fd = le_bytes 4 fd

-- `open`, from the payload of the reply on.
unfoldable pub read_fd : Bytes → Result ℕ
read_fd resp =
    if ltb (length resp) 4
    then err (invalid "open response short")
    else ok (from_le (slice resp 0 4))

-- `readlink`, from the payload of the reply on.
unfoldable pub read_target : Bytes → Result Bytes
read_target resp =
    let n = from_le (slice resp 0 4) in
    if ltb (length resp) 4
    then err (invalid "readlink decode")
    else if ltb (length resp) (4 + n)
    then err (invalid "readlink length")
    else ok (slice resp 4 (4 + n))

pub record DiskUsage : Type 0 where
  pub avail_bytes : ℕ
  pub total_bytes : ℕ

abbrev pub saturating_mul : ℕ → ℕ → ℕ
saturating_mul a b = min (a * b) (2 ^ 64 - 1)

-- `DiskUsage::decode`
unfoldable pub disk_usage : Bytes → Result DiskUsage
disk_usage bytes =
    if leb 24 (length bytes)
    then ok (record {
      avail_bytes = saturating_mul (from_le (slice bytes 0 8)) (from_le (slice bytes 16 24));
      total_bytes = saturating_mul (from_le (slice bytes 8 16)) (from_le (slice bytes 16 24));
    })
    else if leb 12 (length bytes)
    then ok (record {
      avail_bytes = saturating_mul (from_le (slice bytes 0 4)) (from_le (slice bytes 8 12));
      total_bytes = saturating_mul (from_le (slice bytes 4 8)) (from_le (slice bytes 8 12));
    })
    else err (invalid "diskusage decode")
