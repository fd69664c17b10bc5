-- ===== src/Proxy/Ops/Codec.antt =====
-- `Stat` and status codes survive the wire.
use adbshare.Base.{
  ℕ, ◌+◌, ◌^◌, ◌≤◌, ◌<◌, ◌≡◌, refl, some, ◌++◌, length, length-append, ap, ◌∙◌, arith,
}
use adbshare.Base.Bytes.{Bytes, le_bytes, from_le, slice, from_le_u32, from_le_u64}
use adbshare.Proxy.Ops.{Status, ok, not_supported, status_code, from_u8, Stat, encode, decode}

-- Each field holds a value of its Rust type.
pub record InRange (s : Stat) : Type 0 where
  pub mode : s.mode < 2 ^ 32
  pub size : s.size < 2 ^ 64
  pub mtime : s.mtime < 2 ^ 64
  pub atime : s.atime < 2 ^ 64
  pub ctime : s.ctime < 2 ^ 64
  pub uid : s.uid < 2 ^ 32
  pub gid : s.gid < 2 ^ 32
  pub nlink : s.nlink < 2 ^ 32
  pub blksize : s.blksize < 2 ^ 32
  pub blocks : s.blocks < 2 ^ 64

pub length-encode : (s : Stat) → length (encode s) ≡ 60
unfolding encode le_bytes
length-encode s = refl

fields : Bytes → Stat
fields bytes = record {
  mode = from_le (slice bytes 0 4);
  size = from_le (slice bytes 4 12);
  mtime = from_le (slice bytes 12 20);
  atime = from_le (slice bytes 20 28);
  ctime = from_le (slice bytes 28 36);
  uid = from_le (slice bytes 36 40);
  gid = from_le (slice bytes 40 44);
  nlink = from_le (slice bytes 44 48);
  blksize = from_le (slice bytes 48 52);
  blocks = from_le (slice bytes 52 60);
}

decode_long : (bytes : Bytes) → 60 ≤ length bytes → decode bytes ≡ some (fields bytes)
unfolding decode fields
decode_long bytes h = ground arith

fields-encode : (s : Stat) (rest : Bytes) → InRange s → fields (encode s ++ rest) ≡ s
unfolding fields encode le_bytes from_le slice
fields-encode s rest r = λ i. record {
  mode = from_le_u32 s.mode r.mode i;
  size = from_le_u64 s.size r.size i;
  mtime = from_le_u64 s.mtime r.mtime i;
  atime = from_le_u64 s.atime r.atime i;
  ctime = from_le_u64 s.ctime r.ctime i;
  uid = from_le_u32 s.uid r.uid i;
  gid = from_le_u32 s.gid r.gid i;
  nlink = from_le_u32 s.nlink r.nlink i;
  blksize = from_le_u32 s.blksize r.blksize i;
  blocks = from_le_u64 s.blocks r.blocks i;
}

-- A `Stat` whose fields hold values of their types is encoded in 60 bytes, and `decode` reads it back from
-- the front of any buffer that begins with them.
pub decode-encode :
    (s : Stat) (rest : Bytes)
    → InRange s
    → (length (encode s) ≡ 60) × (decode (encode s ++ rest) ≡ some s)
decode-encode s rest r = (
  length-encode s,
  decode_long (encode s ++ rest) (omega (arith, length-append (encode s) rest, length-encode s))
      ∙ ap some (fields-encode s rest r),
)

-- Every status byte that stands for a status is read as it, and every other byte as `NotSupported`.
pub from_u8_lem :
    (s : Status) (v : ℕ) → (from_u8 (status_code s) ≡ s) × (from_u8 (12 + v) ≡ not_supported)
unfolding from_u8 status_code
from_u8_lem ok v = (refl, ground arith)
from_u8_lem _ v = (refl, ground arith)
