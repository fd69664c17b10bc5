-- ===== src/Packet.antt =====
-- ADB wire packets: crates/adb-device/src/packet.rs. A `u32` is a number below `2 ^ 32`, and a
-- header is the list of its 24 bytes. The texts of errors are named by the values they print.
pub mod Codec
pub mod Checksum
mod Examples
use Prim.Native.Nat.{bit_xor}
use mathlib.Core.List.{foldl}
use adbshare.Base.{
  ℕ, ◌+◌, ◌*◌, ◌%◌, ◌^◌, ltb, not, Option, none, some, ◌++◌, length, ◌==◌, ℕ_eq, if◌then◌else◌,
}
use adbshare.Base.Bytes.{Bytes, le_bytes, from_le, slice}

abbrev pub max_payload : ℕ
max_payload = 256 * 1024

abbrev pub a_sync : ℕ
a_sync = 0x434e5953

abbrev pub a_cnxn : ℕ
a_cnxn = 0x4e584e43

abbrev pub a_open : ℕ
a_open = 0x4e45504f

abbrev pub a_okay : ℕ
a_okay = 0x59414b4f

abbrev pub a_clse : ℕ
a_clse = 0x45534c43

abbrev pub a_wrte : ℕ
a_wrte = 0x45545257

abbrev pub a_auth : ℕ
a_auth = 0x48545541

abbrev pub a_fail : ℕ
a_fail = 0xFFFFFFFF

pub data Command : Type 0 where
  sync connect open_cmd okay close write auth fail : Command

unfoldable pub from_u32 : ℕ → Option Command
from_u32 v =
    if v == a_sync
    then some sync
    else if v == a_cnxn
    then some connect
    else if v == a_open
    then some open_cmd
    else if v == a_okay
    then some okay
    else if v == a_clse
    then some close
    else if v == a_wrte
    then some write
    else if v == a_auth
    then some auth
    else if v == a_fail
    then some fail
    else none

unfoldable pub as_u32 : Command → ℕ
as_u32 sync = a_sync
as_u32 connect = a_cnxn
as_u32 open_cmd = a_open
as_u32 okay = a_okay
as_u32 close = a_clse
as_u32 write = a_wrte
as_u32 auth = a_auth
as_u32 fail = a_fail

-- The errors of `error.rs` that decoding and encoding return.
pub data AdbError : Type 0 where
  protocol_length : ℕ → AdbError
  unknown_command : ℕ → AdbError
  magic_mismatch : AdbError
  length_mismatch : ℕ → ℕ → AdbError
  crc_mismatch : ℕ → ℕ → AdbError

pub data Result {ℓ} (A : Type ℓ) : Type ℓ where
  ok : A → Result A
  err : AdbError → Result A

pub record Message : Type 0 where
  pub command : Command
  pub arg0 : ℕ
  pub arg1 : ℕ
  pub payload : Bytes

abbrev pub header_len : ℕ
header_len = 24

-- `a.wrapping_add(b)` over the payload, from 0
unfoldable pub data_checksum : Bytes → ℕ
data_checksum = foldl (λ a b. (a + b) % 2 ^ 32) 0

-- The `magic` field: the bitwise complement of the command.
unfoldable pub magic_of : Command → ℕ
unfolding as_u32
magic_of c = bit_xor (as_u32 c) 0xFFFFFFFF

unfoldable pub try_encode : Message → Result Bytes
try_encode m =
    let len = length m.payload in
    if ltb len (2 ^ 32)
    then ok (
        le_bytes 4 (as_u32 m.command)
        ++ (le_bytes 4 m.arg0
            ++ (le_bytes 4 m.arg1
                ++ (le_bytes 4 len
                    ++ (le_bytes 4 (data_checksum m.payload)
                        ++ (le_bytes 4 (magic_of m.command) ++ m.payload))))))
    else err (protocol_length len)

-- `expect`: `none` is the panic.
unfoldable pub encode : Message → Option Bytes
encode m = elim (try_encode m) [ ok buf ↦ some buf | err e ↦ none ]

-- `u32::from_le_bytes([h[i], h[i + 1], h[i + 2], h[i + 3]])`
unfoldable pub u32_at : Bytes → ℕ → ℕ
u32_at h i = from_le (slice h i (i + 4))

abbrev check_payload : Command → Bytes → Bytes → Result Message
check_payload c h payload =
    if not (u32_at h 20 == magic_of c)
    then err magic_mismatch
    else if not (u32_at h 12 == length payload)
    then err (length_mismatch (length payload) (u32_at h 12))
    else if not (data_checksum payload == u32_at h 16)
    then err (crc_mismatch (data_checksum payload) (u32_at h 16))
    else ok (record { command = c; arg0 = u32_at h 4; arg1 = u32_at h 8; payload = payload })

unfoldable pub decode : Bytes → Bytes → Result Message
decode h payload = elim (from_u32 (u32_at h 0)) [
  | none ↦ err (unknown_command (u32_at h 0))
  | some c ↦ check_payload c h payload
]
