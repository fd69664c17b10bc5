-- ===== src/Pairing.antt =====
-- The frames of pairing: crates/adb-pairing/src/packet.rs.
--
-- A header is its six bytes, a public key the bytes of its text.
pub mod Headers
pub mod PeerInfo
mod Examples
use adbshare.Base.{
  ℕ, zero, suc, ◌+◌, ◌-◌, ◌*◌, ◌/◌, ◌%◌, ◌^◌, ltb, leb, Bool, true, false, not, ◌&&◌, ◌||◌, List,
  [], ◌∷◌, ◌++◌, length, get_or, ◌==◌, ℕ_eq, if◌then◌else◌,
}
use adbshare.Base.Bytes.{Bytes}

abbrev pub max_payload : ℕ
max_payload = 16384

abbrev pub peer_info_size : ℕ
peer_info_size = 8192

pub data Error : Type 0 where
  bad_payload_length bad_version unknown_type bad_packet_length key_too_long wrong_size : Error

pub data Result {ℓ} (A : Type ℓ) : Type ℓ where
  ok : A → Result A
  err : Error → Result A

-- `(n as u32).to_be_bytes()`
abbrev pub be_u32 : ℕ → Bytes
be_u32 n = n / 2 ^ 24 % 256 ∷ n / 2 ^ 16 % 256 ∷ n / 2 ^ 8 % 256 ∷ n % 256 ∷ []

-- `u32::from_be_bytes`
abbrev pub from_be_u32 : ℕ → ℕ → ℕ → ℕ → ℕ
from_be_u32 a b c d = a * 2 ^ 24 + b * 2 ^ 16 + c * 2 ^ 8 + d

unfoldable pub encode_header : ℕ → ℕ → Result Bytes
encode_header packet_type payload_len =
    if payload_len == 0 || ltb max_payload payload_len
    then err bad_payload_length
    else ok (1 ∷ packet_type ∷ be_u32 payload_len)

unfoldable pub decode_header : Bytes → Result (ℕ × ℕ)
decode_header header =
    let len =
      from_be_u32 (get_or header 2 0) (get_or header 3 0) (get_or header 4 0) (get_or header 5 0) in
    if not (get_or header 0 0 == 1)
    then err bad_version
    else if not (get_or header 1 0 == 0) && not (get_or header 1 0 == 1)
    then err unknown_type
    else if len == 0 || ltb max_payload len
    then err bad_packet_length
    else ok (get_or header 1 0, len)

abbrev pub zeros : ℕ → Bytes
zeros zero = []
zeros (suc n) = 0 ∷ zeros n

unfoldable pub peer_info : Bytes → Result Bytes
peer_info key =
    if leb (peer_info_size - 1) (length key)
    then err key_too_long
    else ok (0 ∷ (key ++ zeros (peer_info_size - 1 - length key)))

abbrev is_empty : Bytes → Bool
is_empty [] = true
is_empty (b ∷ bs) = false

-- `while data.last() == Some(&0) { data.pop(); }`
abbrev pub cut_nuls : Bytes → Bytes
cut_nuls [] = []
cut_nuls (b ∷ bs) = let rest = cut_nuls bs in if is_empty rest && b == 0 then [] else b ∷ rest

unfoldable pub parse_peer_info : Bytes → Result (ℕ × Bytes)
parse_peer_info [] = err wrong_size
parse_peer_info (kind ∷ rest) =
    if not (length (kind ∷ rest) == peer_info_size)
    then err wrong_size
    else ok (kind, cut_nuls rest)
