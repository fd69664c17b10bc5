-- ===== src/Pairing/Headers.antt =====
-- Packet headers, there and back.
use adbshare.Base.{ℕ, ◌/◌, ◌%◌, ◌^◌, ◌≤◌, ◌<◌, ◌≡◌, sym, ◌∙◌, [], ◌∷◌, ℕ_eq, arith}
use adbshare.Base.Bytes.{Bytes, IsBytes}
use adbshare.Pairing.{max_payload, ok, be_u32, from_be_u32, encode_header, decode_header}

from_be_u32-be_u32 :
    (n : ℕ)
    → n ≤ max_payload
    → from_be_u32 (n / 2 ^ 24 % 256) (n / 2 ^ 16 % 256) (n / 2 ^ 8 % 256) (n % 256) ≡ n
from_be_u32-be_u32 n h = omega (arith, h)

decode_header-of_parts :
    (t a b c d n : ℕ)
    → t ≤ 1
    → from_be_u32 a b c d ≡ n
    → 1 ≤ n
    → n ≤ max_payload
    → decode_header (1 ∷ t ∷ a ∷ b ∷ c ∷ d ∷ []) ≡ ok (t, n)
unfolding decode_header
decode_header-of_parts t a b c d n h e k l = rw (e, decode_header) (ground arith)

-- A header is written for each payload of 1 to 16384 bytes, and is read back as the packet's type, where
-- that is one of the two, and the length.
pub decode_header-encode_header :
    (t n : ℕ)
    → t ≤ 1
    → 1 ≤ n
    → n ≤ max_payload
    → (h : Bytes) × (encode_header t n ≡ ok h) × (decode_header h ≡ ok (t, n))
unfolding encode_header
decode_header-encode_header t n k a b = (
  1 ∷ t ∷ be_u32 n,
  ground arith,
  decode_header-of_parts t (n / 2 ^ 24 % 256) (n / 2 ^ 16 % 256) (n / 2 ^ 8 % 256) (n % 256) n k
      (from_be_u32-be_u32 n b) a b,
)

decode_header_inverted :
    (v t a b c d p n : ℕ)
    → decode_header (v ∷ t ∷ a ∷ b ∷ c ∷ d ∷ []) ≡ ok (p, n)
    → (v ≡ 1) × (t ≡ p) × (from_be_u32 a b c d ≡ n) × (1 ≤ n) × (n ≤ max_payload)
unfolding decode_header
decode_header_inverted v t a b c d p n e = ground arith

be_u32-from_be_u32 :
    (a b c d n : ℕ)
    → from_be_u32 a b c d ≡ n
    → a < 256
    → b < 256
    → c < 256
    → d < 256
    → be_u32 n ≡ a ∷ b ∷ c ∷ d ∷ []
be_u32-from_be_u32 a b c d n e ha hb hc hd =
    let pa : n / 2 ^ 24 % 256 ≡ a = omega arith in
    let pb : n / 2 ^ 16 % 256 ≡ b = omega arith in
    let pc : n / 2 ^ 8 % 256 ≡ c = omega arith in
    let pd : n % 256 ≡ d = omega arith in λ i. pa i ∷ pb i ∷ pc i ∷ pd i ∷ []

encode_header-of_parts :
    (v p t n : ℕ) (bytes : Bytes)
    → v ≡ 1
    → t ≡ p
    → 1 ≤ n
    → n ≤ max_payload
    → be_u32 n ≡ bytes
    → encode_header p n ≡ ok (v ∷ t ∷ bytes)
unfolding encode_header
encode_header-of_parts v p t n bytes hv ht h k w =
    let e : encode_header p n ≡ ok (1 ∷ p ∷ be_u32 n) = ground (arith, h, k) in
    e ∙ λ i. ok (sym hv i ∷ sym ht i ∷ w i)

-- A header that is accepted is the one that is written for its type and length, so there is one for each.
pub encode_header-decode_header :
    (v t a b c d p n : ℕ)
    → IsBytes (v ∷ t ∷ a ∷ b ∷ c ∷ d ∷ [])
    → decode_header (v ∷ t ∷ a ∷ b ∷ c ∷ d ∷ []) ≡ ok (p, n)
    → encode_header p n ≡ ok (v ∷ t ∷ a ∷ b ∷ c ∷ d ∷ [])
encode_header-decode_header v t a b c d p n i e =
    let h = decode_header_inverted v t a b c d p n e in
    let w = be_u32-from_be_u32 a b c d n h.2 i.1.1.0 i.1.1.1.0 i.1.1.1.1.0 i.1.1.1.1.1.0 in
    encode_header-of_parts v p t n (a ∷ b ∷ c ∷ d ∷ []) h.0 h.1 h.3 h.4 w
