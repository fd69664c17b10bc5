-- ===== src/Pairing/Examples.antt =====
-- A header and a short key, and the properties at them.
use adbshare.Base.{◌≡◌, refl, [], ◌∷◌, length, ne_of_eq_false, ℕ_eq, arith}
use adbshare.Base.Bytes.{Bytes}
use adbshare.Pairing.{peer_info_size, ok, encode_header, decode_header, peer_info, parse_peer_info}
use adbshare.Pairing.Headers.{decode_header-encode_header}
use adbshare.Pairing.PeerInfo.{parse_peer_info-peer_info}

decode_header-encode_header_example :
    (h : Bytes) × (encode_header 1 8192 ≡ ok h) × (decode_header h ≡ ok (1, 8192))
decode_header-encode_header_example =
    decode_header-encode_header 1 8192 (omega arith) (omega arith) (omega arith)

parse_peer_info-peer_info_example :
    (info : Bytes) × (peer_info (65 ∷ 66 ∷ []) ≡ ok info)
    × (length info ≡ peer_info_size)
    × (parse_peer_info info ≡ ok (0, 65 ∷ 66 ∷ []))
parse_peer_info-peer_info_example =
    parse_peer_info-peer_info (65 ∷ 66 ∷ []) (ne_of_eq_false refl) (omega arith)
