-- ===== src/Packet/Examples.antt =====
-- A write frame with a short payload, and the properties of the codec at it.
use adbshare.Base.{◌≡◌, refl, [], ◌∷◌, ◌++◌, take, drop, arith}
use adbshare.Base.Bytes.{Bytes, le_bytes, from_le, slice}
use adbshare.Packet.{
  Message, write, as_u32, magic_of, data_checksum, header_len, ok, err, crc_mismatch, try_encode,
  decode, from_u32, u32_at,
}
use adbshare.Packet.Codec.{decode-try_encode, try_encode-decode, decode-altered}

abbrev hello : Message
hello = record { command = write; arg0 = 7; arg1 = 300; payload = 104 ∷ 105 ∷ [] }

-- "WRTE", 7, 300, length 2, checksum 209 and the complement of the command
abbrev hello_header : Bytes
hello_header =
    0x57 ∷ 0x52 ∷ 0x54 ∷ 0x45 ∷ 7 ∷ 0 ∷ 0 ∷ 0 ∷ 44 ∷ 1 ∷ 0 ∷ 0 ∷ 2 ∷ 0 ∷ 0 ∷ 0 ∷ 209 ∷ 0 ∷ 0 ∷ 0
    ∷ 0xa8 ∷ 0xad ∷ 0xab ∷ 0xba ∷ []

hello_frame : try_encode hello ≡ ok (hello_header ++ hello.payload)
unfolding try_encode as_u32 magic_of data_checksum le_bytes
hello_frame = refl

hello_decoded : decode hello_header (104 ∷ 105 ∷ []) ≡ ok hello
unfolding decode from_u32 u32_at magic_of data_checksum slice from_le
hello_decoded = refl

decode-try_encode_example :
    (buf : Bytes) × (try_encode hello ≡ ok buf)
    × (decode (take header_len buf) (drop header_len buf) ≡ ok hello)
decode-try_encode_example = decode-try_encode hello (omega arith) (omega arith) (omega arith)

try_encode-decode_example : try_encode hello ≡ ok (hello_header ++ hello.payload)
try_encode-decode_example =
    try_encode-decode hello_header hello.payload hello (omega arith) refl hello_decoded

decode-altered_example :
    decode hello_header (104 ∷ 106 ∷ [])
    ≡ err (crc_mismatch (data_checksum (104 ∷ 106 ∷ [])) (data_checksum (104 ∷ 105 ∷ [])))
decode-altered_example =
    decode-altered hello_header (104 ∷ []) [] hello 105 106 (omega arith) (omega arith)
      (omega arith) hello_decoded
