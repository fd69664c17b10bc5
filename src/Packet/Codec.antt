-- ===== src/Packet/Codec.antt =====
-- Frames survive the wire, and `decode` accepts nothing but what `try_encode` writes.
use adbshare.Base.{
  ℕ, ◌+◌, ◌-◌, ◌≢◌, ◌∷◌, length-append, ◌^◌, ◌<◌, ◌≤◌, ap, sym, ◌∙◌, ◌≡◌, refl, ℕ_eq, some, ◌++◌,
  ◌∷◌, length, take, drop, drop-all, arith, lt→ltb,
}
use adbshare.Base.Bytes.{
  Bytes, le_bytes, from_le, from_le_u32, from_le-lt, IsBytes, IsBytes-take, IsBytes-drop, slice,
  le_bytes-from_le_at, length-slice, field-append,
}
use adbshare.Packet.Checksum.{data_checksum-lt, data_checksum-ne}
use adbshare.Packet.{
  Command, sync, from_u32, as_u32, magic_of, Message, ok, err, crc_mismatch, header_len,
  data_checksum, try_encode, decode, u32_at,
}

pub as_u32-lt : (c : Command) → as_u32 c < 2 ^ 32
unfolding as_u32
as_u32-lt sync = omega arith
as_u32-lt _ = omega arith

pub magic_of-lt : (c : Command) → magic_of c < 2 ^ 32
unfolding magic_of
magic_of-lt sync = omega arith
magic_of-lt _ = omega arith

pub from_u32-as_u32 : (c : Command) → from_u32 (as_u32 c) ≡ some c
unfolding from_u32 as_u32
from_u32-as_u32 sync = refl
from_u32-as_u32 _ = refl

pub as_u32-from_u32 : (v : ℕ) (c : Command) → from_u32 v ≡ some c → as_u32 c ≡ v
unfolding from_u32 as_u32
as_u32-from_u32 v c h = ground arith

-- What a header must hold for `decode` to accept it.
pub record Fits (h payload : Bytes) (m : Message) : Type 0 where
  pub at_command : u32_at h 0 ≡ as_u32 m.command
  pub at_arg0 : u32_at h 4 ≡ m.arg0
  pub at_arg1 : u32_at h 8 ≡ m.arg1
  pub at_length : u32_at h 12 ≡ length payload
  pub at_crc : u32_at h 16 ≡ data_checksum payload
  pub at_magic : u32_at h 20 ≡ magic_of m.command
  pub same_payload : m.payload ≡ payload

decode-of-Fits : (h payload : Bytes) (m : Message) → Fits h payload m → decode h payload ≡ ok m
unfolding decode
decode-of-Fits h payload m f = rw (f.at_command, decode, from_u32-as_u32 m.command) (ground arith)

pub Fits-of-decode : (h payload : Bytes) (m : Message) → decode h payload ≡ ok m → Fits h payload m
unfolding decode
Fits-of-decode h payload m e = ground (arith, as_u32-from_u32 (u32_at h 0) m.command)

module _ (m : Message) (fits0 : m.arg0 < 2 ^ 32) (fits1 : m.arg1 < 2 ^ 32) where
  abbrev frame : Bytes
  frame =
      le_bytes 4 (as_u32 m.command)
      ++ (le_bytes 4 m.arg0
          ++ (le_bytes 4 m.arg1
              ++ (le_bytes 4 (length m.payload)
                  ++ (le_bytes 4 (data_checksum m.payload)
                      ++ (le_bytes 4 (magic_of m.command) ++ m.payload)))))

  frame-Fits : length m.payload < 2 ^ 32 → Fits (take header_len frame) (drop header_len frame) m
  unfolding u32_at le_bytes slice from_le
  frame-Fits h = record {
    at_command = from_le_u32 (as_u32 m.command) (as_u32-lt m.command);
    at_arg0 = from_le_u32 m.arg0 fits0;
    at_arg1 = from_le_u32 m.arg1 fits1;
    at_length = from_le_u32 (length m.payload) h;
    at_crc = from_le_u32 (data_checksum m.payload) (data_checksum-lt m.payload);
    at_magic = from_le_u32 (magic_of m.command) (magic_of-lt m.command);
    same_payload = refl;
  }

  -- A message that fits its fields is encoded, and the reader, which splits the frame after its 24
  -- header bytes, gets the message back.
  pub decode-try_encode :
      length m.payload < 2 ^ 32
      → (buf : Bytes) × (try_encode m ≡ ok buf)
        × (decode (take header_len buf) (drop header_len buf) ≡ ok m)
  unfolding try_encode
  decode-try_encode h = (
    frame,
    rw (lt→ltb (length m.payload) (2 ^ 32) h),
    decode-of-Fits (take header_len frame) (drop header_len frame) m (frame-Fits h),
  )

module _ (h payload : Bytes) (m : Message) (bytes : IsBytes h) (sized : length h ≡ header_len) where
  field : (i : ℕ) → i + 4 ≤ header_len → le_bytes 4 (u32_at h i) ≡ slice h i (i + 4)
  unfolding u32_at slice
  field i fits =
      le_bytes-from_le_at 4 (slice h i (i + 4))
        (IsBytes-take (i + 4 - i) (drop i h) (IsBytes-drop i h bytes))
        (length-slice h i 4 (omega arith))

  fields-append :
      slice h 0 4
        ++ (slice h 4 8
            ++ (slice h 8 12 ++ (slice h 12 16 ++ (slice h 16 20 ++ (slice h 20 24 ++ payload)))))
      ≡ h ++ payload
  unfolding slice
  fields-append =
      let last : slice h 20 24 ++ payload ≡ drop 20 h ++ payload =
        ap (λ t. slice h 20 24 ++ (t ++ payload)) (sym (drop-all 24 h (omega arith)))
        ∙ field-append 4 20 h payload in
      rw (
        last,
        field-append 4 16 h payload,
        field-append 4 12 h payload,
        field-append 4 8 h payload,
        field-append 4 4 h payload,
        field-append 4 0 h payload,
      )

  length-payload-lt : Fits h payload m → length payload < 2 ^ 32
  unfolding u32_at slice
  length-payload-lt f = omega (
    arith,
    f.at_length,
    from_le-lt (slice h 12 16) (IsBytes-take 4 (drop 12 h) (IsBytes-drop 12 h bytes)),
    ap (λ (n : ℕ). 256 ^ n) (length-slice h 12 4 (omega arith)),
  )

  -- Whatever `decode` accepts is the frame that `try_encode` writes for the message it returns:
  -- no two headers stand for one message, and no field of a header goes unchecked.
  pub try_encode-decode : decode h payload ≡ ok m → try_encode m ≡ ok (h ++ payload)
  unfolding try_encode
  try_encode-decode e =
      let f : Fits h payload m = Fits-of-decode h payload m e in
      rw
        (
          f.same_payload,
          lt→ltb (length payload) (2 ^ 32) (length-payload-lt f),
          ← f.at_command,
          ← f.at_arg0,
          ← f.at_arg1,
          ← f.at_length,
          ← f.at_crc,
          ← f.at_magic,
          field 0 (omega arith),
          field 4 (omega arith),
          field 8 (omega arith),
          field 12 (omega arith),
          field 16 (omega arith),
          field 20 (omega arith),
        )
        (ap ok fields-append)

length-altered : (xs ys : Bytes) (b c : ℕ) → length (xs ++ (b ∷ ys)) ≡ length (xs ++ (c ∷ ys))
length-altered xs ys b c = omega (arith, length-append xs (b ∷ ys), length-append xs (c ∷ ys))

-- A frame that is accepted is refused, with the two checksums, once any one byte of its payload is
-- replaced by another.
pub decode-altered :
    (h xs ys : Bytes) (m : Message) (b c : ℕ)
    → b < 256
    → c < 256
    → b ≢ c
    → decode h (xs ++ (b ∷ ys)) ≡ ok m
    → decode h (xs ++ (c ∷ ys))
      ≡ err (crc_mismatch (data_checksum (xs ++ (c ∷ ys))) (data_checksum (xs ++ (b ∷ ys))))
unfolding decode
decode-altered h xs ys m b c hb hc ne e =
    let f : Fits h (xs ++ (b ∷ ys)) m = Fits-of-decode h (xs ++ (b ∷ ys)) m e in
    rw (f.at_command, decode, from_u32-as_u32 m.command)
      (ground (arith, f, length-altered xs ys b c, data_checksum-ne xs ys b c hb hc ne))
