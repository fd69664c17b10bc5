-- ===== src/Proxy/Framing/Sent.antt =====
-- Frames that one side writes are the frames that the other side reads.
use mathlib.Core.List.{append_assoc, append-nil}
use adbshare.Base.{
  ℕ, zero, suc, ◌+◌, ◌≤◌, ◌<◌, ◌^◌, ◌≡◌, refl, sym, ap, ◌∙◌, none, List, [], ◌∷◌, ◌++◌, length,
  take, drop, length-append, arith,
}
use adbshare.Base.Bytes.{
  Bytes, joined, le_bytes, from_le, slice, length-le_bytes, from_le_u32, slice-append,
  drop-append_at, take-append_at,
}
use adbshare.Proxy.Framing.{Frame, cut, cut_frame, start, take_frames, on_chunk, read_chunks}
use adbshare.Proxy.Framing.Chunks.{
  read_chunks-joined, take-cut, take-more, cut_frame-nil, on_chunk-open,
}

-- What the writer puts on the wire.
abbrev pub encode_frame : Frame → Bytes
encode_frame f = f.head ++ (le_bytes 4 (length f.body) ++ f.body)

-- The frames one after the other.
abbrev pub wire_of : List Frame → Bytes
wire_of [] = []
wire_of (f ∷ fs) = encode_frame f ++ wire_of fs

-- A frame of a connection that the reader will not refuse.
abbrev pub IsSendable : ℕ → ℕ → Frame → Type 0
IsSendable at limit f = (length f.head ≡ at) × (length f.body ≤ limit)

abbrev pub AreSendable : ℕ → ℕ → List Frame → Type 0
AreSendable at limit [] = Unit {0}
AreSendable at limit (f ∷ fs) = IsSendable at limit f × AreSendable at limit fs

length-encode_frame-append :
    (f : Frame) (rest : Bytes) → length rest < length (encode_frame f ++ rest)
unfolding le_bytes
length-encode_frame-append f rest = omega (
  arith,
  length-append (encode_frame f) rest,
  length-append f.head (le_bytes 4 (length f.body) ++ f.body),
)

module _ (at limit : ℕ) (word : limit < 2 ^ 32) where
  module _ (f : Frame) (rest : Bytes) (s : IsSendable at limit f) where
    wire : Bytes
    wire = encode_frame f ++ rest

    wire_parts : wire ≡ f.head ++ (le_bytes 4 (length f.body) ++ (f.body ++ rest))
    unfolding wire
    wire_parts =
        append_assoc f.head (le_bytes 4 (length f.body) ++ f.body) rest
        ∙ ap (λ t. f.head ++ t) (append_assoc (le_bytes 4 (length f.body)) f.body rest)

    wire_regrouped : wire ≡ (f.head ++ le_bytes 4 (length f.body)) ++ (f.body ++ rest)
    wire_regrouped =
        wire_parts ∙ sym (append_assoc f.head (le_bytes 4 (length f.body)) (f.body ++ rest))

    length-header : length (f.head ++ le_bytes 4 (length f.body)) ≡ at + 4
    length-header = omega (
      arith,
      s,
      length-append f.head (le_bytes 4 (length f.body)),
      length-le_bytes 4 (length f.body),
    )

    claimed : from_le (slice wire at (at + 4)) ≡ length f.body
    claimed =
        ap (λ t. from_le (slice t at (at + 4))) wire_parts
        ∙ ap from_le (
            slice-append f.head (le_bytes 4 (length f.body)) (f.body ++ rest) at 4 s.0
              (length-le_bytes 4 (length f.body)))
        ∙ from_le_u32 (length f.body) (omega (arith, s))

    body_there : slice wire (at + 4) (at + 4 + length f.body) ≡ f.body
    body_there =
        ap (λ t. slice t (at + 4) (at + 4 + length f.body)) wire_regrouped
        ∙ slice-append (f.head ++ le_bytes 4 (length f.body)) f.body rest (at + 4) (length f.body)
            length-header refl

    rest_there : drop (at + 4 + length f.body) wire ≡ rest
    unfolding wire
    rest_there = drop-append_at (encode_frame f) rest (at + 4 + length f.body) (
        omega (
          arith,
          s,
          length-append f.head (le_bytes 4 (length f.body) ++ f.body),
          length-append (le_bytes 4 (length f.body)) f.body,
          length-le_bytes 4 (length f.body),
        ))

    head_there : take at wire ≡ f.head
    head_there = ap (take at) wire_parts ∙ take-append_at f.head _ at s.0

    length-wire : at + 4 + length f.body ≤ length wire
    length-wire = omega (
      arith,
      ap (length {A = ℕ}) wire_regrouped,
      length-append (f.head ++ le_bytes 4 (length f.body)) (f.body ++ rest),
      length-append f.body rest,
      length-header,
    )

    cut_frame-wire : cut_frame at limit wire ≡ cut f rest
    unfolding cut_frame
    cut_frame-wire =
        rw (claimed, body_there, rest_there, head_there) (ground (arith, s, length-wire))

  cut_frame-encode :
      (f : Frame) (rest : Bytes)
      → IsSendable at limit f
      → cut_frame at limit (encode_frame f ++ rest) ≡ cut f rest
  unfolding wire
  cut_frame-encode f rest s = cut_frame-wire f rest s

  take_frames-wire_of :
      (n : ℕ) (fs before : List Frame)
      → AreSendable at limit fs
      → length (wire_of fs) ≤ n
      → take_frames at limit n (record { frames = before; buf = wire_of fs; refused = none })
        ≡ record { frames = before ++ fs; buf = []; refused = none }
  take_frames-wire_of n [] before s h =
      take-more at limit n (record { frames = before; buf = []; refused = none })
        (cut_frame-nil at limit)
      ∙ λ i. record { frames = sym (append-nil before) i; buf = []; refused = none }
  take_frames-wire_of zero (f ∷ fs) before s h =
      absurd (omega (arith, length-encode_frame-append f (wire_of fs)))
  take_frames-wire_of (suc n) (f ∷ fs) before s h =
      take-cut at limit n (record { frames = before; buf = wire_of (f ∷ fs); refused = none }) f
        (wire_of fs) (cut_frame-encode f (wire_of fs) s.0)
      ∙ take_frames-wire_of n fs (before ++ (f ∷ [])) s.1
          (omega (arith, length-encode_frame-append f (wire_of fs)))
      ∙ λ i. record { frames = append_assoc before (f ∷ []) fs i; buf = []; refused = none }

  -- Whatever list of frames one side writes, each with a head of the right size and a body within the
  -- other side's limit, and however the stream cuts the bytes into chunks, the reader handles
  -- exactly those frames, in order, and is left open with an empty buffer.
  pub read_chunks-wire_of :
      (fs : List Frame) (cs : List Bytes)
      → AreSendable at limit fs
      → joined cs ≡ wire_of fs
      → read_chunks at limit start cs ≡ record { frames = fs; buf = []; refused = none }
  read_chunks-wire_of fs cs s e =
      read_chunks-joined at limit cs
      ∙ ap (on_chunk at limit start) e
      ∙ on_chunk-open at limit start (wire_of fs) refl
      ∙ take_frames-wire_of (0 + length (wire_of fs)) fs [] s (omega arith)
