-- ===== src/Proxy/Framing.antt =====
-- Frames on a byte stream: the read loops of `handle_connection`
-- (crates/adbshare-proxy-device/src/main.rs) and of `ProxyConn::open` (crates/adb-proxy/src/client.rs).
--
-- Both loops are one: a frame is `at` bytes of head, a `u32` length and that many bytes of body. The
-- device reads requests (`at` is 1, the op code), the host replies (`at` is 0). A `Reader` holds the
-- frames handled so far; a chunk is what one `read_buf` returned. A frame that claims too much ends
-- the connection, and its buffer goes with it.
pub mod Chunks
pub mod Sent
use adbshare.Base.{
  ℕ, zero, suc, ◌+◌, ◌*◌, ltb, Option, none, some, List, [], ◌∷◌, ◌++◌, length, take, drop,
  if◌then◌else◌,
}
use adbshare.Base.Bytes.{Bytes, le_bytes, from_le, slice}

pub record Frame : Type 0 where
  pub head : Bytes
  pub body : Bytes

pub data Cut : Type 0 where
  more : Cut
  too_big : ℕ → Cut
  cut : Frame → Bytes → Cut

module _ (at limit : ℕ) where
  -- One round: is there a header, does it claim too much, is the whole frame there?
  unfoldable pub cut_frame : Bytes → Cut
  cut_frame buf =
      let len = from_le (slice buf at (at + 4)) in
      if ltb (length buf) (at + 4)
      then more
      else if ltb limit len
      then too_big len
      else if ltb (length buf) (at + 4 + len)
      then more
      else cut (record { head = take at buf; body = slice buf (at + 4) (at + 4 + len) })
          (drop (at + 4 + len) buf)

-- The two sides.
unfoldable pub next_request : Bytes → Cut
unfolding cut_frame
next_request = cut_frame 1 (8 * 1024 * 1024)

unfoldable pub next_reply : Bytes → Cut
unfolding cut_frame
next_reply = cut_frame 0 (8 * 1024 * 1024 + 1)

pub record Reader : Type 0 where
  pub frames : List Frame
  pub buf : Bytes
  -- The length that the frame claimed which ended the connection.
  pub refused : Option ℕ

abbrev pub start : Reader
start = record { frames = []; buf = []; refused = none }

module _ (at limit : ℕ) where
  -- The loop until it has to read again. Each frame shortens the buffer, so its length is fuel enough.
  unfoldable pub take_frames : ℕ → Reader → Reader
  take_frames zero r = r
  take_frames (suc n) r = elim (cut_frame at limit r.buf) [
    | more ↦ r
    | too_big len ↦ record r { buf = []; refused = some len }
    | cut f rest ↦ take_frames n (record r { frames = r.frames ++ (f ∷ []); buf = rest })
  ]

  unfoldable pub on_chunk : Reader → Bytes → Reader
  on_chunk r chunk = elim r.refused [
    | none ↦ take_frames (length r.buf + length chunk) (record r { buf = r.buf ++ chunk })
    | some len ↦ r
  ]

  unfoldable pub read_chunks : Reader → List Bytes → Reader
  read_chunks r [] = r
  read_chunks r (c ∷ cs) = read_chunks (on_chunk r c) cs
