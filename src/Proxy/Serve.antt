-- ===== src/Proxy/Serve.antt =====
-- `handle_connection` (crates/adbshare-proxy-device/src/main.rs): the requests of one connection, read
-- from its chunks, dispatched in order and answered.
--
-- `display` is the decimal printer of `format!`. The idle watchdog, the log and a failed write, which ends
-- the connection, are not modelled, and no other connection works on the kernel in between.
pub mod RoundTrip
use adbshare.Base.{ℕ, ◌*◌, Option, none, some, List, [], ◌∷◌, ◌++◌, length, get_or}
use adbshare.Base.Bytes.{Bytes, le_bytes}
use adbshare.Proxy.Device.{Libc, OwnedFds, codes, max_request}
use adbshare.Proxy.Device.Dispatch.{answer, dispatch}
use adbshare.Proxy.Framing.{Frame, Reader, start, read_chunks}

-- The reply to a request that claims too much, after which the connection is dropped.
unfoldable pub refusal : (ℕ → Bytes) → ℕ → Bytes
refusal display len =
    let out = 0x08 ∷ (codes "request too big: " ++ (display len ++ codes " bytes")) in
    le_bytes 4 (length out) ++ out

module _ (libc : Libc) (display : ℕ → Bytes) (conn : ℕ) where
  open libc use {World}

  -- The replies to requests that are read whole, one after the other.
  unfoldable pub serve_frames : List Frame → OwnedFds → World → Bytes × World × OwnedFds
  serve_frames [] m w = ([], w, m)
  serve_frames (f ∷ fs) m w =
      let (out, w', m') = dispatch libc (get_or f.head 0 0) f.body conn m w in
      let (outs, w'', m'') = serve_frames fs m' w' in (out ++ outs, w'', m'')

  abbrev with_refusal : Option ℕ → Bytes × World × OwnedFds → Bytes × World × OwnedFds
  with_refusal none r = r
  with_refusal (some len) (outs, w, m) = (outs ++ refusal display len, w, m)

  unfoldable pub handle_connection : List Bytes → OwnedFds → World → Bytes × World × OwnedFds
  unfolding serve_frames
  handle_connection chunks m w =
      let r = read_chunks 1 max_request start chunks in
      with_refusal r.refused (serve_frames r.frames m w)
