-- ===== src/Proxy/Listing/Request.antt =====
-- One request on a connection, through both read loops: `request` of crates/adb-proxy/src/client.rs, and
-- the page that `listdir_page` asks for with it. A time-out, which is not modelled, is no answer.
use mathlib.Core.List.{append-nil}
use adbshare.Base.{ℕ, ◌+◌, ◌≤◌, ◌≡◌, refl, ap, ◌∙◌, List, [], ◌∷◌, ◌++◌, length, arith}
use adbshare.Base.Bytes.{Bytes, le_bytes}
use adbshare.Proxy.Ops.{Op, op_code, list_dir}
use adbshare.Proxy.Device.{Libc, OwnedFds, max_request, max_response}
use adbshare.Proxy.Device.Dispatch.{answer, dispatch}
use adbshare.Proxy.Framing.{Frame, start, read_chunks}
use adbshare.Proxy.Framing.Sent.{wire_of, encode_frame, read_chunks-wire_of}
use adbshare.Proxy.Client.{
  Result, ok, err, closed, ◌>>=◌, request_bytes, read_response, listdir_args,
}
use adbshare.Proxy.Serve.{serve_frames, handle_connection}
use adbshare.Proxy.Serve.RoundTrip.{requests_fit, replies_fit, handle_connection-sent}
use adbshare.Proxy.Listing.{DirEntry, parse_dir_page}

-- `rx.recv()`: the reader that refused a frame has closed the channel.
abbrev pub recv : List Frame → Result Bytes
recv [] = err closed
recv (f ∷ fs) = read_response f.body

module _ (libc : Libc) (display : ℕ → Bytes) (conn : ℕ) where
  open libc use {World}

  -- The reader of a reply that came back over the wire.
  abbrev pub received : Bytes × World × OwnedFds → Result Bytes × (OwnedFds × World)
  received (out, w, m) = (recv (read_chunks 0 (max_response + 1) start (out ∷ [])).frames, (m, w))

  abbrev exchange : Result Bytes → OwnedFds × World → Result Bytes × (OwnedFds × World)
  exchange (err e) s = (err e, s)
  exchange (ok bytes) (m, w) = received (handle_connection libc display conn (bytes ∷ []) m w)

  unfoldable pub request : Op → Bytes → OwnedFds × World → Result Bytes × (OwnedFds × World)
  unfolding handle_connection
  request op args s = exchange (request_bytes op args) s

  -- `listdir_page`, with the size of the page.
  unfoldable pub fetch_page :
      (Bytes → Bytes)
      → Bytes
      → ℕ
      → ℕ
      → OwnedFds × World
      → Result (List DirEntry) × (OwnedFds × World)
  unfolding request
  fetch_page lossy path page offset s =
      let (r, s') = request list_dir (listdir_args path offset page) s in
      (r >>= parse_dir_page lossy, s')

  request_bytes_lem :
      (op : Op) (args : Bytes)
      → length args ≤ max_request
      → request_bytes op args ≡ ok (encode_frame (record { head = op_code op ∷ []; body = args }))
  unfolding request_bytes
  request_bytes_lem op args h = ground (arith, requests_fit)

  -- A request of at most 8 MiB whose reply the host does not refuse ends as the device's answer to it.
  pub request_lem :
      (op : Op) (args out : Bytes) (m m' : OwnedFds) (w w' : World)
      → length args ≤ max_request
      → answer libc (op_code op) args conn m w ≡ (out, w', m')
      → length out ≤ max_response + 1
      → request op args (m, w) ≡ (read_response out, (m', w'))
  unfolding request serve_frames dispatch
  request_lem op args out m m' w w' h a k =
      let f : Frame = record { head = op_code op ∷ []; body = args } in
      let reply : Frame = record { head = []; body = out } in
      ap (λ r. exchange r (m, w)) (request_bytes_lem op args h)
      ∙ ap received (
          handle_connection-sent libc display conn (f ∷ []) (encode_frame f ∷ []) m w
            ((refl, h), tt) refl)
      ∙ ap (λ r. received ((le_bytes 4 (length r.0) ++ r.0) ++ [], r.1, r.2)) a
      ∙ ap (λ r. (recv r.frames, (m', w')))
          (read_chunks-wire_of 0 (max_response + 1) replies_fit (reply ∷ [])
            (wire_of (reply ∷ []) ∷ []) ((refl, k), tt) (append-nil (wire_of (reply ∷ []))))
