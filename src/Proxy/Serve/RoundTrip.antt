-- ===== src/Proxy/Serve/RoundTrip.antt =====
-- Requests and replies through both read loops.
use adbshare.Base.{
  ℕ, ◌+◌, ◌^◌, ◌<◌, ◌≡◌, refl, ap, ◌∙◌, none, List, [], ◌∷◌, ◌++◌, length, get_or, arith,
}
use adbshare.Base.Bytes.{Bytes, joined, le_bytes}
use adbshare.Proxy.Device.{Libc, OwnedFds, max_request, max_response}
use adbshare.Proxy.Device.Dispatch.{answer, dispatch}
use adbshare.Proxy.Framing.{Frame, start, read_chunks}
use adbshare.Proxy.Framing.Sent.{AreSendable, wire_of, read_chunks-wire_of}
use adbshare.Proxy.Serve.{serve_frames, handle_connection}

pub requests_fit : max_request < 2 ^ 32
requests_fit = omega arith

pub replies_fit : max_response + 1 < 2 ^ 32
replies_fit = omega arith

-- Requests of the host, each with an op byte and at most 8 MiB of arguments.
abbrev pub AreRequests : List Frame → Type 0
AreRequests = AreSendable 1 max_request

-- Replies that the host does not refuse.
abbrev pub AreReplies : List Frame → Type 0
AreReplies = AreSendable 0 (max_response + 1)

module _ (libc : Libc) (display : ℕ → Bytes) (conn : ℕ) where
  open libc use {World}

  -- The answers to requests made one after the other, as the frames that the host should see.
  abbrev pub replies : List Frame → OwnedFds → World → List Frame
  replies [] m w = []
  replies (f ∷ fs) m w =
      let (out, w', m') = answer libc (get_or f.head 0 0) f.body conn m w in
      record { head = []; body = out } ∷ replies fs m' w'

  serve_frames-wire_of :
      (fs : List Frame) (m : OwnedFds) (w : World)
      → (serve_frames libc display conn fs m w).0 ≡ wire_of (replies fs m w)
  unfolding serve_frames dispatch
  serve_frames-wire_of [] m w = refl
  serve_frames-wire_of (f ∷ fs) m w =
      let (out, w', m') = answer libc (get_or f.head 0 0) f.body conn m w in
      ap (λ t. (le_bytes 4 (length out) ++ out) ++ t) (serve_frames-wire_of fs m' w')

  pub handle_connection-sent :
      (fs : List Frame) (cs : List Bytes) (m : OwnedFds) (w : World)
      → AreRequests fs
      → joined cs ≡ wire_of fs
      → handle_connection libc display conn cs m w ≡ serve_frames libc display conn fs m w
  unfolding handle_connection
  handle_connection-sent fs cs m w s e =
      rw (read_chunks-wire_of 1 max_request requests_fit fs cs s e, handle_connection) refl

  -- Requests of at most 8 MiB, written one after the other and cut into chunks anyhow on their way to the
  -- device, are each dispatched once, in order; and the replies, if each is at most 8 MiB and a status,
  -- again cut anyhow on their way back, are read by the host as exactly the answers, in order.
  pub handle_connection-replies :
      (fs : List Frame) (to_device to_host : List Bytes) (m : OwnedFds) (w : World)
      → AreRequests fs
      → joined to_device ≡ wire_of fs
      → AreReplies (replies fs m w)
      → joined to_host ≡ (handle_connection libc display conn to_device m w).0
      → read_chunks 0 (max_response + 1) start to_host
        ≡ record { frames = replies fs m w; buf = []; refused = none }
  handle_connection-replies fs to_device to_host m w s e s' e' =
      read_chunks-wire_of 0 (max_response + 1) replies_fit (replies fs m w) to_host s' (
        e'
        ∙ ap (λ r. r.0) (handle_connection-sent fs to_device m w s e)
        ∙ serve_frames-wire_of fs m w)
