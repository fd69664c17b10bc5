-- ===== src/Proxy/Device/Files.antt =====
-- The requests that name an open file or open one: the arms 0x01 to 0x04 and 0x13 of `dispatch`.
use adbshare.Base.{ℕ, ◌+◌, ltb, not, [], ◌∷◌, ◌++◌, length, ◌==◌, ℕ_eq, if◌then◌else◌}
use adbshare.Base.Bytes.{Bytes, le_bytes, from_le, slice}
use adbshare.Proxy.Device.{
  Libc, Ret, done, fails, CStat, OwnedFds, track, untrack, c_str, libc_flags, encode_stat, codes,
  short, max_response,
}

module _ (libc : Libc) where
  open libc use {World, open_call, close_call, pread, pwrite, fstat_call}

  abbrev pub opened : ℕ → OwnedFds → Ret ℕ × World → Bytes × World × OwnedFds
  opened conn owned (done fd, w) = (0 ∷ le_bytes 4 fd, w, track fd conn owned)
  opened conn owned (fails e, w) = (0x07 ∷ codes "open", w, owned)

  -- `handle_open`, and the arm that calls it: the path is terminated by hand, with no look at its bytes.
  unfoldable pub handle_open : Bytes → ℕ → OwnedFds → World → Bytes × World × OwnedFds
  unfolding track
  handle_open args conn owned w =
      let path_len = from_le (slice args 8 12) in
      if ltb (length args) 8
      then (short, w, owned)
      else if ltb (length args) 12
      then (short, w, owned)
      else if ltb (length args) (12 + path_len)
      then (short, w, owned)
      else opened conn owned (
          open_call (c_str (slice args 12 (12 + path_len) ++ (0 ∷ [])))
            (libc_flags (from_le (slice args 0 4))) (from_le (slice args 4 8)) w)

  abbrev pub closed : ℕ → OwnedFds → Ret (Unit {0}) × World → Bytes × World × OwnedFds
  closed fd owned (done u, w) = (0 ∷ [], w, untrack fd owned)
  closed fd owned (fails e, w) = (0x07 ∷ codes "close failed", w, owned)

  unfoldable pub handle_close : Bytes → OwnedFds → World → Bytes × World × OwnedFds
  unfolding untrack
  handle_close args owned w =
      let fd = from_le (slice args 0 4) in
      if ltb (length args) 4 then (short, w, owned) else closed fd owned (close_call fd w)

  abbrev pub read_reply : Ret Bytes × World → Bytes × World
  read_reply (done bytes, w) = (0 ∷ bytes, w)
  read_reply (fails e, w) = (0x07 ∷ codes "pread", w)

  unfoldable pub handle_read : Bytes → World → Bytes × World
  handle_read args w =
      let fd = from_le (slice args 0 4) in
      let off = from_le (slice args 4 12) in
      let len = from_le (slice args 12 16) in
      if ltb (length args) 16
      then (short, w)
      else if ltb max_response len
      then (0x07 ∷ codes "too big", w)
      else read_reply (pread fd len off w)

  abbrev pub write_reply : ℕ → Ret ℕ × World → Bytes × World
  write_reply len (done n, w) =
      if not (n == len) then (0x07 ∷ codes "short write", w) else (0 ∷ [], w)
  write_reply len (fails e, w) = (0x07 ∷ codes "pwrite", w)

  unfoldable pub handle_write : Bytes → World → Bytes × World
  handle_write args w =
      let fd = from_le (slice args 0 4) in
      let off = from_le (slice args 4 12) in
      let len = from_le (slice args 12 16) in
      if ltb (length args) 16
      then (short, w)
      else if ltb (length args) (16 + len)
      then (short, w)
      else write_reply len (pwrite fd (slice args 16 (16 + len)) off w)

  abbrev fstat_reply : Ret CStat × World → Bytes × World
  fstat_reply (done st, w) = (0 ∷ encode_stat st, w)
  fstat_reply (fails e, w) = (0x07 ∷ codes "fstat", w)

  unfoldable pub handle_fstat : Bytes → World → Bytes × World
  handle_fstat args w =
      if ltb (length args) 4
      then (0x08 ∷ codes "short fstat", w)
      else fstat_reply (fstat_call (from_le (slice args 0 4)) w)
