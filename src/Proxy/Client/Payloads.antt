-- ===== src/Proxy/Client/Payloads.antt =====
-- The payloads of replies, read by the host as the device wrote them.
use mathlib.Core.List.{append-nil}
use adbshare.Base.{
  ℕ, ◌+◌, ◌*◌, ◌^◌, ◌≤◌, ◌<◌, ◌≡◌, ◌≢◌, ◌-◌, min, refl, sym, ap, ◌∙◌, [], ◌∷◌, ◌++◌, length,
  length-append, arith,
}
use adbshare.Base.Bytes.{
  Bytes, le_bytes, from_le, slice, length-le_bytes, from_le_u32, from_le_u64, slice-append,
}
use adbshare.Proxy.Ops.{Status, status_code, from_u8}
use adbshare.Proxy.Device.Paths.{counted}
use adbshare.Proxy.Client.{
  ok, err, status_error, read_response, read_target, disk_usage, saturating_mul,
}

-- The `statvfs` reply, and what the host makes of it: products of blocks and their size.
abbrev pub usage_bytes : ℕ → ℕ → ℕ → Bytes
usage_bytes avail blocks bsize = le_bytes 8 avail ++ (le_bytes 8 blocks ++ le_bytes 8 bsize)

read_target-of_parts :
    (resp target : Bytes) (n : ℕ)
    → from_le (slice resp 0 4) ≡ n
    → slice resp 4 (4 + n) ≡ target
    → 4 + n ≤ length resp
    → read_target resp ≡ ok target
unfolding read_target
read_target-of_parts resp target n a b c = ground arith

-- A link's target shorter than 4 GiB is read back as the very bytes that the device counted and sent.
pub read_target-counted :
    (target : Bytes) → length target < 2 ^ 32 → read_target (counted target) ≡ ok target
read_target-counted target h =
    let count = le_bytes 4 (length target) in
    let four = length-le_bytes 4 (length target) in
    read_target-of_parts (count ++ target) target (length target)
      (ap from_le (slice-append [] count target 0 4 refl four) ∙ from_le_u32 (length target) h)
      (ap (λ t. slice (count ++ t) 4 (4 + length target)) (sym (append-nil target))
        ∙ slice-append count target [] 4 (length target) four refl)
      (omega (arith, length-append count target, four))

pub read_response-Ok :
    (payload : Bytes) → read_response (status_code Status.ok ∷ payload) ≡ ok payload
unfolding read_response status_code from_u8
read_response-Ok payload = refl

other_status :
    (s : Status) (payload : Bytes)
    → s ≢ Status.ok
    → read_response (status_code s ∷ payload) ≡ err (status_error s payload)
unfolding read_response status_code from_u8
other_status Status.ok payload n = absurd (n refl)
other_status _ payload n = refl

usage_parts :
    (avail blocks bsize : ℕ)
    → avail < 2 ^ 64
    → blocks < 2 ^ 64
    → bsize < 2 ^ 64
    → (from_le (slice (usage_bytes avail blocks bsize) 0 8) ≡ avail)
      × (from_le (slice (usage_bytes avail blocks bsize) 8 16) ≡ blocks)
      × (from_le (slice (usage_bytes avail blocks bsize) 16 24) ≡ bsize)
      × (length (usage_bytes avail blocks bsize) ≡ 24)
unfolding slice le_bytes from_le
usage_parts avail blocks bsize a b c =
    (from_le_u64 avail a, from_le_u64 blocks b, from_le_u64 bsize c, refl)

disk_usage-of_parts :
    (bytes : Bytes) (avail blocks bsize : ℕ)
    → from_le (slice bytes 0 8) ≡ avail
    → from_le (slice bytes 8 16) ≡ blocks
    → from_le (slice bytes 16 24) ≡ bsize
    → 24 ≤ length bytes
    → disk_usage bytes
      ≡ ok (record {
        avail_bytes = saturating_mul avail bsize;
        total_bytes = saturating_mul blocks bsize;
      })
unfolding disk_usage
disk_usage-of_parts bytes avail blocks bsize a b c h = ground arith

-- The three 64-bit words that the device sends for a mount are read by the host as available and total
-- bytes, each the exact product of its blocks and their size where that fits 64 bits and the largest
-- 64-bit number where it does not.
pub disk_usage-usage_bytes :
    (avail blocks bsize : ℕ)
    → avail < 2 ^ 64
    → blocks < 2 ^ 64
    → bsize < 2 ^ 64
    → disk_usage (usage_bytes avail blocks bsize)
      ≡ ok (record {
        avail_bytes = min (avail * bsize) (2 ^ 64 - 1);
        total_bytes = min (blocks * bsize) (2 ^ 64 - 1);
      })
disk_usage-usage_bytes avail blocks bsize a b c =
    let f = usage_parts avail blocks bsize a b c in
    disk_usage-of_parts (usage_bytes avail blocks bsize) avail blocks bsize f.0 f.1 f.2
      (omega (arith, f.3))
