-- ===== src/Proxy/Client/Fields.antt =====
-- The arguments of requests, field by field, as the device reads them.
use mathlib.Core.List.{append-nil, append_assoc}
use adbshare.Base.{
  ℕ, ◌+◌, ◌-◌, ◌^◌, ◌≤◌, ◌<◌, ◌≡◌, refl, sym, ap, ◌∙◌, some, [], ◌++◌, length, length-append, drop,
  take-length, arith,
}
use adbshare.Base.Bytes.{
  Bytes, le_bytes, from_le, slice, length-le_bytes, from_le_u32, from_le_u64, slice-append,
  drop-append_at,
}
use adbshare.Proxy.Device.{max_path, read_path}
use adbshare.Proxy.Client.{read_args}

read_path-of_parts :
    (args path rest : Bytes) (n : ℕ)
    → from_le (slice args 0 4) ≡ n
    → slice args 4 (4 + n) ≡ path
    → drop (4 + n) args ≡ rest
    → n ≤ max_path
    → 4 + n ≤ length args
    → read_path args ≡ some (path, rest)
unfolding read_path
read_path-of_parts args path rest n a b c h k = ground arith

-- `read_path` takes a counted path off the front of the arguments.
pub read_path-counted :
    (path rest : Bytes)
    → length path ≤ max_path
    → read_path (le_bytes 4 (length path) ++ (path ++ rest)) ≡ some (path, rest)
read_path-counted path rest h =
    let count = le_bytes 4 (length path) in
    let four = length-le_bytes 4 (length path) in
    read_path-of_parts (count ++ (path ++ rest)) path rest (length path)
      (ap from_le (slice-append [] count (path ++ rest) 0 4 refl four)
        ∙ from_le_u32 (length path) (omega arith))
      (slice-append count path rest 4 (length path) four refl)
      (ap (drop (4 + length path)) (sym (append_assoc count path rest))
        ∙ drop-append_at (count ++ path) rest (4 + length path)
            (omega (arith, length-append count path, four)))
      h (omega (arith, length-append count (path ++ rest), length-append path rest, four))

pub read_path-last :
    (path : Bytes)
    → length path ≤ max_path
    → read_path (le_bytes 4 (length path) ++ path) ≡ some (path, [])
read_path-last path h =
    ap (λ t. read_path (le_bytes 4 (length path) ++ t)) (sym (append-nil path))
    ∙ read_path-counted path [] h

pub u32_field : (v : ℕ) → v < 2 ^ 32 → from_le (slice (le_bytes 4 v) 0 4) ≡ v
unfolding slice le_bytes from_le
u32_field v h = from_le_u32 v h

pub u64_field : (v : ℕ) → v < 2 ^ 64 → from_le (slice (le_bytes 8 v) 0 8) ≡ v
unfolding slice le_bytes from_le
u64_field v h = from_le_u64 v h

pub u64_fields :
    (a b : ℕ)
    → a < 2 ^ 64
    → b < 2 ^ 64
    → (from_le (slice (le_bytes 8 a ++ le_bytes 8 b) 0 8) ≡ a)
      × (from_le (slice (le_bytes 8 a ++ le_bytes 8 b) 8 16) ≡ b)
      × (length (le_bytes 8 a ++ le_bytes 8 b) ≡ 16)
unfolding slice le_bytes from_le
u64_fields a b h k = (from_le_u64 a h, from_le_u64 b k, refl)

pub u32_u64_u32 :
    (a b c : ℕ) (rest : Bytes)
    → a < 2 ^ 32
    → b < 2 ^ 64
    → c < 2 ^ 32
    → (from_le (slice (le_bytes 4 a ++ (le_bytes 8 b ++ (le_bytes 4 c ++ rest))) 0 4) ≡ a)
      × (from_le (slice (le_bytes 4 a ++ (le_bytes 8 b ++ (le_bytes 4 c ++ rest))) 4 12) ≡ b)
      × (from_le (slice (le_bytes 4 a ++ (le_bytes 8 b ++ (le_bytes 4 c ++ rest))) 12 16) ≡ c)
      × (slice (le_bytes 4 a ++ (le_bytes 8 b ++ (le_bytes 4 c ++ rest))) 16 (16 + length rest)
          ≡ rest)
      × (length (le_bytes 4 a ++ (le_bytes 8 b ++ (le_bytes 4 c ++ rest))) ≡ 16 + length rest)
unfolding slice le_bytes from_le
u32_u64_u32 a b c rest h k l = (
  from_le_u32 a h,
  from_le_u64 b k,
  from_le_u32 c l,
  let gap : 16 + length rest - 16 ≡ length rest = omega arith in rw gap (take-length rest),
  omega arith,
)

pub read_fields :
    (a b c : ℕ)
    → a < 2 ^ 32
    → b < 2 ^ 64
    → c < 2 ^ 32
    → (from_le (slice (read_args a b c) 0 4) ≡ a)
      × (from_le (slice (read_args a b c) 4 12) ≡ b)
      × (from_le (slice (read_args a b c) 12 16) ≡ c)
      × (length (read_args a b c) ≡ 16)
unfolding read_args slice le_bytes from_le
read_fields a b c h k l = (from_le_u32 a h, from_le_u64 b k, from_le_u32 c l, refl)
