-- ===== src/Proxy/Device/Dispatch/Misframed.antt =====
-- Requests whose arguments declare a path that is not there, or one that is too long.
use adbshare.Base.{
  ℕ, ◌+◌, ◌^◌, ◌≤◌, ◌<◌, ◌≡◌, refl, ap, ◌∙◌, ◌⊎◌, inl, inr, get_or, none, some, [], ◌++◌, length,
  length-append, arith,
}
use adbshare.Base.Bytes.{
  Bytes, le_bytes, from_le, slice, length-le_bytes, from_le_u32, slice-append,
}
use adbshare.Proxy.Ops.{Op, open_file, rename, symlink, copy_file, op_code}
use adbshare.Proxy.Device.{Libc, OwnedFds, max_path, bad_path, short, read_path, read_two_paths}
use adbshare.Proxy.Device.Files.{handle_open}
use adbshare.Proxy.Device.Paths.{handle_rename, handle_symlink}
use adbshare.Proxy.Device.Copy.{handle_copy_file}
use adbshare.Proxy.Device.Dispatch.{answer}
use adbshare.Proxy.Device.Dispatch.Malformed.{TakesPath, answer_unreadable}
use adbshare.Proxy.Client.Fields.{read_path-counted}

-- The operations whose arguments are two counted paths.
abbrev pub TakesTwo : Op → Type 0
TakesTwo rename = Unit {0}
TakesTwo symlink = Unit {0}
TakesTwo copy_file = Unit {0}
TakesTwo _ = ⊥

-- A path that is declared as `n` bytes, and the bytes that follow.
abbrev declared : ℕ → Bytes → Bytes
declared n tail = le_bytes 4 n ++ tail

-- Where the path stands that is not as it is declared: first, after a first path, or after the flags and
-- the mode of an `open`.
pub data Misframed : Type 0 where
  first : Op → ℕ → Bytes → Misframed
  second : Op → Bytes → ℕ → Bytes → Misframed
  of_open : Bytes → ℕ → Bytes → Misframed

abbrev pub op_in : Misframed → Op
op_in (first op n tail) = op
op_in (second op p n tail) = op
op_in (of_open before n tail) = open_file

abbrev pub args_in : Misframed → Bytes
args_in (first op n tail) = declared n tail
args_in (second op p n tail) = le_bytes 4 (length p) ++ (p ++ declared n tail)
args_in (of_open before n tail) = before ++ declared n tail

-- The path is longer than `MAX_PATH`, or fewer bytes follow than were declared; an `open` only looks
-- at the latter.
abbrev pub IsMisframed : Misframed → Type 0
IsMisframed (first op n tail) = TakesPath op × (n < 2 ^ 32) × ((max_path < n) ⊎ (length tail < n))
IsMisframed (second op p n tail) =
    TakesTwo op × (length p ≤ max_path) × (n < 2 ^ 32) × ((max_path < n) ⊎ (length tail < n))
IsMisframed (of_open before n tail) = (length before ≡ 8) × (n < 2 ^ 32) × (length tail < n)

read_path-of_count :
    (args : Bytes) (n : ℕ)
    → from_le (slice args 0 4) ≡ n
    → (max_path < n) ⊎ (length args < 4 + n)
    → read_path args ≡ none
unfolding read_path
read_path-of_count args n e c = ground (arith, c)

read_path-declared :
    (n : ℕ) (tail : Bytes)
    → n < 2 ^ 32
    → (max_path < n) ⊎ (length tail < n)
    → read_path (declared n tail) ≡ none
read_path-declared n tail h c =
    let four = length-le_bytes 4 n in
    let long = length-append (le_bytes 4 n) tail in
    read_path-of_count (declared n tail) n
      (ap from_le (slice-append [] (le_bytes 4 n) tail 0 4 refl four) ∙ from_le_u32 n h)
      (elim c [ inl a ↦ inl a | inr b ↦ inr (omega (arith, b, four, long)) ])

module _ (libc : Libc) (conn : ℕ) (m : OwnedFds) where
  open libc use {World}

  second_lem :
      (op : Op) (args p rest : Bytes) (w : World)
      → TakesTwo op
      → read_path args ≡ some (p, rest)
      → read_path rest ≡ none
      → answer libc (op_code op) args conn m w ≡ (bad_path, w, m)
  unfolding answer op_code handle_rename handle_symlink handle_copy_file read_two_paths
  second_lem rename args p rest w t a b = ground arith
  second_lem symlink args p rest w t a b = ground arith
  second_lem copy_file args p rest w t a b = ground arith
  second_lem _ args p rest w t a b = elim t [ ]

  open_lem :
      (args : Bytes) (n : ℕ) (w : World)
      → from_le (slice args 8 12) ≡ n
      → length args < 12 + n
      → answer libc (op_code open_file) args conn m w ≡ (short, w, m)
  unfolding answer op_code handle_open
  open_lem args n w e h = ground arith

  -- A request whose path, the first or the second of two, or that of an `open`, is declared longer than
  -- the bytes that follow, or longer than 4096 where it is not an `open`, is answered with status
  -- `InvalidArg`, and neither the kernel nor the table sees it.
  pub answer_misframed :
      (r : Misframed) (w : World)
      → IsMisframed r
      → (get_or (answer libc (op_code (op_in r)) (args_in r) conn m w).0 0 0 ≡ 0x08)
        × ((answer libc (op_code (op_in r)) (args_in r) conn m w).1 ≡ w)
        × ((answer libc (op_code (op_in r)) (args_in r) conn m w).2 ≡ m)
  answer_misframed (first op n tail) w (t, h, c) =
      let e =
        answer_unreadable libc (declared n tail) conn m op w t (read_path-declared n tail h c) in
      rw e (refl, refl, refl)
  answer_misframed (second op p n tail) w (t, l, h, c) =
      let e =
        second_lem op (args_in (second op p n tail)) p (declared n tail) w t
          (read_path-counted p (declared n tail) l) (read_path-declared n tail h c) in
      rw e (refl, refl, refl)
  answer_misframed (of_open before n tail) w (l, h, c) =
      let args = before ++ declared n tail in
      let four = length-le_bytes 4 n in
      let e =
        open_lem args n w
          (ap from_le (slice-append before (le_bytes 4 n) tail 8 4 l four) ∙ from_le_u32 n h)
          (omega (
            arith,
            length-append before (declared n tail),
            length-append (le_bytes 4 n) tail,
            four,
            l,
            c,
          )) in
      rw e (refl, refl, refl)
