-- ===== src/Base/Bytes.antt =====
-- Byte strings as lists of numbers, and the little-endian fields of the wire formats
-- (`to_le_bytes`, `from_le_bytes`, `put_u32_le`). A `u8` is a number below 256.
use native.Mathlib.Nat.{pow-suc, zero-add, suc-add}
use mathlib.Core.List.{append_assoc}
use adbshare.Base.Lists.{
  length, take, drop, length-take, length-drop, take-append-drop, drop-nil, take-nil, take-append,
  drop-append,
}
use Prim.Native.Nat.{ℕ, zero, suc, ◌+◌, ◌*◌, ◌/◌, ◌%◌, ◌^◌, ◌<◌, ◌≤◌, ◌-◌}
use mathlib.Core.Path.{◌≡◌, refl, ap, sym, ◌∙◌}
use mathlib.Core.List.{List, [], ◌∷◌, ◌++◌}
use native.Mathlib.Omega.{arith}

abbrev pub Bytes : Type 0
Bytes = List ℕ

-- The bytes of a list of chunks, in order.
abbrev pub joined : List Bytes → Bytes
joined [] = []
joined (b ∷ bs) = b ++ joined bs

pub joined-append : (xs ys : List Bytes) → joined (xs ++ ys) ≡ joined xs ++ joined ys
joined-append [] ys = refl
joined-append (x ∷ xs) ys = rw (joined-append xs ys) (sym (append_assoc x (joined xs) (joined ys)))

-- Every element is a byte.
abbrev pub IsBytes : Bytes → Type 0
IsBytes [] = Unit {0}
IsBytes (b ∷ bs) = (b < 256) × IsBytes bs

-- The low `w` bytes of a number, lowest first.
unfoldable pub le_bytes : ℕ → ℕ → Bytes
le_bytes zero v = []
le_bytes (suc w) v = (v % 256) ∷ le_bytes w (v / 256)

unfoldable pub from_le : Bytes → ℕ
from_le [] = 0
from_le (b ∷ bs) = b + 256 * from_le bs

-- `&bytes[from..to]`
unfoldable pub slice : Bytes → ℕ → ℕ → Bytes
slice bs from to = take (to - from) (drop from bs)

pub length-le_bytes : (w v : ℕ) → length (le_bytes w v) ≡ w
unfolding le_bytes
length-le_bytes zero v = refl
length-le_bytes (suc w) v = ap suc (length-le_bytes w (v / 256))

pub from_le-le_bytes : (w v : ℕ) → v < 256 ^ w → from_le (le_bytes w v) ≡ v
unfolding le_bytes from_le
from_le-le_bytes zero v h = omega arith
from_le-le_bytes (suc w) v h =
    omega (arith, pow-suc 256 w, from_le-le_bytes w (v / 256) (omega (arith, pow-suc 256 w)))

pub from_le_u32 : (v : ℕ) → v < 2 ^ 32 → from_le (le_bytes 4 v) ≡ v
from_le_u32 v h = from_le-le_bytes 4 v h

pub from_le_u64 : (v : ℕ) → v < 2 ^ 64 → from_le (le_bytes 8 v) ≡ v
from_le_u64 v h = from_le-le_bytes 8 v h

pub le_bytes-IsBytes : (w v : ℕ) → IsBytes (le_bytes w v)
unfolding le_bytes
le_bytes-IsBytes zero v = tt
le_bytes-IsBytes (suc w) v = (omega arith, le_bytes-IsBytes w (v / 256))

pub length-slice : (bs : Bytes) (i w : ℕ) → i + w ≤ length bs → length (slice bs i (i + w)) ≡ w
unfolding slice
length-slice bs i w h = omega (arith, length-take (i + w - i) (drop i bs), length-drop i bs)

pub IsBytes-drop : (n : ℕ) (bs : Bytes) → IsBytes bs → IsBytes (drop n bs)
IsBytes-drop zero bs h = h
IsBytes-drop (suc n) [] h = tt
IsBytes-drop (suc n) (b ∷ bs) h = IsBytes-drop n bs h.1

pub IsBytes-take : (n : ℕ) (bs : Bytes) → IsBytes bs → IsBytes (take n bs)
IsBytes-take zero bs h = tt
IsBytes-take (suc n) [] h = tt
IsBytes-take (suc n) (b ∷ bs) h = (h.0, IsBytes-take n bs h.1)

-- The other way round: bytes are the digits of the number that they spell.
pub le_bytes-from_le : (bs : Bytes) → IsBytes bs → le_bytes (length bs) (from_le bs) ≡ bs
unfolding le_bytes from_le
le_bytes-from_le [] h = refl
le_bytes-from_le (b ∷ bs) h =
    let low : (b + 256 * from_le bs) % 256 ≡ b = omega (arith, h.0) in
    let high : (b + 256 * from_le bs) / 256 ≡ from_le bs = omega (arith, h.0) in
    rw (low, high, le_bytes-from_le bs h.1)

pub le_bytes-from_le_at :
    (w : ℕ) (bs : Bytes) → IsBytes bs → length bs ≡ w → le_bytes w (from_le bs) ≡ bs
le_bytes-from_le_at w bs h e = rw (← e) (le_bytes-from_le bs h)

pub from_le-lt : (bs : Bytes) → IsBytes bs → from_le bs < 256 ^ length bs
unfolding from_le
from_le-lt [] h = omega arith
from_le-lt (b ∷ bs) h = omega (arith, h.0, pow-suc 256 (length bs), from_le-lt bs h.1)

-- Cutting a byte string into consecutive fields loses nothing.
pub take-drop-take : (a b : ℕ) (bs : Bytes) → take a (drop b bs) ++ drop (b + a) bs ≡ drop b bs
take-drop-take a zero bs = rw zero-add (take-append-drop a bs)
take-drop-take a (suc b) [] = simp (drop-nil, take-nil)
take-drop-take a (suc b) (x ∷ bs) = rw suc-add (take-drop-take a b bs)

pub field-append :
    (a b : ℕ) (bs rest : Bytes)
    → take a (drop b bs) ++ (drop (b + a) bs ++ rest) ≡ drop b bs ++ rest
field-append a b bs rest =
    sym (append_assoc (take a (drop b bs)) (drop (b + a) bs) rest)
    ∙ ap (λ t. t ++ rest) (take-drop-take a b bs)

-- The field between what stands before and after it.
pub slice-append :
    (a b c : Bytes) (i w : ℕ) → length a ≡ i → length b ≡ w → slice (a ++ (b ++ c)) i (i + w) ≡ b
unfolding slice
slice-append a b c i w e e' =
    let gap : i + w - i ≡ length b = omega (arith, e') in
    rw (gap, ← e, drop-append a (b ++ c)) (take-append b c)

pub drop-append_at : (a b : Bytes) (i : ℕ) → length a ≡ i → drop i (a ++ b) ≡ b
drop-append_at a b i e = rw (← e) (drop-append a b)

pub take-append_at : (a b : Bytes) (i : ℕ) → length a ≡ i → take i (a ++ b) ≡ a
take-append_at a b i e = rw (← e) (take-append a b)
