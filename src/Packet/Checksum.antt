-- ===== src/Packet/Checksum.antt =====
-- The additive checksum of a payload: its range, and what a change of one byte does to it.
use mathlib.Core.List.{foldl}
use native.Mathlib.Nat.{add_assoc}
use adbshare.Base.{ℕ, ◌+◌, ◌%◌, ◌^◌, ◌<◌, ◌≡◌, ◌≢◌, ◌++◌, [], ◌∷◌, arith, ◌∙◌}
use adbshare.Base.Bytes.{Bytes}
use adbshare.Packet.{data_checksum}

-- The sum of the bytes, without the wrap.
unfoldable pub byte_sum : Bytes → ℕ
byte_sum [] = 0
byte_sum (b ∷ bs) = b + byte_sum bs

abbrev add_byte : ℕ → ℕ → ℕ
add_byte a b = (a + b) % 2 ^ 32

checksum_from : (a : ℕ) (bs : Bytes) → foldl add_byte (a % 2 ^ 32) bs ≡ (a + byte_sum bs) % 2 ^ 32
unfolding byte_sum
checksum_from a [] = omega arith
checksum_from a (b ∷ bs) =
    let wrap : add_byte (a % 2 ^ 32) b ≡ (a + b) % 2 ^ 32 = omega arith in
    rw wrap (rw (checksum_from (a + b) bs) (rw add_assoc))

pub byte_sum-append : (xs ys : Bytes) → byte_sum (xs ++ ys) ≡ byte_sum xs + byte_sum ys
unfolding byte_sum
byte_sum-append [] ys = omega arith
byte_sum-append (x ∷ xs) ys = omega (arith, byte_sum-append xs ys)

-- `data_checksum` is the sum of the bytes, modulo `2 ^ 32`.
pub data_checksum-eq-mod : (bs : Bytes) → data_checksum bs ≡ byte_sum bs % 2 ^ 32
unfolding data_checksum
data_checksum-eq-mod bs = checksum_from 0 bs ∙ omega arith

pub data_checksum-lt : (bs : Bytes) → data_checksum bs < 2 ^ 32
data_checksum-lt bs = omega (arith, data_checksum-eq-mod bs)

pub data_checksum-ne :
    (xs ys : Bytes) (b c : ℕ)
    → b < 256
    → c < 256
    → b ≢ c
    → data_checksum (xs ++ (b ∷ ys)) ≢ data_checksum (xs ++ (c ∷ ys))
unfolding byte_sum
data_checksum-ne xs ys b c hb hc ne e = omega (
  arith,
  data_checksum-eq-mod (xs ++ (b ∷ ys)),
  data_checksum-eq-mod (xs ++ (c ∷ ys)),
  byte_sum-append xs (b ∷ ys),
  byte_sum-append xs (c ∷ ys),
)
