-- ===== src/Pairing/PeerInfo.antt =====
-- Peer records, there and back.
use adbshare.Base.{
  ℕ, zero, suc, ◌+◌, ◌-◌, ◌<◌, ◌≡◌, ◌≢◌, refl, ap, ◌∙◌, false, [], ◌∷◌, ◌++◌, length, length-append,
  ℕ_eq, eq_of_ne, leb, arith,
}
use adbshare.Base.Bytes.{Bytes}
use adbshare.Pairing.{peer_info_size, ok, zeros, peer_info, cut_nuls, parse_peer_info}

-- The text does not end in a NUL.
abbrev pub EndsClean : Bytes → Type 0
EndsClean [] = Unit {0}
EndsClean (b ∷ []) = b ≢ 0
EndsClean (b ∷ c ∷ bs) = EndsClean (c ∷ bs)

length-zeros : (n : ℕ) → length (zeros n) ≡ n
length-zeros zero = refl
length-zeros (suc n) = ap suc (length-zeros n)

cut_nuls-zeros : (n : ℕ) → cut_nuls (zeros n) ≡ []
cut_nuls-zeros zero = refl
cut_nuls-zeros (suc n) = rw (cut_nuls-zeros n) refl

cut_nuls-append_zeros : (key : Bytes) (n : ℕ) → EndsClean key → cut_nuls (key ++ zeros n) ≡ key
cut_nuls-append_zeros [] n h = cut_nuls-zeros n
cut_nuls-append_zeros (b ∷ []) n h = rw (cut_nuls-zeros n, eq_of_ne h) refl
cut_nuls-append_zeros (b ∷ c ∷ bs) n h = rw (cut_nuls-append_zeros (c ∷ bs) n h) refl

parse_peer_info-of_length :
    (kind : ℕ) (rest : Bytes)
    → length rest + 1 ≡ peer_info_size
    → parse_peer_info (kind ∷ rest) ≡ ok (kind, cut_nuls rest)
unfolding parse_peer_info
parse_peer_info-of_length kind rest h = ground (arith, h)

peer_info-short :
    (key : Bytes)
    → length key < peer_info_size - 1
    → peer_info key ≡ ok (0 ∷ (key ++ zeros (peer_info_size - 1 - length key)))
unfolding peer_info
peer_info-short key h =
    let t : leb (peer_info_size - 1) (length key) ≡ false = ground (arith, h) in rw t refl

-- A public key of at most 8190 bytes that does not end in a NUL is carried in a record of 8192 bytes, and
-- is read back from it whole, as a key.
pub parse_peer_info-peer_info :
    (key : Bytes)
    → EndsClean key
    → length key < peer_info_size - 1
    → (info : Bytes) × (peer_info key ≡ ok info)
      × (length info ≡ peer_info_size)
      × (parse_peer_info info ≡ ok (0, key))
unfolding peer_info
parse_peer_info-peer_info key c h =
    let pad = peer_info_size - 1 - length key in
    let long : length (key ++ zeros pad) + 1 ≡ peer_info_size =
      omega (arith, length-append key (zeros pad), length-zeros pad) in
    (
      0 ∷ (key ++ zeros pad),
      peer_info-short key h,
      omega (arith, long),
      parse_peer_info-of_length 0 (key ++ zeros pad) long
          ∙ ap (λ k. ok (0, k)) (cut_nuls-append_zeros key pad c),
    )
