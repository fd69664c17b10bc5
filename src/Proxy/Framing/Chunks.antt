-- ===== src/Proxy/Framing/Chunks.antt =====
-- What a reader sees does not depend on how the bytes arrive.
use mathlib.Core.List.{append_assoc, append-nil}
use adbshare.Base.{
  ℕ, zero, suc, ◌+◌, ◌-◌, ◌≤◌, ◌<◌, ◌≡◌, refl, sym, ap, ◌∙◌, List, [], ◌∷◌, ◌++◌, length, take,
  drop, length-append, length-drop, arith, ◌⊎◌, inl, inr, Option-cases, some, none,
}
use adbshare.Base.Bytes.{Bytes, joined, from_le, slice}
use adbshare.Proxy.Framing.{
  Frame, Cut, more, too_big, cut, cut_frame, Reader, start, take_frames, on_chunk, read_chunks,
}

take_longer : (n : ℕ) (xs ys : Bytes) → n ≤ length xs → take n (xs ++ ys) ≡ take n xs
take_longer zero xs ys h = refl
take_longer (suc n) [] ys h = absurd (omega arith)
take_longer (suc n) (x ∷ xs) ys h = ap (◌∷◌ x) (take_longer n xs ys (omega arith))

drop_longer : (n : ℕ) (xs ys : Bytes) → n ≤ length xs → drop n (xs ++ ys) ≡ drop n xs ++ ys
drop_longer zero xs ys h = refl
drop_longer (suc n) [] ys h = absurd (omega arith)
drop_longer (suc n) (x ∷ xs) ys h = drop_longer n xs ys (omega arith)

slice_longer :
    (i w : ℕ) (xs ys : Bytes) → i + w ≤ length xs → slice (xs ++ ys) i (i + w) ≡ slice xs i (i + w)
unfolding slice
slice_longer i w xs ys h =
    rw (drop_longer i xs ys (omega arith))
      (take_longer (i + w - i) (drop i xs) ys (omega (arith, length-drop i xs)))

module _ (at limit : ℕ) where
  -- What a cut needs: how long the buffer is beside the header's claim.
  cut_frame-append_big :
      (buf ys : Bytes) (len : ℕ)
      → cut_frame at limit buf ≡ too_big len
      → cut_frame at limit (buf ++ ys) ≡ too_big len
  unfolding cut_frame
  cut_frame-append_big buf ys len e = ground (arith, length-append buf ys, slice_longer at 4 buf ys)

  cut_frame-append_cut :
      (buf ys : Bytes) (f : Frame) (rest : Bytes)
      → cut_frame at limit buf ≡ cut f rest
      → cut_frame at limit (buf ++ ys) ≡ cut f (rest ++ ys)
  unfolding cut_frame
  cut_frame-append_cut buf ys f rest e = ground (
    arith,
    length-append buf ys,
    slice_longer at 4 buf ys,
    slice_longer (at + 4) (from_le (slice buf at (at + 4))) buf ys,
    take_longer at buf ys,
    drop_longer (at + 4 + from_le (slice buf at (at + 4))) buf ys,
  )

  rest_shorter :
      (buf : Bytes) (f : Frame) (rest : Bytes)
      → cut_frame at limit buf ≡ cut f rest
      → length rest < length buf
  unfolding cut_frame
  rest_shorter buf f rest e =
      ground (arith, length-drop (at + 4 + from_le (slice buf at (at + 4))) buf)

  pub cut_frame-nil : cut_frame at limit [] ≡ more
  unfolding cut_frame
  cut_frame-nil = ground arith

  cut_frame-empty : (buf : Bytes) → length buf ≤ 0 → cut_frame at limit buf ≡ more
  unfolding cut_frame
  cut_frame-empty buf h = ground arith

  Cut-cases :
      (c : Cut)
      → (c ≡ more)
        ⊎ (((len : ℕ) × (c ≡ too_big len)) ⊎ ((f : Frame) × (rest : Bytes) × (c ≡ cut f rest)))
  Cut-cases more = inl refl
  Cut-cases (too_big len) = inr (inl (len, refl))
  Cut-cases (cut f rest) = inr (inr (f, rest, refl))

  pub take-more :
      (n : ℕ) (r : Reader) → cut_frame at limit r.buf ≡ more → take_frames at limit n r ≡ r
  unfolding take_frames
  take-more zero r e = refl
  take-more (suc n) r e = rw (e, take_frames)

  take-too_big :
      (n : ℕ) (r : Reader) (len : ℕ)
      → cut_frame at limit r.buf ≡ too_big len
      → 0 < n
      → take_frames at limit n r ≡ record r { buf = []; refused = some len }
  unfolding take_frames
  take-too_big zero r len e h = absurd (omega arith)
  take-too_big (suc n) r len e h = rw (e, take_frames)

  pub take-cut :
      (n : ℕ) (r : Reader) (f : Frame) (rest : Bytes)
      → cut_frame at limit r.buf ≡ cut f rest
      → take_frames at limit (suc n) r
        ≡ take_frames at limit n (record r { frames = r.frames ++ (f ∷ []); buf = rest })
  unfolding take_frames
  take-cut n r f rest e = rw (e, take_frames)

  -- Any fuel from the length of the buffer on gives the same.
  pub take_frames-fuel :
      (n m : ℕ) (r : Reader)
      → length r.buf ≤ n
      → length r.buf ≤ m
      → take_frames at limit n r ≡ take_frames at limit m r
  take_frames-fuel zero m r h k =
      let e = cut_frame-empty r.buf h in take-more zero r e ∙ sym (take-more m r e)
  take_frames-fuel (suc n) zero r h k =
      let e = cut_frame-empty r.buf k in take-more (suc n) r e ∙ sym (take-more zero r e)
  take_frames-fuel (suc n) (suc m) r h k = elim (Cut-cases (cut_frame at limit r.buf)) [
    | inl e ↦ take-more (suc n) r e ∙ sym (take-more (suc m) r e)
    | inr (inl (len, e)) ↦
        take-too_big (suc n) r len e (omega arith)
        ∙ sym (take-too_big (suc m) r len e (omega arith))
    | inr (inr (f, rest, e)) ↦
        take-cut n r f rest e
        ∙ take_frames-fuel n m (record r { frames = r.frames ++ (f ∷ []); buf = rest })
            (omega (arith, rest_shorter r.buf f rest e))
            (omega (arith, rest_shorter r.buf f rest e))
        ∙ sym (take-cut m r f rest e)
  ]

  pub on_chunk-open :
      (r : Reader) (c : Bytes)
      → r.refused ≡ none
      → on_chunk at limit r c
        ≡ take_frames at limit (length r.buf + length c) (record r { buf = r.buf ++ c })
  unfolding on_chunk
  on_chunk-open r c o = ground arith

  settled :
      (m : ℕ) (r : Reader) (c : Bytes)
      → r.refused ≡ none
      → length r.buf + length c ≤ m
      → on_chunk at limit r c ≡ take_frames at limit m (record r { buf = r.buf ++ c })
  settled m r c o k =
      on_chunk-open r c o
      ∙ take_frames-fuel (length r.buf + length c) m (record r { buf = r.buf ++ c })
          (omega (arith, length-append r.buf c)) (omega (arith, length-append r.buf c))

  -- Handling what is there and then a chunk is handling both at once.
  absorb :
      (n m : ℕ) (r : Reader) (c : Bytes)
      → r.refused ≡ none
      → length r.buf ≤ n
      → length r.buf + length c ≤ m
      → on_chunk at limit (take_frames at limit n r) c
        ≡ take_frames at limit m (record r { buf = r.buf ++ c })
  absorb zero m r c o h k =
      ap (λ t. on_chunk at limit t c) (take-more zero r (cut_frame-empty r.buf h))
      ∙ settled m r c o k
  absorb (suc n) zero r c o h k =
      ap (λ t. on_chunk at limit t c) (take-more (suc n) r (cut_frame-empty r.buf (omega arith)))
      ∙ settled zero r c o k
  absorb (suc n) (suc m) r c o h k = elim (Cut-cases (cut_frame at limit r.buf)) [
    | inl e ↦ ap (λ t. on_chunk at limit t c) (take-more (suc n) r e) ∙ settled (suc m) r c o k
    | inr (inl (len, e)) ↦
        ap (λ t. on_chunk at limit t c) (take-too_big (suc n) r len e (omega arith))
        ∙ unfold on_chunk in
          sym (
            take-too_big (suc m) (record r { buf = r.buf ++ c }) len
              (cut_frame-append_big r.buf c len e) (omega arith))
    | inr (inr (f, rest, e)) ↦
        ap (λ t. on_chunk at limit t c) (take-cut n r f rest e)
        ∙ absorb n m (record r { frames = r.frames ++ (f ∷ []); buf = rest }) c o
            (omega (arith, rest_shorter r.buf f rest e))
            (omega (arith, rest_shorter r.buf f rest e))
        ∙ sym (
            take-cut m (record r { buf = r.buf ++ c }) f (rest ++ c)
              (cut_frame-append_cut r.buf c f rest e))
  ]

  on_chunk_closed :
      (r : Reader) (c : Bytes) (len : ℕ) → r.refused ≡ some len → on_chunk at limit r c ≡ r
  unfolding on_chunk
  on_chunk_closed r c len o = ground arith

  on_chunk-append :
      (r : Reader) (c d : Bytes)
      → on_chunk at limit (on_chunk at limit r c) d ≡ on_chunk at limit r (c ++ d)
  on_chunk-append r c d = elim (Option-cases r.refused) [
    | inr (len, o) ↦
        ap (λ t. on_chunk at limit t d) (on_chunk_closed r c len o)
        ∙ on_chunk_closed r d len o
        ∙ sym (on_chunk_closed r (c ++ d) len o)
    | inl o ↦
        ap (λ t. on_chunk at limit t d) (on_chunk-open r c o)
        ∙ absorb (length r.buf + length c) (length r.buf + length (c ++ d))
            (record r { buf = r.buf ++ c }) d o (omega (arith, length-append r.buf c))
            (omega (arith, length-append r.buf c, length-append c d))
        ∙ ap
            (λ (b : Bytes).
              take_frames at limit (length r.buf + length (c ++ d)) (record r { buf = b }))
            (append_assoc r.buf c d)
        ∙ sym (on_chunk-open r (c ++ d) o)
  ]

  read_chunks_ne :
      (r : Reader) (c : Bytes) (cs : List Bytes)
      → read_chunks at limit r (c ∷ cs) ≡ on_chunk at limit r (c ++ joined cs)
  unfolding read_chunks
  read_chunks_ne r c [] = ap (on_chunk at limit r) (sym (append-nil c))
  read_chunks_ne r c (d ∷ ds) =
      read_chunks_ne (on_chunk at limit r c) d ds ∙ on_chunk-append r c (d ++ joined ds)

  -- However the bytes of a connection are cut into chunks, the reader handles the same frames, ends the
  -- connection at the same point and is left with the same bytes, as if they had come in one.
  pub read_chunks-joined :
      (cs : List Bytes) → read_chunks at limit start cs ≡ on_chunk at limit start (joined cs)
  unfolding read_chunks on_chunk take_frames
  read_chunks-joined [] = refl
  read_chunks-joined (c ∷ cs) = read_chunks_ne start c cs
