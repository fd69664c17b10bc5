-- ===== src/Fs/Inodes/Paired.antt =====
-- The two maps of the inode table agree, whatever is called.
use adbshare.Base.{
  ℕ, ◌<◌, ◌≡◌, ◌≢◌, refl, sym, ap, ◌∙◌, inl, inr, Option, Option-cases, none, some, List, [], ◌∷◌,
  ◌++◌, ◌==◌, ℕ_eq, list_eq, if_both, arith,
}
use adbshare.Base.Assoc.{
  lookup, lookup-insert_same, lookup-insert_other, lookup-remove_other, lookup-insert-some,
  lookup-remove-some,
}
use adbshare.Fs.{PathBuf}
use adbshare.Fs.Inodes.{
  Inodes, root, tie, untie, forget_found, forget_ino, drop_found, drop_overwritten, moved_to,
  unlisted, take_out, place,
}

-- The inode of a path resolves to that path, and is one that was given out.
pub record IsPaired (t : Inodes) : Type 0 where
  pub resolves :
      (p : PathBuf) (i : ℕ) → lookup p t.path_to_ino ≡ some i → lookup i t.ino_to_path ≡ some p
  pub below : (p : PathBuf) (i : ℕ) → lookup p t.path_to_ino ≡ some i → i < t.next_ino

-- No path has this inode.
unfoldable pub Unused : ℕ → Inodes → Type 0
Unused i t = (q : PathBuf) → lookup q t.path_to_ino ≢ some i

pub tie-IsPaired :
    (i : ℕ) (p : PathBuf) (t : Inodes)
    → IsPaired t
    → Unused i t
    → i < t.next_ino
    → IsPaired (tie i p t)
unfolding tie Unused
tie-IsPaired i p t h u l = record {
  resolves = λ q j e. elim (lookup-insert-some p q i t.path_to_ino j e) [
    | inl (same, ij) ↦ rw (← ij, ← same) (lookup-insert_same i p t.ino_to_path)
    | inr (n, old) ↦
        lookup-insert_other i j p t.ino_to_path (λ ij. u q (old ∙ ap (λ (k : ℕ). some k) (sym ij)))
        ∙ h.resolves q j old
  ];
  below = λ q j e. elim (lookup-insert-some p q i t.path_to_ino j e) [
    | inl (same, ij) ↦ rw (← ij) l
    | inr (n, old) ↦ h.below q j old
  ];
}

untie-IsPaired :
    (i : ℕ) (p : PathBuf) (t : Inodes)
    → IsPaired t
    → lookup i t.ino_to_path ≡ some p
    → IsPaired (untie i p t)
unfolding untie
untie-IsPaired i p t h l = record {
  resolves = λ q j e.
      let old = lookup-remove-some p q t.path_to_ino j e in
      lookup-remove_other i j t.ino_to_path (λ ij. old.0 (cc (l, h.resolves q j old.1, ij)))
      ∙ h.resolves q j old.1;
  below = λ q j e. h.below q j (lookup-remove-some p q t.path_to_ino j e).1;
}

unlisted-IsPaired : (p : PathBuf) (t : Inodes) → IsPaired t → IsPaired (unlisted p t)
unlisted-IsPaired p t h = record {
  resolves = λ q j e. h.resolves q j (lookup-remove-some p q t.path_to_ino j e).1;
  below = λ q j e. h.below q j (lookup-remove-some p q t.path_to_ino j e).1;
}

-- A path that is taken out leaves no path with its inode.
unlisted-Unused :
    (p : PathBuf) (i : ℕ) (t : Inodes)
    → IsPaired t
    → lookup p t.path_to_ino ≡ some i
    → Unused i (unlisted p t)
unfolding Unused
unlisted-Unused p i t h l q e =
    let old = lookup-remove-some p q t.path_to_ino i e in
    old.0 (cc (h.resolves p i l, h.resolves q i old.1))

-- None of these entries has this inode.
abbrev pub Others : ℕ → List (ℕ × PathBuf) → Type 0
Others i [] = Unit
Others i ((j, p) ∷ ms) = (i ≢ j) × Others i ms

-- Inodes that no path has any more, that were given out, and that differ.
abbrev pub Free : Inodes → List (ℕ × PathBuf) → Type 0
Free t [] = Unit
Free t ((i, p) ∷ ms) = Unused i t × (i < t.next_ino) × Others i ms × Free t ms

Unused-tie : (i j : ℕ) (p : PathBuf) (t : Inodes) → i ≢ j → Unused j t → Unused j (tie i p t)
unfolding tie Unused
Unused-tie i j p t n u q e = elim (lookup-insert-some p q i t.path_to_ino j e) [
  | inl (same, ij) ↦ n ij
  | inr (d, old) ↦ u q old
]

pub Free-tie :
    (i : ℕ) (p : PathBuf) (t : Inodes) (ms : List (ℕ × PathBuf))
    → Others i ms
    → Free t ms
    → Free (tie i p t) ms
unfolding tie
Free-tie i p t [] o f = tt
Free-tie i p t ((j, q) ∷ ms) (n, o) (u, l, d, f) =
    (Unused-tie i j p t n u, l, d, Free-tie i p t ms o f)

pub place-IsPaired :
    (ms : List (ℕ × PathBuf)) (t : Inodes) → IsPaired t → Free t ms → IsPaired (place ms t)
unfolding place
place-IsPaired [] t h f = h
place-IsPaired ((i, p) ∷ ms) t h (u, l, o, f) =
    place-IsPaired ms (tie i p t) (tie-IsPaired i p t h u l) (Free-tie i p t ms o f)

-- Each entry's inode was given to a path of this table.
abbrev pub Stem : Inodes → List (ℕ × PathBuf) → Type 0
Stem t [] = Unit
Stem t ((i, p) ∷ ms) = ((q : PathBuf) × (lookup q t.path_to_ino ≡ some i)) × Stem t ms

Stem-unlisted :
    (p : PathBuf) (t : Inodes) (ms : List (ℕ × PathBuf)) → Stem (unlisted p t) ms → Stem t ms
Stem-unlisted p t [] s = tt
Stem-unlisted p t ((i, r) ∷ ms) ((q, e), s) =
    ((q, (lookup-remove-some p q t.path_to_ino i e).1), Stem-unlisted p t ms s)

pub Others-Stem :
    (i : ℕ) (t : Inodes) (ms : List (ℕ × PathBuf)) → Unused i t → Stem t ms → Others i ms
unfolding Unused
Others-Stem i t [] u s = tt
Others-Stem i t ((j, r) ∷ ms) u ((q, e), s) =
    ((λ ij. u q (e ∙ ap (λ (k : ℕ). some k) (sym ij))), Others-Stem i t ms u s)

-- What is there after taking paths out was there before.
take_out-kept :
    (f : PathBuf → PathBuf) (olds : List PathBuf) (t : Inodes) (q : PathBuf) (i : ℕ)
    → lookup q (take_out f olds t).0.path_to_ino ≡ some i
    → lookup q t.path_to_ino ≡ some i
unfolding take_out
take_out-kept f [] t q i e = e
take_out-kept f (p ∷ olds) t q i e =
    (lookup-remove-some p q t.path_to_ino i (take_out-kept f olds (unlisted p t) q i e)).1

pub record IsTaken (t : Inodes) (r : Inodes × List (ℕ × PathBuf)) : Type 0 where
  pub paired : IsPaired r.0
  pub next : r.0.next_ino ≡ t.next_ino
  pub stem : Stem t r.1
  pub free : Free r.0 r.1

pub Unused-take_out :
    (f : PathBuf → PathBuf) (olds : List PathBuf) (t : Inodes) (i : ℕ)
    → Unused i t
    → Unused i (take_out f olds t).0
unfolding Unused
Unused-take_out f olds t i u q e = u q (take_out-kept f olds t q i e)

IsTaken-moved_to :
    (f : PathBuf → PathBuf) (p : PathBuf) (olds : List PathBuf) (t : Inodes) (o : Option ℕ)
    → IsPaired t
    → lookup p t.path_to_ino ≡ o
    → IsTaken (unlisted p t) (take_out f olds (unlisted p t))
    → IsTaken t
        ((take_out f olds (unlisted p t)).0, moved_to (f p) o ++ (take_out f olds (unlisted p t)).1)
IsTaken-moved_to f p olds t none h e r = record {
  paired = r.paired;
  next = r.next;
  stem = Stem-unlisted p t (take_out f olds (unlisted p t)).1 r.stem;
  free = r.free;
}
IsTaken-moved_to f p olds t (some i) h e r =
    let ms = (take_out f olds (unlisted p t)).1 in
    let u = unlisted-Unused p i t h e in
    record {
      paired = r.paired;
      next = r.next;
      stem = ((p, e), Stem-unlisted p t ms r.stem);
      free = (
        Unused-take_out f olds (unlisted p t) i u,
        omega (arith, h.below p i e, r.next),
        Others-Stem i (unlisted p t) ms u r.stem,
        r.free,
      );
    }

pub take_out-IsTaken :
    (f : PathBuf → PathBuf) (olds : List PathBuf) (t : Inodes)
    → IsPaired t
    → IsTaken t (take_out f olds t)
unfolding take_out
take_out-IsTaken f [] t h = record { paired = h; next = refl; stem = tt; free = tt }
take_out-IsTaken f (p ∷ olds) t h =
    IsTaken-moved_to f p olds t (lookup p t.path_to_ino) h refl
      (take_out-IsTaken f olds (unlisted p t) (unlisted-IsPaired p t h))

pub drop_overwritten-IsPaired :
    (dst : PathBuf) (t : Inodes) → IsPaired t → IsPaired (drop_overwritten dst t)
unfolding drop_overwritten drop_found
drop_overwritten-IsPaired dst t h = elim (Option-cases (lookup dst t.path_to_ino)) [
  | inl e ↦ rw e h
  | inr (i, e) ↦ rw e (untie-IsPaired i dst t h (h.resolves dst i e))
]

pub forget_ino-IsPaired : (i : ℕ) (t : Inodes) → IsPaired t → IsPaired (forget_ino i t)
unfolding forget_ino forget_found
forget_ino-IsPaired i t h =
    if_both (λ r. IsPaired r) (i == root) h
      (elim (Option-cases (lookup i t.ino_to_path)) [
        | inl e ↦ rw e h
        | inr (p, e) ↦ rw e (untie-IsPaired i p t h e)
      ])
