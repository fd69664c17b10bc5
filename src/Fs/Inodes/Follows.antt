-- ===== src/Fs/Inodes/Follows.antt =====
-- An inode below a renamed directory follows it.
use adbshare.Base.{
  ℕ, ◌+◌, ◌<◌, ◌^◌, ◌≡◌, ◌≢◌, refl, sym, ap, ◌∙◌, true, Bool-cases, inl, inr, Option-cases, some,
  List, [], ◌∷◌, ◌++◌, map, length, drop-append, ◌==◌, ℕ_eq, list_eq, length-append, eq_true,
  eq_self, ne_of_eq_false, arith,
}
use mathlib.Core.Path.{subst}
use mathlib.Core.List.{Memᴰ, append-nil}
use mathlib.Core.List.Memᴰ.{cases_cons, append_right}
use adbshare.Base.Assoc.{
  Assoc, lookup, retain, lookup-insert_same, lookup-insert_other, lookup-remove_other,
}
use adbshare.Fs.{PathBuf, starts_with}
use adbshare.Fs.Inodes.{
  Inodes, new, tie, untie, drop_found, drop_overwritten, unlisted, moved_to, moved_path, take_out,
  stale, place, collect, move_inodes,
}
use adbshare.Fs.Inodes.Paired.{Others, Free, Free-tie, drop_overwritten-IsPaired}
use adbshare.Fs.Inodes.Resolves.{Call, run, collect-Free, run-IsPaired, new-IsPaired}

lookup-place-Others :
    (i : ℕ) (ms : List (ℕ × PathBuf)) (t : Inodes)
    → Others i ms
    → lookup i (place ms t).ino_to_path ≡ lookup i t.ino_to_path
unfolding place tie
lookup-place-Others i [] t o = refl
lookup-place-Others i ((j, q) ∷ ms) t (n, o) =
    lookup-place-Others i ms (tie j q t) o
    ∙ lookup-insert_other j i q t.ino_to_path (λ e. n (sym e))

module _ (p : PathBuf) (i : ℕ) where
  take_out-Memᴰ :
      (f : PathBuf → PathBuf) (olds : List PathBuf) (t : Inodes)
      → lookup p t.path_to_ino ≡ some i
      → Memᴰ p olds
      → Memᴰ (i, f p) (take_out f olds t).1
  unfolding take_out
  take_out-Memᴰ f [] t l m = elim m [ ]
  take_out-Memᴰ f (old ∷ olds) t l m = elim (Bool-cases (old == p)) [
    | inl e ↦
        let here : lookup old t.path_to_ino ≡ some i =
          ap (λ (q : PathBuf). lookup q t.path_to_ino) (eq_true e) ∙ l in
        rw here (Memᴰ.head (ap (λ (q : PathBuf). (i, f q)) (sym (eq_true e))))
    | inr n ↦ append_right (moved_to (f old) (lookup old t.path_to_ino)) (
        take_out-Memᴰ f olds (unlisted old t)
          (lookup-remove_other old p t.path_to_ino (ne_of_eq_false n) ∙ l)
          (elim (cases_cons m) [ inl e ↦ absurd (ne_of_eq_false n (sym e)) | inr below ↦ below ]))
  ]

  keys-Memᴰ :
      (src : PathBuf) (m : Assoc PathBuf ℕ)
      → starts_with p src ≡ true
      → lookup p m ≡ some i
      → Memᴰ p (map (λ (e : PathBuf × ℕ). e.0) (retain (λ q j. starts_with q src) m))
  unfolding lookup retain
  keys-Memᴰ src [] s l = absurd (cc l)
  keys-Memᴰ src ((q, j) ∷ m) s l = elim (Bool-cases (q == p)) [
    | inl e ↦
        let kept : starts_with q src ≡ true =
          ap (λ (r : PathBuf). starts_with r src) (eq_true e) ∙ s in
        rw kept (Memᴰ.head (sym (eq_true e)))
    | inr n ↦
        let there : lookup p m ≡ some i = ground (arith, n, l) in
        elim (Bool-cases (starts_with q src)) [
          | inl y ↦ rw y (Memᴰ.tail (keys-Memᴰ src m s there))
          | inr y ↦ rw y (keys-Memᴰ src m s there)
        ]
  ]

  lookup-place :
      (ms : List (ℕ × PathBuf)) (t : Inodes)
      → Free t ms
      → Memᴰ (i, p) ms
      → lookup i (place ms t).ino_to_path ≡ some p
  unfolding place tie
  lookup-place [] t f m = elim m [ ]
  lookup-place ((j, q) ∷ ms) t (u, l, o, f) m = elim (cases_cons m) [
    | inl e ↦
        let ij : i ≡ j = ap (λ (x : ℕ × PathBuf). x.0) e in
        let pq : p ≡ q = ap (λ (x : ℕ × PathBuf). x.1) e in
        ap (λ (k : ℕ). lookup k (place ms (tie j q t)).ino_to_path) ij
        ∙ lookup-place-Others j ms (tie j q t) o
        ∙ lookup-insert_same j q t.ino_to_path
        ∙ ap (λ (r : PathBuf). some r) (sym pq)
    | inr below ↦ lookup-place ms (tie j q t) (Free-tie j q t ms o f) below
  ]

starts_with-append : (src rel : PathBuf) → starts_with (src ++ rel) src ≡ true
starts_with-append [] [] = refl
starts_with-append [] (r ∷ rel) = refl
starts_with-append (s ∷ src) rel = rw (eq_self s) (starts_with-append src rel)

drop_overwritten-other :
    (dst p : PathBuf) (t : Inodes)
    → p ≢ dst
    → lookup p (drop_overwritten dst t).path_to_ino ≡ lookup p t.path_to_ino
unfolding drop_overwritten drop_found untie
drop_overwritten-other dst p t n = elim (Option-cases (lookup dst t.path_to_ino)) [
  | inl e ↦ rw e refl
  | inr (j, e) ↦ rw e (lookup-remove_other dst p t.path_to_ino (λ d. n (sym d)))
]

collect-Memᴰ :
    (src rel dst : PathBuf) (i : ℕ) (t : Inodes)
    → lookup (src ++ rel) t.path_to_ino ≡ some i
    → Memᴰ (i, dst ++ rel) (collect src dst true t).1
unfolding collect take_out stale
collect-Memᴰ src [] dst i t l =
    let here : lookup src t.path_to_ino ≡ some i =
      ap (λ (q : PathBuf). lookup q t.path_to_ino) (sym (append-nil src)) ∙ l in
    rw here (Memᴰ.head (ap (λ (q : PathBuf). (i, q)) (append-nil dst)))
collect-Memᴰ src (n ∷ rel) dst i t l =
    let p = src ++ (n ∷ rel) in
    let first = take_out (λ p. dst) (src ∷ []) t in
    let kept : lookup p first.0.path_to_ino ≡ some i =
      lookup-remove_other src p t.path_to_ino
        (λ e. omega (arith, ap length e, length-append src (n ∷ rel)))
      ∙ l in
    append_right first.1 (
      subst
        (λ (r : PathBuf).
          Memᴰ (i, dst ++ r) (take_out (moved_path src dst) (stale src first.0) first.0).1)
        (drop-append src (n ∷ rel))
        (take_out-Memᴰ p i (moved_path src dst) (stale src first.0) first.0 kept
          (keys-Memᴰ p i src first.0.path_to_ino (starts_with-append src (n ∷ rel)) kept)))

-- After any calls, as long as the numbers do not wrap: when a directory is renamed, the inode of a path in it,
-- or of itself, resolves to the path below the new name. The path is not the new name itself.
pub move_inodes-follows :
    (ks : List Call) (src rel dst : PathBuf) (i : ℕ)
    → 100 + length ks < 2 ^ 64
    → lookup (src ++ rel) (run ks new).path_to_ino ≡ some i
    → src ++ rel ≢ dst
    → lookup i (move_inodes src dst true (run ks new)).ino_to_path ≡ some (dst ++ rel)
unfolding move_inodes
move_inodes-follows ks src rel dst i l e n =
    let t = run ks new in
    let d = drop_overwritten dst t in
    let h = run-IsPaired ks new (omega (arith, l)) new-IsPaired in
    let c = collect-Free src dst true d (drop_overwritten-IsPaired dst t h.0) in
    lookup-place (dst ++ rel) i (collect src dst true d).1 (collect src dst true d).0 c.1
      (collect-Memᴰ src rel dst i d (drop_overwritten-other dst (src ++ rel) t n ∙ e))
