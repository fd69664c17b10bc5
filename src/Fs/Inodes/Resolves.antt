-- ===== src/Fs/Inodes/Resolves.antt =====
-- The calls of the kernel, one after the other, on the inode table.
use adbshare.Base.{
  ℕ, ◌+◌, ◌<◌, ◌≤◌, ◌^◌, ◌%◌, ◌≡◌, refl, ◌∙◌, Bool, inl, inr, Option-cases, some, List, [], ◌∷◌,
  ◌++◌, length, ◌==◌, ℕ_eq, list_eq, if◌then◌else◌, if_both, arith,
}
use adbshare.Base.Assoc.{lookup, lookup-insert_same}
use adbshare.Base.Bytes.{Bytes}
use adbshare.Fs.{PathBuf}
use adbshare.Fs.Inodes.{
  Inodes, root, new, resolve_child, tie, ino_for_found, ino_for, forget_ino, drop_overwritten,
  drop_found, untie, take_out, moved_path, stale, place, collect, move_inodes, forget_found,
}
use adbshare.Fs.Inodes.Paired.{
  IsPaired, Unused, Others, Free, Stem, tie-IsPaired, Others-Stem, Unused-take_out,
  take_out-IsTaken, drop_overwritten-IsPaired, forget_ino-IsPaired, place-IsPaired,
}

Others-append :
    (i : ℕ) (ms ns : List (ℕ × PathBuf)) → Others i ms → Others i ns → Others i (ms ++ ns)
Others-append i [] ns o q = q
Others-append i ((j, p) ∷ ms) ns (n, o) q = (n, Others-append i ms ns o q)

Free-append :
    (t t' : Inodes) (ms ns : List (ℕ × PathBuf))
    → ((i : ℕ) → Unused i t → Unused i t')
    → t'.next_ino ≡ t.next_ino
    → Free t ms
    → Stem t ns
    → Free t' ns
    → Free t' (ms ++ ns)
Free-append t t' [] ns k e f s g = g
Free-append t t' ((i, p) ∷ ms) ns k e (u, l, o, f) s g = (
  k i u,
  omega (arith, l, e),
  Others-append i ms ns o (Others-Stem i t ns u s),
  Free-append t t' ms ns k e f s g,
)

pub collect-Free :
    (src dst : PathBuf) (is_dir : Bool) (t : Inodes)
    → IsPaired t
    → IsPaired (collect src dst is_dir t).0
      × Free (collect src dst is_dir t).0 (collect src dst is_dir t).1
      × ((collect src dst is_dir t).0.next_ino ≡ t.next_ino)
unfolding collect
collect-Free src dst is_dir t h =
    let first = take_out (λ p. dst) (src ∷ []) t in
    let olds = if is_dir then stale src first.0 else [] in
    let a = take_out-IsTaken (λ p. dst) (src ∷ []) t h in
    let b = take_out-IsTaken (moved_path src dst) olds first.0 a.paired in
    (
      b.paired,
      Free-append first.0 (take_out (moved_path src dst) olds first.0).0 first.1
          (take_out (moved_path src dst) olds first.0).1
          (Unused-take_out (moved_path src dst) olds first.0) b.next a.free b.stem b.free,
      b.next ∙ a.next,
    )

move_inodes-IsPaired :
    (src dst : PathBuf) (is_dir : Bool) (t : Inodes)
    → IsPaired t
    → IsPaired (move_inodes src dst is_dir t)
unfolding move_inodes
move_inodes-IsPaired src dst is_dir t h =
    let d = drop_overwritten dst t in
    let c = collect-Free src dst is_dir d (drop_overwritten-IsPaired dst t h) in
    place-IsPaired (collect src dst is_dir d).1 (collect src dst is_dir d).0 c.0 c.1

next-place : (ms : List (ℕ × PathBuf)) (t : Inodes) → (place ms t).next_ino ≡ t.next_ino
unfolding place tie
next-place [] t = refl
next-place ((i, p) ∷ ms) t = next-place ms (tie i p t)

next-drop_overwritten :
    (dst : PathBuf) (t : Inodes) → (drop_overwritten dst t).next_ino ≡ t.next_ino
unfolding drop_overwritten drop_found untie
next-drop_overwritten dst t = elim (Option-cases (lookup dst t.path_to_ino)) [
  | inl e ↦ rw e refl
  | inr (i, e) ↦ rw e refl
]

next-move_inodes :
    (src dst : PathBuf) (is_dir : Bool) (t : Inodes)
    → IsPaired t
    → (move_inodes src dst is_dir t).next_ino ≡ t.next_ino
unfolding move_inodes
next-move_inodes src dst is_dir t h =
    let d = drop_overwritten dst t in
    let c = collect src dst is_dir d in
    next-place c.1 c.0
    ∙ (collect-Free src dst is_dir d (drop_overwritten-IsPaired dst t h)).2
    ∙ next-drop_overwritten dst t

next-forget_ino : (i : ℕ) (t : Inodes) → (forget_ino i t).next_ino ≡ t.next_ino
unfolding forget_ino forget_found untie
next-forget_ino i t =
    if_both (λ (r : Inodes). r.next_ino ≡ t.next_ino) (i == root) refl
      (elim (Option-cases (lookup i t.ino_to_path)) [ inl e ↦ rw e refl | inr (p, e) ↦ rw e refl ])

-- A number that wraps is not reached.
next-IsPaired :
    (t : Inodes)
    → t.next_ino + 1 < 2 ^ 64
    → IsPaired t
    → IsPaired (record t { next_ino = (t.next_ino + 1) % 2 ^ 64 })
next-IsPaired t l h = record {
  resolves = h.resolves;
  below = λ p i e. omega (arith, h.below p i e, l);
}

ino_for-IsPaired :
    (p : PathBuf) (t : Inodes) → t.next_ino + 1 < 2 ^ 64 → IsPaired t → IsPaired (ino_for p t).0
unfolding ino_for ino_for_found Unused
ino_for-IsPaired p t l h = elim (Option-cases (lookup p t.path_to_ino)) [
  | inr (i, e) ↦ rw e h
  | inl e ↦ rw e (
      tie-IsPaired t.next_ino p (record t { next_ino = (t.next_ino + 1) % 2 ^ 64 })
        (next-IsPaired t l h) (λ q e. omega (arith, h.below q t.next_ino e)) (omega (arith, l)))
]

next-ino_for :
    (p : PathBuf) (t : Inodes) → t.next_ino + 1 < 2 ^ 64 → (ino_for p t).0.next_ino ≤ t.next_ino + 1
unfolding ino_for ino_for_found tie
next-ino_for p t l = elim (Option-cases (lookup p t.path_to_ino)) [
  | inr (i, e) ↦ rw e (omega arith)
  | inl e ↦ rw e (omega (arith, l))
]

-- A call that changes the table: a path looked up or listed, an inode forgotten, a rename that the device did.
pub data Call : Type 0 where
  looks_up : PathBuf → Call
  forgets : ℕ → Call
  renames : PathBuf → PathBuf → Bool → Call

unfoldable pub run : List Call → Inodes → Inodes
unfolding ino_for forget_ino move_inodes
run [] t = t
run (looks_up p ∷ ks) t = run ks (ino_for p t).0
run (forgets i ∷ ks) t = run ks (forget_ino i t)
run (renames src dst is_dir ∷ ks) t = run ks (move_inodes src dst is_dir t)

pub run-IsPaired :
    (ks : List Call) (t : Inodes)
    → t.next_ino + length ks < 2 ^ 64
    → IsPaired t
    → IsPaired (run ks t) × ((run ks t).next_ino ≤ t.next_ino + length ks)
unfolding run
run-IsPaired [] t l h = (h, omega arith)
run-IsPaired (looks_up p ∷ ks) t l h =
    let n = next-ino_for p t (omega (arith, l)) in
    let r =
      run-IsPaired ks (ino_for p t).0 (omega (arith, l, n))
        (ino_for-IsPaired p t (omega (arith, l)) h) in
    (r.0, omega (arith, r.1, n))
run-IsPaired (forgets i ∷ ks) t l h =
    let n = next-forget_ino i t in
    let r = run-IsPaired ks (forget_ino i t) (omega (arith, l, n)) (forget_ino-IsPaired i t h) in
    (r.0, omega (arith, r.1, n))
run-IsPaired (renames src dst is_dir ∷ ks) t l h =
    let n = next-move_inodes src dst is_dir t h in
    let r =
      run-IsPaired ks (move_inodes src dst is_dir t) (omega (arith, l, n))
        (move_inodes-IsPaired src dst is_dir t h) in
    (r.0, omega (arith, r.1, n))

root-cases : (p : PathBuf) (i : ℕ) → lookup p new.path_to_ino ≡ some i → (p ≡ []) × (i ≡ root)
unfolding lookup
root-cases [] i e = (refl, ground (arith, e))
root-cases (n ∷ p) i e = cc e

pub new-IsPaired : IsPaired new
unfolding lookup
new-IsPaired = record {
  resolves = λ p i e. let r = root-cases p i e in rw (r.0, r.1) refl;
  below = λ p i e. omega (arith, (root-cases p i e).1);
}

-- A path has its inode after `ino_for`.
lookup-ino_for :
    (p : PathBuf) (t : Inodes) → lookup p (ino_for p t).0.path_to_ino ≡ some (ino_for p t).1
unfolding ino_for ino_for_found tie
lookup-ino_for p t = elim (Option-cases (lookup p t.path_to_ino)) [
  | inr (i, e) ↦ rw e e
  | inl e ↦ rw e (lookup-insert_same p t.next_ino t.path_to_ino)
]

-- After any calls, as long as the numbers do not wrap, the inode that a path is given resolves: a name
-- looked up in it is the name below that path.
pub resolve_child-ino_for :
    (ks : List Call) (p : PathBuf) (name : Bytes)
    → 101 + length ks < 2 ^ 64
    → resolve_child (ino_for p (run ks new)).1 name (ino_for p (run ks new)).0
      ≡ some (p ++ name ∷ [])
unfolding resolve_child
resolve_child-ino_for ks p name l =
    let t = run ks new in
    let h = run-IsPaired ks new (omega (arith, l)) new-IsPaired in
    let h' = ino_for-IsPaired p t (omega (arith, l, h.1)) h.0 in
    rw (h'.resolves p (ino_for p t).1 (lookup-ino_for p t)) refl
