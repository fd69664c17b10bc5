-- ===== src/Daemon/Tree/Confined.antt =====
-- A recursive delete stays below the path that it was given.
use mathlib.Core.List.{append_assoc}
use adbshare.Base.{
  ℕ, zero, suc, ◌≡◌, refl, ◌∙◌, true, false, ◌⊎◌, inl, inr, List, [], ◌∷◌, ◌++◌, ◌==◌, ℕ_eq,
  Bool-cases,
}
use adbshare.Base.Bytes.{Bytes}
use adbshare.Proxy.Ops.{Stat, mode_is_dir, mode_is_symlink}
use adbshare.Proxy.Listing.{DirEntry}
use adbshare.Daemon.Tree.{
  TreeEnv, TreeError, keep_trimmed, trim_slashes, child_path, then_remove, or_client,
  remove_children, remove_listed, remove_node, delete_levels, delete_recursive, delete_max_depth,
}

-- The path itself, or one that goes on below it.
abbrev pub IsUnder : Bytes → Bytes → Type 0
IsUnder root p = (p ≡ root) ⊎ ((rest : Bytes) × (p ≡ trim_slashes root ++ (47 ∷ rest)))

trim_slashes-append-nil :
    (a b : Bytes) → trim_slashes b ≡ [] → trim_slashes (a ++ b) ≡ trim_slashes a
unfolding trim_slashes
trim_slashes-append-nil [] b e = e
trim_slashes-append-nil (x ∷ a) b e = rw (trim_slashes-append-nil a b e) refl

trim_slashes-append-cons :
    (a b : Bytes) (c : ℕ) (cs : Bytes)
    → trim_slashes b ≡ c ∷ cs
    → trim_slashes (a ++ b) ≡ a ++ (c ∷ cs)
unfolding trim_slashes
trim_slashes-append-cons [] b c cs e = e
trim_slashes-append-cons (x ∷ []) b c cs e = rw e refl
trim_slashes-append-cons (x ∷ (y ∷ a)) b c cs e =
    rw (trim_slashes-append-cons (y ∷ a) b c cs e) refl

keep_trimmed-cases :
    (b : ℕ) (t : Bytes) → (keep_trimmed b t ≡ []) ⊎ ((cs : Bytes) × (keep_trimmed b t ≡ b ∷ cs))
keep_trimmed-cases b [] = elim (Bool-cases (b == 47)) [
  | inl q ↦ inl (rw q refl)
  | inr q ↦ inr ([], rw q refl)
]
keep_trimmed-cases b (c ∷ cs) = inr (c ∷ cs, refl)

trim_slashes-keep_trimmed :
    (b : ℕ) (t : Bytes) → trim_slashes t ≡ t → trim_slashes (keep_trimmed b t) ≡ keep_trimmed b t
unfolding trim_slashes
trim_slashes-keep_trimmed b [] h = elim (Bool-cases (b == 47)) [
  | inl q ↦ rw q refl
  | inr q ↦ rw q (rw q refl)
]
trim_slashes-keep_trimmed b (c ∷ cs) h = rw h refl

trim_slashes-trim_slashes : (a : Bytes) → trim_slashes (trim_slashes a) ≡ trim_slashes a
unfolding trim_slashes
trim_slashes-trim_slashes [] = refl
trim_slashes-trim_slashes (b ∷ bs) =
    trim_slashes-keep_trimmed b (trim_slashes bs) (trim_slashes-trim_slashes bs)

trim_slashes-below :
    (root rest : Bytes)
    → (trim_slashes (trim_slashes root ++ (47 ∷ rest)) ≡ trim_slashes root)
      ⊎ ((cs : Bytes) × (trim_slashes (trim_slashes root ++ (47 ∷ rest))
            ≡ trim_slashes root ++ (47 ∷ cs)))
unfolding trim_slashes
trim_slashes-below root rest = elim (keep_trimmed-cases 47 (trim_slashes rest)) [
  | inl t ↦
      inl
        (trim_slashes-append-nil (trim_slashes root) (47 ∷ rest) t ∙ trim_slashes-trim_slashes root)
  | inr (cs, t) ↦ inr (cs, trim_slashes-append-cons (trim_slashes root) (47 ∷ rest) 47 cs t)
]

IsUnder-child_path : (root p name : Bytes) → IsUnder root p → IsUnder root (child_path p name)
unfolding child_path
IsUnder-child_path root p name (inl e) = inr (name, rw e refl)
IsUnder-child_path root p name (inr (rest, e)) = elim (trim_slashes-below root rest) [
  | inl t ↦ inr (name, rw (e, t) refl)
  | inr (cs, t) ↦
      inr (cs ++ (47 ∷ name), rw (e, t) (append_assoc (trim_slashes root) (47 ∷ cs) (47 ∷ name)))
]

-- A property of the world that is not broken by looking at paths, by listing a path that is a
-- directory and no symbolic link, nor by removing what is under a root.
pub record WithstandsBelow {W E : Type 0} (env : TreeEnv W E) (root : Bytes) (P : W → Type 0)
    : Type 0 where
  pub lstat : (p : Bytes) (w : W) → P w → P (env.lstat p w).0
  pub listdir :
      (p : Bytes) (w : W) (st : Stat)
      → IsUnder root p
      → (env.lstat p w).1 ≡ inr st
      → mode_is_dir st.mode ≡ true
      → mode_is_symlink st.mode ≡ false
      → P (env.lstat p w).0
      → P (env.listdir p (env.lstat p w).0).0
  pub unlink : (p : Bytes) (w : W) → IsUnder root p → P w → P (env.unlink p w).0
  pub rmdir : (p : Bytes) (w : W) → IsUnder root p → P w → P (env.rmdir p w).0

module _ {W E : Type 0} (env : TreeEnv W E) (root : Bytes) (P : W → Type 0)
    (safe : WithstandsBelow env root P) where
  or_client-P : (r : W × (E ⊎ (Unit {0}))) → P r.0 → P (or_client env r).0
  or_client-P (w, inl e) h = h
  or_client-P (w, inr u) h = h

  then_remove-P :
      (r : W × (TreeError E ⊎ (Unit {0}))) (next : W → W × (TreeError E ⊎ (Unit {0})))
      → ((w : W) → P w → P (next w).0)
      → P r.0
      → P (then_remove env r next).0
  then_remove-P (w, inl x) next k h = h
  then_remove-P (w, inr u) next k h = k w h

  remove_children-P :
      (remove : Bytes → W → W × (TreeError E ⊎ (Unit {0}))) (path : Bytes) (es : List DirEntry)
      (w : W)
      → ((p : Bytes) (w' : W) → IsUnder root p → P w' → P (remove p w').0)
      → IsUnder root path
      → P w
      → P (remove_children env remove path es w).0
  remove_children-P remove path [] w k u h = or_client-P (env.rmdir path w) (safe.rmdir path w u h)
  remove_children-P remove path (e ∷ es) w k u h =
      then_remove-P (remove (child_path path e.name) w) (remove_children env remove path es)
        (λ w' h'. remove_children-P remove path es w' k u h')
        (k (child_path path e.name) w (IsUnder-child_path root path e.name u) h)

  remove_listed-P :
      (remove : Bytes → W → W × (TreeError E ⊎ (Unit {0}))) (path : Bytes)
      (got : W × (E ⊎ List DirEntry))
      → ((p : Bytes) (w' : W) → IsUnder root p → P w' → P (remove p w').0)
      → IsUnder root path
      → P got.0
      → P (remove_listed env remove path got).0
  remove_listed-P remove path (w, inl e) k u h = h
  remove_listed-P remove path (w, inr es) k u h = remove_children-P remove path es w k u h

  remove_node-P :
      (remove : Bytes → W → W × (TreeError E ⊎ (Unit {0}))) (path : Bytes) (w : W) (got : E ⊎ Stat)
      → ((p : Bytes) (w' : W) → IsUnder root p → P w' → P (remove p w').0)
      → IsUnder root path
      → (env.lstat path w).1 ≡ got
      → P (env.lstat path w).0
      → P (remove_node env remove path ((env.lstat path w).0, got)).0
  remove_node-P remove path w (inl e) k u q h = h
  remove_node-P remove path w (inr st) k u q h =
      let unlinked = or_client-P _ (safe.unlink path (env.lstat path w).0 u h) in
      elim (Bool-cases (mode_is_symlink st.mode)) [
        | inl s ↦ rw s unlinked
        | inr s ↦ elim (Bool-cases (mode_is_dir st.mode)) [
          | inl d ↦
              rw (s, d)
                (remove_listed-P remove path (env.listdir path (env.lstat path w).0) k u
                  (safe.listdir path w st u q d s h))
          | inr d ↦ rw (s, d) unlinked
        ]
      ]

  delete_levels-P :
      (levels : ℕ) (path : Bytes) (w : W)
      → IsUnder root path
      → P w
      → P (delete_levels env levels path w).0
  unfolding delete_levels
  delete_levels-P zero path w u h = h
  delete_levels-P (suc levels) path w u h =
      remove_node-P (delete_levels env levels) path w (env.lstat path w).1
        (λ p w' u' h'. delete_levels-P levels p w' u' h') u refl (safe.lstat path w h)

  -- A recursive delete, which goes down 65 levels at most and ends, whatever the device answers,
  -- removes nothing but the path it was given and what is textually below it, lists only what it
  -- was told is a directory and no symbolic link, and so never goes through a link to another place.
  pub delete_recursive_lem : (w : W) → P w → P (delete_recursive env root w).0
  unfolding delete_recursive
  delete_recursive_lem w h = delete_levels-P (suc delete_max_depth) root w (inl refl) h
