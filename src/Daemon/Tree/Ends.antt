-- ===== src/Daemon/Tree/Ends.antt =====
-- A pull of a tree ends, for its depth is capped and no listing is endless.
use native.Mathlib.Nat.{mul-le-mul_right}
use mathlib.Core.List.{append-nil}
use adbshare.Base.{
  ℕ, zero, suc, ◌+◌, ◌-◌, ◌*◌, ◌≤◌, ◌<◌, ◌≡◌, refl, sym, leb, String, ◌⊎◌, inl, inr, Option, none,
  some, List, [], ◌∷◌, length, ℕ_eq, if◌then◌else◌, arith, if_both, Bool-cases,
}
use adbshare.Base.Bytes.{Bytes}
use adbshare.Proxy.Ops.{mode_is_dir, mode_is_symlink}
use adbshare.Proxy.Listing.{DirEntry}
use adbshare.Transfer.Job.{JobOptions}
use adbshare.Transfer.Queue.{JobQueue}
use adbshare.Daemon.Tree.{TreeEnv, TreeError, child_path, tree_max_depth, tree_max_files}
use adbshare.Daemon.Tree.Pull.{
  too_many_files, Pending, Walk, Round, goes_on, replies, fails, note, enqueue, made_dir,
  capped_entry, and_on, pull_entries, pull_listed, pull_dir, after_dir, pull_walk,
  enqueue_tree_pull,
}
use adbshare.Daemon.Tree.Appended.{Appends, GoodRound, pull_dir-Good}

module _ (width : ℕ) where
  -- How many directories are walked at and below one with so many levels left, where no listing is
  -- longer than `width`.
  abbrev pub size : ℕ → ℕ
  size zero = 1
  size (suc levels) = 1 + width * size levels

  abbrev weigh : ℕ → ℕ
  weigh depth = size (tree_max_depth - depth)

  abbrev weight : List Pending → ℕ
  weight [] = 0
  weight ((remote, local, depth) ∷ stack) = weigh depth + weight stack

  abbrev Within : {W E : Type 0} → ℕ → Round W E → Type 0
  Within n (goes_on stack s) = weight stack ≤ n
  Within n _ = Unit {0}

  one-le-size : (n : ℕ) → 1 ≤ size n
  one-le-size zero = omega arith
  one-le-size (suc n) = omega arith

module _ {W E : Type 0} (env : TreeEnv W E) (device : String) (options : JobOptions)
    (width : ℕ) where
  made_dir-Within :
      (remote local : Bytes) (depth : ℕ) (stack : List Pending) (s : Walk W)
      (r : W × (E ⊎ (Unit {0})))
      → Within width
          (weigh width depth + weight width stack)
          (made_dir env device options (remote, local, depth) stack s r)
  made_dir-Within remote local depth stack s (w, inl e) = tt
  made_dir-Within remote local depth stack s (w, inr u) = omega arith

  capped_entry-Within :
      (e : DirEntry) (remote local : Bytes) (depth : ℕ) (stack : List Pending) (s : Walk W)
      → Within width
          (weigh width (depth + 1) + weight width stack)
          (capped_entry env device options e (remote, local, depth) stack s)
  capped_entry-Within e remote local depth stack s =
      let n = weigh width (depth + 1) + weight width stack in
      let child = child_path remote e.name in
      let to = env.join local e.name in
      let dir =
        made_dir env device options (child, to, depth + 1) stack s
          (env.create_dir_all to s.world) in
      let file = goes_on stack (enqueue env device options child to s) in
      let below = if mode_is_dir e.stat.mode then dir else file in
      let entry = if mode_is_symlink e.stat.mode then goes_on stack s else below in
      if_both (Within width n) (leb tree_max_files (length s.out.enqueued))
        {x = replies (note env device options too_many_files s)} {y = entry} tt
        (if_both (Within width n) (mode_is_symlink e.stat.mode) {x = goes_on stack s} {y = below}
          (omega arith)
          (if_both (Within width n) (mode_is_dir e.stat.mode) {x = dir} {y = file}
            (made_dir-Within child to (depth + 1) stack s (env.create_dir_all to s.world))
            (omega arith)))

  and_on-Within :
      (n m : ℕ) (next : List Pending → Walk W → Round W E) (r : Round W E)
      → Within width n r
      → ((stack : List Pending) (s : Walk W)
          → weight width stack ≤ n
          → Within width m (next stack s))
      → Within width m (and_on env device options next r)
  and_on-Within n m next (goes_on stack s) h k = k stack s h
  and_on-Within n m next (replies s) h k = tt
  and_on-Within n m next (fails e s) h k = tt

  Within-le : (n m : ℕ) (r : Round W E) → n ≤ m → Within width n r → Within width m r
  Within-le n m (goes_on stack s) le h = omega arith
  Within-le n m (replies s) le h = tt
  Within-le n m (fails e s) le h = tt

  pull_entries-Within :
      (es : List DirEntry) (remote local : Bytes) (depth : ℕ) (stack : List Pending) (s : Walk W)
      → Within width
          (length es * weigh width (depth + 1) + weight width stack)
          (pull_entries env device options es (remote, local, depth) stack s)
  unfolding pull_entries
  pull_entries-Within [] remote local depth stack s = omega arith
  pull_entries-Within (e ∷ es) remote local depth stack s =
      let w = weigh width (depth + 1) in
      and_on-Within (w + weight width stack) (suc (length es) * w + weight width stack)
        (pull_entries env device options es (remote, local, depth))
        (capped_entry env device options e (remote, local, depth) stack s)
        (capped_entry-Within e remote local depth stack s)
        (λ st s' h.
          Within-le (length es * w + weight width st) (suc (length es) * w + weight width stack)
            (pull_entries env device options es (remote, local, depth) st s') (omega arith)
            (pull_entries-Within es remote local depth st s'))

  -- No listing of the phone is longer than `width`.
  abbrev pub ListsWithin : Type 0
  ListsWithin =
      (p : Bytes) (w : W) (es : List DirEntry) → (env.listdir p w).1 ≡ inr es → length es ≤ width

  pull_listed-Within :
      (remote local : Bytes) (depth : ℕ) (stack : List Pending) (s : Walk W) (w : W)
      (got : E ⊎ List DirEntry)
      → ((es : List DirEntry) → got ≡ inr es → length es ≤ width)
      → Within width
          (width * weigh width (depth + 1) + weight width stack)
          (pull_listed env device options (remote, local, depth) stack s (w, got))
  pull_listed-Within remote local depth stack s w (inl e) k = tt
  pull_listed-Within remote local depth stack s w (inr es) k =
      Within-le (length es * weigh width (depth + 1) + weight width stack)
        (width * weigh width (depth + 1) + weight width stack)
        (pull_entries env device options es (remote, local, depth) stack (record s { world = w }))
        (omega (arith, mul-le-mul_right (weigh width (depth + 1)) (k es refl)))
        (pull_entries-Within es remote local depth stack (record s { world = w }))

  weigh-suc :
      (depth : ℕ) → depth < tree_max_depth → weigh width depth ≡ 1 + width * weigh width (depth + 1)
  weigh-suc depth h =
      let e : tree_max_depth - depth ≡ suc (tree_max_depth - (depth + 1)) = omega arith in rw e refl

  -- A round on a directory makes the stack lighter.
  pull_dir-Within :
      (lists : ListsWithin) (at : Pending) (stack : List Pending) (s : Walk W) (n : ℕ)
      → weight width (at ∷ stack) ≤ suc n
      → Within width n (pull_dir env device options at stack s)
  pull_dir-Within lists (remote, local, depth) stack s n h =
      elim (Bool-cases (leb tree_max_depth depth)) [
        | inl t ↦ rw t (omega (arith, one-le-size width (tree_max_depth - depth)))
        | inr t ↦ rw t (
            Within-le (width * weigh width (depth + 1) + weight width stack) n _
              (omega (arith, weigh-suc depth (ground arith)))
              (pull_listed-Within remote local depth stack s (env.listdir remote s.world).0
                (env.listdir remote s.world).1 (lists remote s.world)))
      ]

  -- The walk has a result, and the queue is the one that it appends to.
  abbrev EndsGood : JobQueue → Option (Walk W × Option (TreeError E)) → Type 0
  EndsGood q o =
      (s : Walk W) × (r : Option (TreeError E)) × (o ≡ some (s, r))
      × Appends device options q s.queue s.out.enqueued

  after_dir-EndsGood :
      (q : JobQueue) (n : ℕ) (next : List Pending → Walk W → Option (Walk W × Option (TreeError E)))
      (r : Round W E)
      → ((stack : List Pending) (s : Walk W)
          → weight width stack ≤ n
          → Appends device options q s.queue s.out.enqueued
          → EndsGood q (next stack s))
      → Within width n r
      → GoodRound env device options q r
      → EndsGood q (after_dir env device options next r)
  after_dir-EndsGood q n next (goes_on stack s) k h g = k stack s h g
  after_dir-EndsGood q n next (replies s) k h g = (s, none, refl, g)
  after_dir-EndsGood q n next (fails e s) k h g = (s, some e, refl, g)

  pull_walk-EndsGood :
      (q : JobQueue) (fuel : ℕ) (stack : List Pending) (s : Walk W)
      → ListsWithin
      → weight width stack < fuel
      → Appends device options q s.queue s.out.enqueued
      → EndsGood q (pull_walk env device options fuel stack s)
  unfolding pull_walk
  pull_walk-EndsGood q zero stack s lists enough g = absurd (omega arith)
  pull_walk-EndsGood q (suc fuel) [] s lists enough g = (s, none, refl, g)
  pull_walk-EndsGood q (suc zero) ((remote, local, depth) ∷ stack) s lists enough g =
      absurd (omega (arith, one-le-size width (tree_max_depth - depth)))
  pull_walk-EndsGood q (suc (suc n)) (at ∷ stack) s lists enough g =
      after_dir-EndsGood q n (pull_walk env device options (suc n))
        (pull_dir env device options at stack s)
        (λ st s' h g'. pull_walk-EndsGood q (suc n) st s' lists (omega arith) g')
        (pull_dir-Within lists at stack s n (omega arith))
        (pull_dir-Good env device options q at stack s g)

  -- A pull of a tree of which no listing is longer than `width` ends, with fuel for one round more
  -- than there can be directories in 32 levels, whatever the phone and the host answer. Whether it
  -- replies or fails, it has added its jobs at the end of the queue, at most 10000, all pulls of
  -- the device with the options, of which the reply lists the ids in order, and left the jobs that
  -- were there as they were.
  pub enqueue_tree_pull-Appends :
      (fuel : ℕ) (device_dir local_dir : Bytes) (w : W) (q : JobQueue)
      → ListsWithin
      → size width tree_max_depth < fuel
      → (s : Walk W) × (r : Option (TreeError E)) × (enqueue_tree_pull env device options fuel
            device_dir local_dir w q
          ≡ some (s, r))
        × Appends device options q s.queue s.out.enqueued
  unfolding enqueue_tree_pull
  enqueue_tree_pull-Appends fuel device_dir local_dir w q lists enough =
      pull_walk-EndsGood q fuel ((device_dir, local_dir, 0) ∷ []) _ lists (omega arith) (record {
        jobs = [];
        at_end = sym (append-nil q.pending);
        listed = refl;
        same_in_flight = refl;
        same_completed = refl;
        within = omega arith;
        pulls = tt;
      })
