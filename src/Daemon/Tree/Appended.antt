-- ===== src/Daemon/Tree/Appended.antt =====
-- A pull of a tree adds jobs at the end of the queue, within the cap, and changes nothing else there.
use mathlib.Core.List.{append_assoc}
use adbshare.Base.{
  ℕ, ◌≤◌, ◌<◌, ◌≡◌, refl, ap, ◌∙◌, leb, String, ◌⊎◌, inl, inr, some, List, [], ◌∷◌, ◌++◌, map,
  length, length-append, ℕ_eq, arith, Bool-cases,
}
use adbshare.Base.Bytes.{Bytes}
use adbshare.Proxy.Ops.{mode_is_dir, mode_is_symlink}
use adbshare.Proxy.Listing.{DirEntry}
use adbshare.Transfer.Job.{Job, pull, JobOptions, with_device}
use adbshare.Transfer.Queue.{JobQueue, submit, numbered}
use adbshare.Daemon.Tree.{TreeEnv, child_path, tree_max_depth, tree_max_files}
use adbshare.Daemon.Tree.Pull.{
  Pending, Walk, Round, goes_on, replies, fails, enqueue, made_dir, capped_entry, and_on,
  pull_entries, pull_listed, pull_dir,
}

module _ (device : String) (options : JobOptions) where
  -- Jobs of this call: pulls of its device with its options.
  abbrev pub ArePulls : List Job → Type 0
  ArePulls [] = Unit
  ArePulls (j ∷ js) =
      ((j.direction ≡ pull) × (j.device ≡ some device) × (j.options ≡ options)) × ArePulls js

  pub ArePulls-append : (xs ys : List Job) → ArePulls xs → ArePulls ys → ArePulls (xs ++ ys)
  ArePulls-append [] ys a b = b
  ArePulls-append (x ∷ xs) ys a b = (a.0, ArePulls-append xs ys a.1 b)

  -- What a walk has made of a queue: jobs at its end, whose ids the reply lists, within the cap.
  pub record Appends (q queue : JobQueue) (enqueued : List ℕ) : Type 0 where
    pub jobs : List Job
    pub at_end : queue.pending ≡ q.pending ++ jobs
    pub listed : map (λ j. j.id) jobs ≡ enqueued
    pub same_in_flight : queue.in_flight ≡ q.in_flight
    pub same_completed : queue.completed ≡ q.completed
    pub within : length enqueued ≤ tree_max_files
    pub pulls : ArePulls jobs

map_id-append :
    (xs ys : List Job) → map (λ j. j.id) (xs ++ ys) ≡ map (λ j. j.id) xs ++ map (λ j. j.id) ys
map_id-append [] ys = refl
map_id-append (x ∷ xs) ys = ap (◌∷◌ x.id) (map_id-append xs ys)

submit_fields :
    (q : JobQueue) (j : Job)
    → ((submit q j).0.pending ≡ q.pending ++ (numbered q j ∷ []))
      × ((submit q j).0.in_flight ≡ q.in_flight)
      × ((submit q j).0.completed ≡ q.completed)
      × ((submit q j).1 ≡ (numbered q j).id)
unfolding submit
submit_fields q j = (ground arith, ground arith, ground arith, refl)

module _ {W E : Type 0} (env : TreeEnv W E) (device : String) (options : JobOptions)
    (q : JobQueue) where
  abbrev pub Good : Walk W → Type 0
  Good s = Appends device options q s.queue s.out.enqueued

  abbrev pub GoodRound : Round W E → Type 0
  GoodRound (goes_on stack s) = Good s
  GoodRound (replies s) = Good s
  GoodRound (fails e s) = Good s

  enqueue-Good :
      (remote local : Bytes) (s : Walk W)
      → length s.out.enqueued < tree_max_files
      → Good s
      → Good (enqueue env device options remote local s)
  unfolding with_device
  enqueue-Good remote local s room g =
      let made =
        with_device 0 pull (env.text remote) (env.text local) options (some device)
          (env.free_cell s.queue) s.queue.cells in
      let before = record s.queue { cells = made.1 } in
      let job = numbered before made.0 in
      let f = submit_fields before made.0 in
      record {
        jobs = g.jobs ++ (job ∷ []);
        at_end =
            f.0 ∙ ap (λ t. t ++ (job ∷ [])) g.at_end ∙ append_assoc q.pending g.jobs (job ∷ []);
        listed = map_id-append g.jobs (job ∷ []) ∙ rw f.3 (ap (λ t. t ++ (job.id ∷ [])) g.listed);
        same_in_flight = f.1 ∙ g.same_in_flight;
        same_completed = f.2 ∙ g.same_completed;
        within = omega (arith, length-append s.out.enqueued ((submit before made.0).1 ∷ []));
        pulls = ArePulls-append device options g.jobs (job ∷ []) g.pulls ((refl, refl, refl), tt);
      }

  made_dir-Good :
      (child : Pending) (stack : List Pending) (s : Walk W) (r : W × (E ⊎ (Unit {0})))
      → Good s
      → GoodRound (made_dir env device options child stack s r)
  made_dir-Good child stack s (w, inl e) g = g
  made_dir-Good child stack s (w, inr u) g = g

  capped_entry-Good :
      (e : DirEntry) (at : Pending) (stack : List Pending) (s : Walk W)
      → Good s
      → GoodRound (capped_entry env device options e at stack s)
  capped_entry-Good e (remote, local, depth) stack s g =
      elim (Bool-cases (leb tree_max_files (length s.out.enqueued))) [
        | inl t ↦ rw t g
        | inr t ↦ elim (Bool-cases (mode_is_symlink e.stat.mode)) [
          | inl l ↦ rw (t, l) g
          | inr l ↦ elim (Bool-cases (mode_is_dir e.stat.mode)) [
            | inl d ↦
                rw (t, l, d)
                  (made_dir-Good _ stack s (env.create_dir_all (env.join local e.name) s.world) g)
            | inr d ↦
                rw (t, l, d)
                  (enqueue-Good (child_path remote e.name) (env.join local e.name) s (ground arith)
                    g)
          ]
        ]
      ]

  and_on-Good :
      (next : List Pending → Walk W → Round W E) (r : Round W E)
      → ((stack : List Pending) (s : Walk W) → Good s → GoodRound (next stack s))
      → GoodRound r
      → GoodRound (and_on env device options next r)
  and_on-Good next (goes_on stack s) k g = k stack s g
  and_on-Good next (replies s) k g = g
  and_on-Good next (fails e s) k g = g

  pull_entries-Good :
      (es : List DirEntry) (at : Pending) (stack : List Pending) (s : Walk W)
      → Good s
      → GoodRound (pull_entries env device options es at stack s)
  unfolding pull_entries
  pull_entries-Good [] at stack s g = g
  pull_entries-Good (e ∷ es) at stack s g =
      and_on-Good (pull_entries env device options es at)
        (capped_entry env device options e at stack s)
        (λ st s' g'. pull_entries-Good es at st s' g') (capped_entry-Good e at stack s g)

  pull_listed-Good :
      (at : Pending) (stack : List Pending) (s : Walk W) (r : W × (E ⊎ List DirEntry))
      → Good s
      → GoodRound (pull_listed env device options at stack s r)
  pull_listed-Good at stack s (w, inl e) g = g
  pull_listed-Good at stack s (w, inr es) g =
      pull_entries-Good es at stack (record s { world = w }) g

  pub pull_dir-Good :
      (at : Pending) (stack : List Pending) (s : Walk W)
      → Good s
      → GoodRound (pull_dir env device options at stack s)
  pull_dir-Good (remote, local, depth) stack s g = elim (Bool-cases (leb tree_max_depth depth)) [
    | inl t ↦ rw t g
    | inr t ↦ rw t (pull_listed-Good (remote, local, depth) stack s (env.listdir remote s.world) g)
  ]
