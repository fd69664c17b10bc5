-- ===== src/Transfer/Worker/Rename.antt =====
-- A free name beside one that is taken: RenameCandidates and pick_remote_rename of worker.rs.
use Prim.Native.String.{◌++◌ as joined_text}
use adbshare.Base.{ℕ, zero, suc, ◌+◌, ◌%◌, ◌^◌, ◌<◌, ◌≡◌, String, ◌⊎◌, inl, inr, none, some}
use adbshare.Transfer.Worker.{Env}

pub record RenameCandidates : Type 0 where
  pub dir : String
  pub stem : String
  pub ext : String
  pub n : ℕ

module _ {W E : Type 0} (env : Env W E) where
  abbrev pub new_candidates : String → RenameCandidates
  new_candidates path = record {
    dir = env.parent path;
    stem = elim (env.file_stem path) [ none ↦ "file" | some s ↦ s ];
    ext = elim (env.extension path) [ none ↦ "" | some s ↦ joined_text "." s ];
    n = 0;
  }

  -- `next`: the candidates after it, and the path.
  abbrev pub next_candidate : RenameCandidates → RenameCandidates × String
  next_candidate r =
      let n = (r.n + 1) % 2 ^ 32 in
      (
        record r { n = n },
        env.join r.dir (
            joined_text r.stem
              (joined_text " (" (joined_text (env.decimal n) (joined_text ")" r.ext)))),
      )

  abbrev pub free_or : {A : Type 0} → A → A → E ⊎ ℕ → A
  free_or found go_on (inl e) = found
  free_or found go_on (inr size) = go_on

  -- The loop with the tries that are left.
  unfoldable pub try_candidates : ℕ → String → RenameCandidates → W → W × String
  try_candidates zero original r w = (w, joined_text original ".adbshare-new")
  try_candidates (suc tries) original r w =
      let c = next_candidate r in
      let s = env.stat c.1 w in free_or (s.0, c.1) (try_candidates tries original c.0 s.0) s.1

  unfoldable pub pick_remote_rename : String → W → W × String
  pick_remote_rename original = try_candidates 999 original (new_candidates original)

  -- The candidate that is tried after `k` others.
  abbrev pub candidate : RenameCandidates → ℕ → String
  candidate r zero = (next_candidate r).1
  candidate r (suc k) = candidate (next_candidate r).0 k

  -- The world after the first `k` candidates were looked up.
  abbrev pub looked_up : RenameCandidates → ℕ → W → W
  looked_up r zero w = w
  looked_up r (suc k) w = looked_up (next_candidate r).0 k (env.stat (next_candidate r).1 w).0

  abbrev pub IsTaken : String → W → Type 0
  IsTaken path w = (size : ℕ) × ((env.stat path w).1 ≡ inr size)

  abbrev pub IsFree : String → W → Type 0
  IsFree path w = (e : E) × ((env.stat path w).1 ≡ inl e)

  abbrev pub TakenBefore : RenameCandidates → ℕ → W → Type 0
  TakenBefore r k w = (i : ℕ) → i < k → IsTaken (candidate r i) (looked_up r i w)

  -- What a search for a name ends with.
  pub data Picked (original : String) (r : RenameCandidates) (tries : ℕ) (w : W) (name : String)
      : Type 0 where
    first_free :
        (k : ℕ)
        → k < tries
        → name ≡ candidate r k
        → IsFree (candidate r k) (looked_up r k w)
        → TakenBefore r k w
        → Picked original r tries w name
    none_free :
        name ≡ joined_text original ".adbshare-new"
        → TakenBefore r tries w
        → Picked original r tries w name
