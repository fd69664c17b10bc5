-- ===== src/Transfer/Worker.antt =====
-- The worker that carries a job out: crates/transfer-engine/src/worker.rs, push and run.
--
-- The file system of the host, the proxy's client and the other tasks are an Env: each call acts on
-- a world `W`, in which the jobs' cells stand, so that what other tasks do to them while a call is
-- awaited is part of the call. An error is an `E` of those calls, or one that the worker makes.
pub mod Run
pub mod Settles
pub mod Ended
pub mod Untouched
pub mod Copied
pub mod Pushed
pub mod Ran
pub mod Rename
mod Examples
use adbshare.Base.{
  ℕ, zero, suc, ◌+◌, ◌-◌, ◌%◌, ◌^◌, String, Bool, true, false, ◌⊎◌, inl, inr, Option, none, some,
  List, [], ◌∷◌, ◌++◌,
}
use adbshare.Base.Bytes.{Bytes}
use adbshare.Transfer.Job.{Heap}

-- The bits of `OpenFlags` that the worker combines; `read` stands alone.
pub data OpenFlags : Type 0 where
  read_only create_write create_write_trunc : OpenFlags

pub record Env (W E : Type 0) : Type 0 where
  pub cells : W → Heap
  pub put_cells : Heap → W → W
  pub now : W → ℕ
  -- `tokio::time::sleep`
  pub sleep : W → W
  -- `tokio::fs`: the length of a file, opening it to read, seeking, one read, and its hash
  pub metadata : String → W → W × (E ⊎ ℕ)
  pub open_source : String → W → W × (E ⊎ ℕ)
  pub seek : ℕ → ℕ → W → W × (E ⊎ (Unit {0}))
  pub read : ℕ → ℕ → W → W × (E ⊎ Bytes)
  pub sha256_file : String → W → W × (E ⊎ String)
  -- the client: `stat` as the size, and a file by its descriptor
  pub stat : String → W → W × (E ⊎ ℕ)
  pub open_remote : String → OpenFlags → W → W × (E ⊎ ℕ)
  pub write_at : ℕ → ℕ → Bytes → W → W × (E ⊎ (Unit {0}))
  pub read_at : ℕ → ℕ → ℕ → W → W × (E ⊎ Bytes)
  pub close : ℕ → W → W × (E ⊎ (Unit {0}))
  pub unlink : String → W → W × (E ⊎ (Unit {0}))
  -- `Path::parent`, `file_stem` and `extension`, `join`, and the printer of numbers
  pub parent : String → String
  pub file_stem : String → Option String
  pub extension : String → Option String
  pub join : String → String → String
  pub decimal : ℕ → String
  -- `hex::encode` of the SHA-256 of some bytes
  pub sha256 : Bytes → String

-- The errors that the worker makes, by the text that precedes the cause.
pub data WorkError (E : Type 0) : Type 0 where
  proxy_error plain stat_source seek_source read_source close_destination : E → WorkError E
  hashing_local : E → WorkError E
  hashing_remote : WorkError E → WorkError E
  close_remote : E → WorkError E
  checksum_mismatch : String → String → WorkError E
  was_cancelled : WorkError E

-- A call that may not end with the fuel there is (`none`), or ends with a result in a new world.
abbrev pub Work : Type 0 → Type 0 → Type 0 → Type 0
Work W E A = W → Option (W × (WorkError E ⊎ A))

module _ {W E : Type 0} where
  infixl 5 ◌>>=◌ ◌>>◌
  abbrev pub bind_result :
      {A B : Type 0} → (A → Work W E B) → W × (WorkError E ⊎ A) → Option (W × (WorkError E ⊎ B))
  bind_result f (w, inl e) = some (w, inl e)
  bind_result f (w, inr a) = f a w

  abbrev pub bind_option :
      {A B : Type 0}
      → (A → Work W E B)
      → Option (W × (WorkError E ⊎ A))
      → Option (W × (WorkError E ⊎ B))
  bind_option f none = none
  bind_option f (some p) = bind_result f p

  -- `?` after a call, and the code that follows.
  abbrev pub ◌>>=◌ : {A B : Type 0} → Work W E A → (A → Work W E B) → Work W E B
  ◌>>=◌ m f w = bind_option f (m w)

  abbrev pub ◌>>◌ : {B : Type 0} → Work W E (Unit {0}) → Work W E B → Work W E B
  m >> k = m >>= (λ u. k)

  abbrev pub pure : {A : Type 0} → A → Work W E A
  pure a w = some (w, inr a)

  abbrev pub fail : {A : Type 0} → WorkError E → Work W E A
  fail e w = some (w, inl e)

  abbrev pub mapped : {A : Type 0} → (E → WorkError E) → W × (E ⊎ A) → W × (WorkError E ⊎ A)
  mapped f (w, inl e) = (w, inl (f e))
  mapped f (w, inr a) = (w, inr a)

  -- `.await.map_err(f)?`
  abbrev pub call : {A : Type 0} → (E → WorkError E) → (W → W × (E ⊎ A)) → Work W E A
  call f m w = some (mapped f (m w))

  -- `.await`, with both results left to the code.
  abbrev pub attempt : {A : Type 0} → (W → W × (E ⊎ A)) → Work W E (E ⊎ A)
  attempt m w = let r = m w in some (r.0, inr r.1)

  abbrev pub effect : (W → W) → Work W E (Unit {0})
  effect f w = some (f w, inr tt)

  -- `map_err(f)`
  abbrev pub remap_option :
      {A : Type 0}
      → (WorkError E → WorkError E)
      → Option (W × (WorkError E ⊎ A))
      → Option (W × (WorkError E ⊎ A))
  remap_option f none = none
  remap_option f (some (w, inl e)) = some (w, inl (f e))
  remap_option f (some (w, inr a)) = some (w, inr a)

  abbrev pub map_err : {A : Type 0} → (WorkError E → WorkError E) → Work W E A → Work W E A
  map_err f m w = remap_option f (m w)
