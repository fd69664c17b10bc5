-- ===== src/Fs/StatCache.antt =====
-- `StatCache`.
pub mod History
pub mod Hits
mod Examples
use adbshare.Base.{
  ℕ, leb, Bool, not, Option, none, some, List, [], ◌∷◌, length, ◌==◌, ℕ_eq, list_eq, if◌then◌else◌,
}
use adbshare.Base.Assoc.{Assoc, lookup, retain, remove, insert}
use adbshare.Proxy.Ops.{Stat}
use adbshare.Fs.{PathBuf, starts_with, is_fresh}

abbrev pub max_entries : ℕ
max_entries = 8192

pub record StatCache : Type 0 where
  pub inner : Assoc PathBuf (Stat × ℕ)
  pub ttl : ℕ

abbrev pub new : ℕ → StatCache
new ttl = record { inner = []; ttl = ttl }

abbrev pub get_found : StatCache → PathBuf → ℕ → Option (Stat × ℕ) → StatCache × Option Stat
get_found c path now none = (c, none)
get_found c path now (some (s, when)) =
    if is_fresh c.ttl now when
    then (c, some s)
    else (record c { inner = remove path c.inner }, none)

unfoldable pub get : StatCache → PathBuf → ℕ → StatCache × Option Stat
unfolding lookup remove
get c path now = get_found c path now (lookup path c.inner)

-- `put`, up to the insertion.
unfoldable pub make_room : StatCache → ℕ → Assoc PathBuf (Stat × ℕ)
unfolding retain
make_room c now =
    let kept = retain (λ k v. is_fresh c.ttl now v.1) c.inner in
    if leb max_entries (length c.inner)
    then (if leb max_entries (length kept) then [] else kept)
    else c.inner

unfoldable pub put : StatCache → PathBuf → Stat → ℕ → StatCache
unfolding make_room insert
put c path stat now = record c { inner = insert path (stat, now) (make_room c now) }

unfoldable pub invalidate : StatCache → PathBuf → StatCache
unfolding remove
invalidate c path = record c { inner = remove path c.inner }

unfoldable pub invalidate_prefix : StatCache → PathBuf → StatCache
unfolding retain
invalidate_prefix c prefix = record c { inner = retain (λ k v. not (starts_with k prefix)) c.inner }
