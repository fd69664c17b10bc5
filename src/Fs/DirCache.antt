-- ===== src/Fs/DirCache.antt =====
-- `DirCache`. A listing is the list of its entries, each a name and a `Stat`; the `Arc` is not modelled.
pub mod Agreement
pub mod History
pub mod Hits
mod Examples
pub mod Stale
use adbshare.Base.{
  ℕ, ◌+◌, ◌%◌, ◌^◌, max, leb, Bool, true, false, not, ◌||◌, Option, none, some, List, [], ◌∷◌, ◌++◌,
  length, keep, remove_first, ◌==◌, ℕ_eq, list_eq, if◌then◌else◌,
}
use adbshare.Base.Bytes.{Bytes}
use adbshare.Base.Assoc.{Assoc, lookup, remove, insert}
use adbshare.Proxy.Ops.{Stat}
use adbshare.Fs.{PathBuf, starts_with, is_fresh}

abbrev pub Entries : Type 0
Entries = List (Bytes × Stat)

-- The mutex's content, `DirCacheInner`, with the two constants beside it.
pub record DirCache : Type 0 where
  pub map : Assoc PathBuf (Entries × ℕ)
  pub order : List PathBuf
  pub current : ℕ
  pub ttl : ℕ
  pub capacity : ℕ

abbrev pub new : ℕ → ℕ → DirCache
new ttl capacity = record {
  map = [];
  order = [];
  current = 0;
  ttl = ttl;
  capacity = max capacity 1;
}

unfoldable pub remove_entry : DirCache → PathBuf → DirCache
unfolding remove
remove_entry c path = record c {
  map = remove path c.map;
  order = keep (λ k. not (k == path)) c.order;
}

abbrev pub get_found : DirCache → PathBuf → ℕ → Option (Entries × ℕ) → DirCache × Option Entries
get_found c path now none = (c, none)
get_found c path now (some (entries, when)) =
    if is_fresh c.ttl now when then (c, some entries) else (remove_entry c path, none)

unfoldable pub get : DirCache → PathBuf → ℕ → DirCache × Option Entries
unfolding lookup remove_entry
get c path now = get_found c path now (lookup path c.map)

abbrev pub epoch : DirCache → ℕ
epoch c = c.current

-- `while inner.order.len() >= self.capacity`: the oldest go, from the order and from the map. With no
-- capacity at all the source would not end; `new` excludes that.
unfoldable pub evict :
    ℕ → List PathBuf → Assoc PathBuf (Entries × ℕ) → List PathBuf × Assoc PathBuf (Entries × ℕ)
unfolding remove
evict capacity [] m = ([], m)
evict capacity (k ∷ ks) m =
    let rest = evict capacity ks (remove k m) in
    if leb capacity (length (k ∷ ks)) then rest else (k ∷ ks, m)

unfoldable pub put : DirCache → PathBuf → Entries → ℕ → ℕ → DirCache
unfolding evict insert
put c path entries seen now =
    let (order, m) = evict c.capacity (remove_first (λ k. k == path) c.order) c.map in
    if not (c.current == seen)
    then c
    else record c { order = order ++ (path ∷ []); map = insert path (entries, now) m }

abbrev pub bumped : DirCache → DirCache
bumped c = record c { current = (c.current + 1) % 2 ^ 64 }

unfoldable pub invalidate : DirCache → PathBuf → DirCache
unfolding remove_entry
invalidate c path = remove_entry (bumped c) path

abbrev pub contains : PathBuf → List PathBuf → Bool
contains path [] = false
contains path (k ∷ ks) = k == path || contains path ks

-- The keys that lie at or under a prefix.
abbrev pub keys_under : PathBuf → Assoc PathBuf (Entries × ℕ) → List PathBuf
keys_under prefix [] = []
keys_under prefix ((k, v) ∷ m) =
    let rest = keys_under prefix m in if starts_with k prefix then k ∷ rest else rest

abbrev pub remove_each : List PathBuf → Assoc PathBuf (Entries × ℕ) → Assoc PathBuf (Entries × ℕ)
remove_each [] m = m
remove_each (k ∷ ks) m = remove_each ks (remove k m)

unfoldable pub invalidate_prefix : DirCache → PathBuf → DirCache
unfolding remove
invalidate_prefix c prefix =
    let dropped = keys_under prefix c.map in
    record (bumped c) {
      map = remove_each dropped c.map;
      order = keep (λ k. not (contains k dropped)) c.order;
    }

-- A call, and the time at which it is made.
pub data Call : Type 0 where
  gets : PathBuf → ℕ → Call
  puts : PathBuf → Entries → ℕ → ℕ → Call
  invalidates invalidates_prefix : PathBuf → Call

unfoldable pub step : DirCache → Call → DirCache
unfolding get put invalidate invalidate_prefix
step c (gets p now) = (get c p now).0
step c (puts p es seen now) = put c p es seen now
step c (invalidates p) = invalidate c p
step c (invalidates_prefix p) = invalidate_prefix c p

unfoldable pub run : DirCache → List Call → DirCache
unfolding step
run c [] = c
run c (k ∷ ks) = run (step c k) ks
