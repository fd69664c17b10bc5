-- ===== src/Fs/StatCache/Examples.antt =====
-- A `StatCache` with a few paths, and the properties at it.
use adbshare.Base.{ℕ, ◌-◌, ◌<◌, ◌≡◌, refl, none, some, List, [], ◌∷◌, list_eq, ℕ_eq}
use adbshare.Base.Assoc.{lookup, insert, remove}
use adbshare.Proxy.Ops.{Stat}
use adbshare.Fs.{PathBuf}
use adbshare.Fs.StatCache.{get, put, make_room}
use adbshare.Fs.StatCache.History.{Call, gets, puts, run, step, noted, get-noted}

abbrev camera : PathBuf
camera = (1 ∷ []) ∷ []

abbrev photo : PathBuf
photo = (1 ∷ []) ∷ (2 ∷ []) ∷ []

abbrev of_size : ℕ → Stat
of_size n = record {
  mode = 33188;
  size = n;
  mtime = 0;
  atime = 0;
  ctime = 0;
  uid = 0;
  gid = 0;
  nlink = 1;
  blksize = 4096;
  blocks = 8;
}

abbrev calls : List Call
calls =
    puts photo (of_size 7) 1
    ∷ puts camera (of_size 3) 2
    ∷ gets photo 3
    ∷ puts photo (of_size 8) 4
    ∷ []

get-noted_example :
    (when : ℕ) × (noted (λ q. none) calls photo ≡ some (of_size 8, when)) × (5 - when < 10)
unfolding get put make_room run step lookup insert remove
get-noted_example = get-noted 10 calls photo 5 (of_size 8) refl
