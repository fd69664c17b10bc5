-- ===== src/Fs/DirCache/Examples.antt =====
-- A `DirCache` with room for two directories, and the properties at it.
use adbshare.Base.{ℕ, ◌-◌, ◌<◌, ◌≡◌, refl, some, List, [], ◌∷◌, list_eq, ℕ_eq, arith}
use adbshare.Base.Assoc.{lookup, insert, remove}
use adbshare.Fs.{PathBuf}
use adbshare.Fs.DirCache.{
  new, get, put, evict, epoch, Call, gets, puts, invalidates_prefix, run, step,
}
use adbshare.Fs.DirCache.History.{noted, nothing, get-noted_listing}
use adbshare.Fs.DirCache.Agreement.{Agrees, run-new-Agrees}
use adbshare.Fs.DirCache.Stale.{put-run_stale}

abbrev camera : PathBuf
camera = (1 ∷ []) ∷ []

abbrev photos : PathBuf
photos = (1 ∷ []) ∷ (2 ∷ []) ∷ []

abbrev music : PathBuf
music = (3 ∷ []) ∷ []

-- The listing of `photos` is put, the other two follow, and it is put again, after the first put was
-- evicted.
abbrev calls : List Call
calls =
    puts photos [] 0 1
    ∷ puts camera [] 0 2
    ∷ puts music [] 0 3
    ∷ gets photos 3
    ∷ puts photos [] 0 4
    ∷ []

get-noted_listing_example :
    (when : ℕ) × ((noted nothing calls).latest photos ≡ some ([], when)) × (5 - when < 10)
unfolding get put run step lookup insert remove evict
get-noted_listing_example = get-noted_listing 10 2 calls photos 5 [] refl

run-new-Agrees_example : Agrees (run (new 10 2) calls)
run-new-Agrees_example = run-new-Agrees 10 2 calls

put-run_stale_example :
    put
      (run (new 10 2) (puts music [] 0 1 ∷ invalidates_prefix camera ∷ []))
      photos
      []
      (epoch (new 10 2))
      2
    ≡ run (new 10 2) (puts music [] 0 1 ∷ invalidates_prefix camera ∷ [])
put-run_stale_example =
    put-run_stale (new 10 2) (puts music [] 0 1 ∷ invalidates_prefix camera ∷ []) photos [] 2
      (omega arith) (omega arith) (omega arith)
