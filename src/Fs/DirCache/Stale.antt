-- ===== src/Fs/DirCache/Stale.antt =====
-- The epoch of a `DirCache` against listings that were fetched before an invalidation.
use adbshare.Base.{
  ℕ, ◌+◌, ◌%◌, ◌^◌, ◌≤◌, ◌<◌, ◌≡◌, ◌≢◌, refl, ap, ◌∙◌, Option, none, some, List, [], ◌∷◌, ℕ_eq,
  list_eq, eq_of_ne, arith,
}
use adbshare.Base.Assoc.{lookup}
use adbshare.Fs.{PathBuf}
use adbshare.Fs.DirCache.{
  DirCache, Entries, get_found, epoch, put, invalidate, invalidate_prefix, remove_entry, Call, gets,
  puts, invalidates, invalidates_prefix, step, run,
}

-- How many calls invalidate something.
abbrev pub invalidations : List Call → ℕ
invalidations [] = 0
invalidations (invalidates p ∷ ks) = invalidations ks + 1
invalidations (invalidates_prefix p ∷ ks) = invalidations ks + 1
invalidations (_ ∷ ks) = invalidations ks

epoch-get_found :
    (c : DirCache) (p : PathBuf) (now : ℕ) (o : Option (Entries × ℕ))
    → (get_found c p now o).0.current ≡ c.current
unfolding remove_entry
epoch-get_found c p now none = refl
epoch-get_found c p now (some e) = ground arith

epoch-put :
    (c : DirCache) (p : PathBuf) (es : Entries) (seen now : ℕ)
    → (put c p es seen now).current ≡ c.current
unfolding put
epoch-put c p es seen now = ground arith

wrapped_suc : (a b : ℕ) → ((a + 1) % 2 ^ 64 + b) % 2 ^ 64 ≡ (a + (b + 1)) % 2 ^ 64
wrapped_suc a b = omega arith

epoch-run :
    (c : DirCache) (ks : List Call)
    → c.current < 2 ^ 64
    → (run c ks).current ≡ (c.current + invalidations ks) % 2 ^ 64
unfolding run step invalidate invalidate_prefix remove_entry
epoch-run c [] h = omega (arith, h)
epoch-run c (gets p now ∷ ks) h =
    let e = epoch-get_found c p now (lookup p c.map) in
    epoch-run (step c (gets p now)) ks (omega (arith, e, h))
    ∙ ap (λ n. (n + invalidations ks) % 2 ^ 64) e
epoch-run c (puts p es seen now ∷ ks) h =
    let e = epoch-put c p es seen now in
    epoch-run (step c (puts p es seen now)) ks (omega (arith, e, h))
    ∙ ap (λ n. (n + invalidations ks) % 2 ^ 64) e
epoch-run c (invalidates p ∷ ks) h =
    epoch-run (invalidate c p) ks (omega arith) ∙ wrapped_suc c.current (invalidations ks)
epoch-run c (invalidates_prefix p ∷ ks) h =
    epoch-run (invalidate_prefix c p) ks (omega arith) ∙ wrapped_suc c.current (invalidations ks)

put_stale :
    (c : DirCache) (p : PathBuf) (es : Entries) (seen now : ℕ)
    → c.current ≢ seen
    → put c p es seen now ≡ c
unfolding put
put_stale c p es seen now n = rw (eq_of_ne n) refl

-- A listing for which the epoch, a 64-bit number, was read, and after which anything at all was invalidated, is not stored,
-- whatever else was called in between, as long as fewer than 2⁶⁴ invalidations pass: the cache stays
-- as it is.
pub put-run_stale :
    (c : DirCache) (ks : List Call) (p : PathBuf) (es : Entries) (now : ℕ)
    → epoch c < 2 ^ 64
    → 1 ≤ invalidations ks
    → invalidations ks < 2 ^ 64
    → put (run c ks) p es (epoch c) now ≡ run c ks
put-run_stale c ks p es now h some_one few =
    let e = epoch-run c ks h in
    put_stale (run c ks) p es (epoch c) now (λ q. omega (arith, e, q, h, some_one, few))
