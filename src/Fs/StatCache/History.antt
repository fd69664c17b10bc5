-- ===== src/Fs/StatCache/History.antt =====
-- What a `StatCache` answers, after any sequence of calls.
use adbshare.Base.{
  ℕ, ◌-◌, ◌≤◌, ◌<◌, ◌≡◌, refl, ap, ◌∙◌, Bool, true, false, not, Bool-cases, inl, inr, Option, none,
  some, List, [], ◌∷◌, length, ◌==◌, ℕ_eq, list_eq, if◌then◌else◌, eq_self, if_both, arith, ltb→lt,
}
use adbshare.Base.Assoc.{
  lookup, remove, insert, Holds, Holds-lookup, Holds-retain, Holds-remove, Holds-insert,
  length-retain-le,
}
use adbshare.Proxy.Ops.{Stat}
use adbshare.Fs.{PathBuf, starts_with, is_fresh}
use adbshare.Fs.StatCache.{
  StatCache, max_entries, new, get, get_found, make_room, put, invalidate, invalidate_prefix,
}

-- A call, and the time at which it is made.
pub data Call : Type 0 where
  gets : PathBuf → ℕ → Call
  puts : PathBuf → Stat → ℕ → Call
  invalidates invalidates_prefix : PathBuf → Call

unfoldable pub step : StatCache → Call → StatCache
unfolding get put invalidate invalidate_prefix
step c (gets p now) = (get c p now).0
step c (puts p s now) = put c p s now
step c (invalidates p) = invalidate c p
step c (invalidates_prefix p) = invalidate_prefix c p

unfoldable pub run : StatCache → List Call → StatCache
unfolding step
run c [] = c
run c (k ∷ ks) = run (step c k) ks

-- The reference: the last `stat` put for a path and its time, unless it was invalidated since. It forgets
-- nothing on its own.
abbrev pub Reference : Type 0
Reference = PathBuf → Option (Stat × ℕ)

abbrev pub note : Reference → Call → Reference
note g (gets p now) = g
note g (puts p s now) = λ q. if p == q then some (s, now) else g q
note g (invalidates p) = λ q. if p == q then none else g q
note g (invalidates_prefix p) = λ q. if starts_with q p then none else g q

abbrev pub noted : Reference → List Call → Reference
noted g [] = g
noted g (k ∷ ks) = noted (note g k) ks

Holds-make_room :
    (g : Reference) (c : StatCache) (now : ℕ) → Holds g c.inner → Holds g (make_room c now)
unfolding make_room
Holds-make_room g c now h =
    ground (arith, Holds-retain g g (λ k v. is_fresh c.ttl now v.1) c.inner (λ k v t. refl) h)

Holds-get_found :
    (g : Reference) (c : StatCache) (p : PathBuf) (now : ℕ) (o : Option (Stat × ℕ))
    → Holds g c.inner
    → Holds g (get_found c p now o).0.inner
Holds-get_found g c p now none h = h
Holds-get_found g c p now (some (s, when)) h =
    if_both {A = StatCache × Option Stat} (λ r. Holds g r.0.inner) (is_fresh c.ttl now when) h
      (Holds-remove g g p c.inner (λ q n. refl) h)

not-true : (b : Bool) → not b ≡ true → b ≡ false
not-true b h = ground arith

ttl-get_found :
    (c : StatCache) (p : PathBuf) (now : ℕ) (o : Option (Stat × ℕ))
    → (get_found c p now o).0.ttl ≡ c.ttl
ttl-get_found c p now none = refl
ttl-get_found c p now (some e) = ground arith

Holds-step :
    (g : Reference) (c : StatCache) (k : Call) → Holds g c.inner → Holds (note g k) (step c k).inner
unfolding step
Holds-step g c (gets p now) h = Holds-get_found g c p now (lookup p c.inner) h
Holds-step g c (puts p s now) h =
    let g' = note g (puts p s now) in
    Holds-insert g g' p (s, now) (make_room c now) (λ q n. rw n refl) (rw (eq_self p) refl)
      (Holds-make_room g c now h)
Holds-step g c (invalidates p) h =
    Holds-remove g (note g (invalidates p)) p c.inner (λ q n. rw n refl) h
Holds-step g c (invalidates_prefix p) h =
    Holds-retain g (note g (invalidates_prefix p)) (λ k v. not (starts_with k p)) c.inner
      (λ k v t. rw (not-true (starts_with k p) t) refl) h

Holds-run :
    (g : Reference) (c : StatCache) (ks : List Call)
    → Holds g c.inner
    → Holds (noted g ks) (run c ks).inner
unfolding run
Holds-run g c [] h = h
Holds-run g c (k ∷ ks) h = Holds-run (note g k) (step c k) ks (Holds-step g c k h)

ttl-step : (c : StatCache) (k : Call) → (step c k).ttl ≡ c.ttl
unfolding step
ttl-step c (gets p now) = ttl-get_found c p now (lookup p c.inner)
ttl-step c _ = refl

ttl-run : (c : StatCache) (ks : List Call) → (run c ks).ttl ≡ c.ttl
unfolding run
ttl-run c [] = refl
ttl-run c (k ∷ ks) = ttl-run (step c k) ks ∙ ttl-step c k

hit-get_found :
    (c : StatCache) (p : PathBuf) (now : ℕ) (s : Stat) (o : Option (Stat × ℕ))
    → (get_found c p now o).1 ≡ some s
    → (when : ℕ) × (o ≡ some (s, when)) × (now - when < c.ttl)
hit-get_found c p now s none h = cc
hit-get_found c p now s (some (t, when)) h = elim (Bool-cases (is_fresh c.ttl now when)) [
  | inl f ↦
      let e : get_found c p now (some (t, when)) ≡ (c, some t) = rw f refl in
      (when, cc (h, ap (λ (r : StatCache × Option Stat). r.1) e), ltb→lt (now - when) c.ttl f)
  | inr f ↦
      let e : get_found c p now (some (t, when)) ≡ (record c { inner = remove p c.inner }, none) =
        rw f refl in
      absurd (cc (h, ap (λ (r : StatCache × Option Stat). r.1) e))
]

-- Whatever was called before, a `stat` that the cache answers is the last one that was put for that very
-- path, was put less than the time to live ago, and was not invalidated since, neither itself nor
-- with a directory above it.
pub get-noted :
    (ttl : ℕ) (ks : List Call) (p : PathBuf) (now : ℕ) (s : Stat)
    → (get (run (new ttl) ks) p now).1 ≡ some s
    → (when : ℕ) × (noted (λ q. none) ks p ≡ some (s, when)) × (now - when < ttl)
unfolding get
get-noted ttl ks p now s h =
    let c = run (new ttl) ks in
    let hit = hit-get_found c p now s (lookup p c.inner) h in
    (
      hit.0,
      Holds-lookup (noted (λ q. none) ks) c.inner p (s, hit.0)
          (Holds-run (λ q. none) (new ttl) ks tt) hit.1,
      omega (arith, hit.2, ttl-run (new ttl) ks),
    )

length-get_found :
    (c : StatCache) (p : PathBuf) (now : ℕ) (o : Option (Stat × ℕ))
    → length c.inner ≤ max_entries
    → length (get_found c p now o).0.inner ≤ max_entries
unfolding remove
length-get_found c p now none h = h
length-get_found c p now (some (s, when)) h =
    if_both {A = StatCache × Option Stat} (λ r. length r.0.inner ≤ max_entries)
      (is_fresh c.ttl now when) h (omega (arith, h, length-retain-le (λ j v. not (j == p)) c.inner))

length-make_room :
    (c : StatCache) (now : ℕ)
    → length c.inner ≤ max_entries
    → length (make_room c now) < max_entries
unfolding make_room
length-make_room c now h = ground arith

length-step :
    (c : StatCache) (k : Call)
    → length c.inner ≤ max_entries
    → length (step c k).inner ≤ max_entries
unfolding step insert remove
length-step c (gets p now) h = length-get_found c p now (lookup p c.inner) h
length-step c (puts p s now) h =
    omega
      (arith, length-make_room c now h, length-retain-le (λ j v. not (j == p)) (make_room c now))
length-step c (invalidates p) h = omega (arith, h, length-retain-le (λ j v. not (j == p)) c.inner)
length-step c (invalidates_prefix p) h =
    omega (arith, h, length-retain-le (λ k v. not (starts_with k p)) c.inner)

length-run :
    (c : StatCache) (ks : List Call)
    → length c.inner ≤ max_entries
    → length (run c ks).inner ≤ max_entries
unfolding run
length-run c [] h = h
length-run c (k ∷ ks) h = length-run (step c k) ks (length-step c k h)

-- Whatever is called, at most 8192 paths are remembered.
pub length-run-new : (ttl : ℕ) (ks : List Call) → length (run (new ttl) ks).inner ≤ max_entries
length-run-new ttl ks = length-run (new ttl) ks (omega arith)
