-- ===== src/Fs/DirCache/History.antt =====
-- What a `DirCache` answers, after any sequence of calls.
use adbshare.Base.{
  ℕ, ◌+◌, ◌-◌, ◌%◌, ◌^◌, ◌<◌, ◌≡◌, refl, sym, ap, ◌∙◌, leb, Bool, true, false, not, Bool-cases, inl,
  inr, Option, none, some, List, [], ◌∷◌, length, remove_first, ◌==◌, ℕ_eq, list_eq, if◌then◌else◌,
  if_both, eq_true, ltb→lt, arith,
}
use adbshare.Base.Assoc.{Assoc, lookup, remove, insert, lookup-remove, lookup-insert}
use adbshare.Fs.{PathBuf, starts_with, is_fresh}
use adbshare.Fs.DirCache.{
  DirCache, Entries, new, get, get_found, put, evict, remove_entry, contains, keys_under,
  remove_each, Call, gets, puts, invalidates, invalidates_prefix, step, run,
}
use adbshare.Fs.DirCache.Agreement.{lookup-remove_each}

-- The reference: for each path the last listing that was put at the epoch of its time, and when, unless
-- it was invalidated since. It forgets nothing on its own.
pub record Reference : Type 0 where
  pub latest : PathBuf → Option (Entries × ℕ)
  pub version : ℕ

abbrev pub nothing : Reference
nothing = record { latest = λ q. none; version = 0 }

abbrev pub note : Reference → Call → Reference
note g (gets p now) = g
note g (puts p es seen now) = record g {
  latest = λ q.
      if not (g.version == seen) then g.latest q else if p == q then some (es, now) else g.latest q;
}
note g (invalidates p) = record {
  latest = λ q. if p == q then none else g.latest q;
  version = (g.version + 1) % 2 ^ 64;
}
note g (invalidates_prefix p) = record {
  latest = λ q. if starts_with q p then none else g.latest q;
  version = (g.version + 1) % 2 ^ 64;
}

abbrev pub noted : Reference → List Call → Reference
noted g [] = g
noted g (k ∷ ks) = noted (note g k) ks

-- Every listing of the map is what a reference says of its path.
abbrev Within : (PathBuf → Option (Entries × ℕ)) → Assoc PathBuf (Entries × ℕ) → Type 0
Within g m = (q : PathBuf) (v : Entries × ℕ) → lookup q m ≡ some v → g q ≡ some v

hit_if :
    (b : Bool) (o : Option (Entries × ℕ)) (v : Entries × ℕ)
    → (if b then none else o) ≡ some v
    → (b ≡ false) × (o ≡ some v)
hit_if true o v h = cc
hit_if false o v h = (refl, h)

hit_chosen :
    (b : Bool) (e v : Entries × ℕ) (o o' : Option (Entries × ℕ))
    → (o ≡ some v → o' ≡ some v)
    → (if b then some e else o) ≡ some v
    → (if b then some e else o') ≡ some v
hit_chosen true e v o o' f h = h
hit_chosen false e v o o' f h = f h

Within-remove :
    (g g' : PathBuf → Option (Entries × ℕ)) (p : PathBuf) (m : Assoc PathBuf (Entries × ℕ))
    → ((q : PathBuf) → (p == q) ≡ false → g' q ≡ g q)
    → Within g m
    → Within g' (remove p m)
Within-remove g g' p m s w q v l =
    let h = hit_if (p == q) (lookup q m) v (sym (lookup-remove p q m) ∙ l) in s q h.0 ∙ w q v h.1

Within-evict :
    (g : PathBuf → Option (Entries × ℕ)) (capacity : ℕ) (ks : List PathBuf)
    (m : Assoc PathBuf (Entries × ℕ))
    → Within g m
    → Within g (evict capacity ks m).1
unfolding evict
Within-evict g capacity [] m w = w
Within-evict g capacity (k ∷ ks) m w =
    if_both {A = List PathBuf × Assoc PathBuf (Entries × ℕ)} (λ r. Within g r.1)
      (leb capacity (length (k ∷ ks)))
      (Within-evict g capacity ks (remove k m) (Within-remove g g k m (λ q n. refl) w)) w

Within-insert :
    (g g' : PathBuf → Option (Entries × ℕ)) (p : PathBuf) (e : Entries × ℕ)
    (m : Assoc PathBuf (Entries × ℕ))
    → ((q : PathBuf) → g' q ≡ (if p == q then some e else g q))
    → Within g m
    → Within g' (insert p e m)
Within-insert g g' p e m s w q v l =
    s q ∙ hit_chosen (p == q) e v (lookup q m) (g q) (w q v) (sym (lookup-insert p q e m) ∙ l)

-- A path of the map that lies under a prefix is among the keys that go.
hit_later :
    (b : Bool) (e v : Entries × ℕ) (o : Option (Entries × ℕ))
    → b ≡ false
    → (if b then some e else o) ≡ some v
    → o ≡ some v
hit_later true e v o f h = cc
hit_later false e v o f h = h

contains-keys_under :
    (p q : PathBuf) (v : Entries × ℕ) (m : Assoc PathBuf (Entries × ℕ))
    → lookup q m ≡ some v
    → starts_with q p ≡ true
    → contains q (keys_under p m) ≡ true
unfolding lookup
contains-keys_under p q v [] l t = cc
contains-keys_under p q v ((k, w) ∷ m) l t = elim (Bool-cases (k == q)) [
  | inl e ↦
      let under : starts_with k p ≡ true = ap (λ x. starts_with x p) (eq_true e) ∙ t in
      rw (under, e) refl
  | inr e ↦
      let more = contains-keys_under p q v m (hit_later (k == q) w v (lookup q m) e l) t in
      if_both (λ ks. contains q ks ≡ true) (starts_with k p) (rw (e, more) refl) more
]

Within-invalidate_prefix :
    (g : PathBuf → Option (Entries × ℕ)) (p : PathBuf) (m : Assoc PathBuf (Entries × ℕ))
    → Within g m
    → Within (λ q. if starts_with q p then none else g q) (remove_each (keys_under p m) m)
Within-invalidate_prefix g p m w q v l =
    let ks = keys_under p m in
    let h = hit_if (contains q ks) (lookup q m) v (sym (lookup-remove_each ks q m) ∙ l) in
    elim (Bool-cases (starts_with q p)) [
      | inl t ↦ absurd (cc (h.0, contains-keys_under p q v m h.1 t))
      | inr t ↦ rw t (w q v h.1)
    ]

-- What a cache and a reference share after the same calls.
record Follows (g : Reference) (c : DirCache) : Type 0 where
  within : Within g.latest c.map
  epochs : c.current ≡ g.version

Follows-get_found :
    (g : Reference) (c : DirCache) (p : PathBuf) (now : ℕ) (o : Option (Entries × ℕ))
    → Follows g c
    → Follows g (get_found c p now o).0
unfolding remove_entry
Follows-get_found g c p now none f = f
Follows-get_found g c p now (some (es, when)) f =
    if_both {A = DirCache × Option Entries} (λ r. Follows g r.0) (is_fresh c.ttl now when) f
      (record {
        within = Within-remove g.latest g.latest p c.map (λ q n. refl) f.within;
        epochs = f.epochs;
      })

Follows-put :
    (g : Reference) (c : DirCache) (p : PathBuf) (es : Entries) (seen now : ℕ)
    → Follows g c
    → Follows (note g (puts p es seen now)) (put c p es seen now)
unfolding put
Follows-put g c p es seen now f = elim (Bool-cases (g.version == seen)) [
  | inl t ↦
      let t' : (c.current == seen) ≡ true = ap (λ n. n == seen) f.epochs ∙ t in
      rw (t, t', put)
        (record {
          within =
              Within-insert g.latest (λ q. if p == q then some (es, now) else g.latest q) p
                (es, now) (evict c.capacity (remove_first (λ k. k == p) c.order) c.map).1
                (λ q. refl)
                (Within-evict g.latest c.capacity (remove_first (λ k. k == p) c.order) c.map
                  f.within);
          epochs = f.epochs;
        })
  | inr t ↦
      let t' : (c.current == seen) ≡ false = ap (λ n. n == seen) f.epochs ∙ t in rw (t, t', put) f
]

Follows-step :
    (g : Reference) (c : DirCache) (k : Call) → Follows g c → Follows (note g k) (step c k)
unfolding step remove_entry
Follows-step g c (gets p now) f = Follows-get_found g c p now (lookup p c.map) f
Follows-step g c (puts p es seen now) f = Follows-put g c p es seen now f
Follows-step g c (invalidates p) f = record {
  within =
      Within-remove g.latest (note g (invalidates p)).latest p c.map (λ q n. rw n refl) f.within;
  epochs = ap (λ n. (n + 1) % 2 ^ 64) f.epochs;
}
Follows-step g c (invalidates_prefix p) f = record {
  within = Within-invalidate_prefix g.latest p c.map f.within;
  epochs = ap (λ n. (n + 1) % 2 ^ 64) f.epochs;
}

Follows-run :
    (g : Reference) (c : DirCache) (ks : List Call) → Follows g c → Follows (noted g ks) (run c ks)
unfolding run
Follows-run g c [] f = f
Follows-run g c (k ∷ ks) f = Follows-run (note g k) (step c k) ks (Follows-step g c k f)

ttl-get_found :
    (c : DirCache) (p : PathBuf) (now : ℕ) (o : Option (Entries × ℕ))
    → (get_found c p now o).0.ttl ≡ c.ttl
unfolding remove_entry
ttl-get_found c p now none = refl
ttl-get_found c p now (some e) = ground arith

ttl-step : (c : DirCache) (k : Call) → (step c k).ttl ≡ c.ttl
unfolding step put remove_entry
ttl-step c (gets p now) = ttl-get_found c p now (lookup p c.map)
ttl-step c (puts p es seen now) = ground arith
ttl-step c _ = refl

ttl-run : (c : DirCache) (ks : List Call) → (run c ks).ttl ≡ c.ttl
unfolding run
ttl-run c [] = refl
ttl-run c (k ∷ ks) = ttl-run (step c k) ks ∙ ttl-step c k

hit-get_found :
    (c : DirCache) (p : PathBuf) (now : ℕ) (es : Entries) (o : Option (Entries × ℕ))
    → (get_found c p now o).1 ≡ some es
    → (when : ℕ) × (o ≡ some (es, when)) × (now - when < c.ttl)
hit-get_found c p now es none h = cc
hit-get_found c p now es (some (fs, when)) h = elim (Bool-cases (is_fresh c.ttl now when)) [
  | inl f ↦
      let e : get_found c p now (some (fs, when)) ≡ (c, some fs) = rw f refl in
      (when, cc (h, ap (λ (r : DirCache × Option Entries). r.1) e), ltb→lt (now - when) c.ttl f)
  | inr f ↦
      let e : get_found c p now (some (fs, when)) ≡ (remove_entry c p, none) = rw f refl in
      absurd (cc (h, ap (λ (r : DirCache × Option Entries). r.1) e))
]

-- Whatever was called before, a listing that the cache answers is the last one that was put for that very
-- path with the epoch of its time, was put less than the time to live ago, and was not invalidated
-- since, neither itself nor with a directory above it.
pub get-noted_listing :
    (ttl capacity : ℕ) (ks : List Call) (p : PathBuf) (now : ℕ) (es : Entries)
    → (get (run (new ttl capacity) ks) p now).1 ≡ some es
    → (when : ℕ) × ((noted nothing ks).latest p ≡ some (es, when)) × (now - when < ttl)
unfolding get
get-noted_listing ttl capacity ks p now es h =
    let c = run (new ttl capacity) ks in
    let hit = hit-get_found c p now es (lookup p c.map) h in
    let f =
      Follows-run nothing (new ttl capacity) ks (record { within = λ q v l. cc; epochs = refl }) in
    (hit.0, f.within p (es, hit.0) hit.1, omega (arith, hit.2, ttl-run (new ttl capacity) ks))
