-- ===== src/Fs/DirCache/Agreement.antt =====
-- The eviction order of a `DirCache` and its map hold the same paths.
use adbshare.Base.{
  ℕ, suc, ◌+◌, ◌-◌, ◌≤◌, ◌<◌, ◌≡◌, refl, sym, ap, ◌∙◌, leb, Bool, true, false, not, ◌||◌, Option,
  none, some, List, [], ◌∷◌, ◌++◌, length, length-append, keep, remove_first, length-keep-le,
  count_where, count_where-append, ◌==◌, ℕ_eq, list_eq, if◌then◌else◌, arith, Eq, if_both,
}
use adbshare.Base.Assoc.{Assoc, lookup, remove, insert, lookup-remove, lookup-insert}
use adbshare.Fs.{PathBuf, is_fresh}
use adbshare.Fs.DirCache.{
  DirCache, Entries, new, get_found, put, evict, invalidate_prefix, remove_entry, bumped, contains,
  keys_under, remove_each, Call, gets, puts, invalidates, invalidates_prefix, step, run,
}

abbrev pub presence {ℓ} : {A : Type ℓ} → Option A → ℕ
presence none = 0
presence (some a) = 1

module _ {K : Type 0} ⦃e : Eq K⦄ where
  abbrev pub times : K → List K → ℕ
  times p = count_where (λ k. k == p)

  times-remove_first :
      (p q : K) (xs : List K)
      → times q (remove_first (λ k. k == p) xs) ≡ (if p == q then times q xs - 1 else times q xs)
  times-remove_first p q [] = ground arith
  times-remove_first p q (x ∷ xs) =
      ground (arith, times-remove_first p q xs, e.same_iff x p, e.same_iff x q, e.same_iff p q)

  times-keep :
      (t : K → Bool) (q : K) (xs : List K) → times q (keep t xs) ≡ (if t q then times q xs else 0)
  times-keep t q [] = ground arith
  times-keep t q (x ∷ xs) = ground (arith, times-keep t q xs, e.same_iff x q)

  eq_sym : (p q : K) → (q == p) ≡ (p == q)
  eq_sym p q = ground (arith, e.same_iff p q, e.same_iff q p)

-- A path is in the order once if it is in the map, and else not at all; and the order is within capacity.
pub record Agrees (c : DirCache) : Type 0 where
  pub same : (p : PathBuf) → times p c.order ≡ presence (lookup p c.map)
  pub fits : length c.order ≤ c.capacity
  pub room : 1 ≤ c.capacity

presence-le : (o : Option (Entries × ℕ)) → presence o ≤ 1
presence-le none = omega arith
presence-le (some a) = omega arith

presence-if :
    (b : Bool) (o : Option (Entries × ℕ))
    → presence (if b then none else o) ≡ (if b then 0 else presence o)
presence-if true o = refl
presence-if false o = refl

presence-remove :
    (p q : PathBuf) (m : Assoc PathBuf (Entries × ℕ))
    → presence (lookup q (remove p m)) ≡ (if p == q then 0 else presence (lookup q m))
presence-remove p q m = ap presence (lookup-remove p q m) ∙ presence-if (p == q) (lookup q m)

if_not : (b : Bool) (n m : ℕ) → n ≡ m → (if not b then n else 0) ≡ (if b then 0 else m)
if_not b n m h = ground arith

if_tail :
    (b c : Bool) (n m : ℕ)
    → (if c then suc n else n) ≡ (if b then 0 else m)
    → m ≤ 1
    → n ≡ (if b then 0 else (if c then 0 else m))
if_tail b c n m h k = ground arith

remove_entry-Agrees : (c : DirCache) (p : PathBuf) → Agrees c → Agrees (remove_entry c p)
unfolding remove_entry
remove_entry-Agrees c p a = record {
  same = λ q.
      times-keep (λ k. not (k == p)) q c.order
      ∙ ap (λ b. if not b then times q c.order else 0) (eq_sym p q)
      ∙ if_not (p == q) (times q c.order) (presence (lookup q c.map)) (a.same q)
      ∙ sym (presence-remove p q c.map);
  fits = omega (arith, a.fits, length-keep-le (λ k. not (k == p)) c.order);
  room = a.room;
}

-- What `put` evicts to: the path that is put is no longer in the order, and the others agree.
abbrev AgreesBut : PathBuf → List PathBuf → Assoc PathBuf (Entries × ℕ) → Type 0
AgreesBut p order m = (q : PathBuf) → times q order ≡ (if p == q then 0 else presence (lookup q m))

AgreesBut-tail :
    (p k : PathBuf) (ks : List PathBuf) (m : Assoc PathBuf (Entries × ℕ))
    → AgreesBut p (k ∷ ks) m
    → AgreesBut p ks (remove k m)
AgreesBut-tail p k ks m a q =
    if_tail (p == q) (k == q) (times q ks) (presence (lookup q m)) (a q) (presence-le (lookup q m))
    ∙ ap (λ n. if p == q then 0 else n) (sym (presence-remove k q m))

AgreesBut-evict :
    (p : PathBuf) (capacity : ℕ) (ks : List PathBuf) (m : Assoc PathBuf (Entries × ℕ))
    → AgreesBut p ks m
    → AgreesBut p (evict capacity ks m).0 (evict capacity ks m).1
unfolding evict
AgreesBut-evict p capacity [] m a = a
AgreesBut-evict p capacity (k ∷ ks) m a =
    if_both {A = List PathBuf × Assoc PathBuf (Entries × ℕ)} (λ r. AgreesBut p r.0 r.1)
      (leb capacity (length (k ∷ ks)))
      (AgreesBut-evict p capacity ks (remove k m) (AgreesBut-tail p k ks m a)) a

length-evict :
    (capacity : ℕ) (ks : List PathBuf) (m : Assoc PathBuf (Entries × ℕ))
    → 1 ≤ capacity
    → length (evict capacity ks m).0 < capacity
unfolding evict
length-evict capacity [] m h = omega (arith, h)
length-evict capacity (k ∷ ks) m h = ground (arith, length-evict capacity ks (remove k m) h)

if_first : (b : Bool) (n m : ℕ) → n ≡ m → m ≤ 1 → (if b then n - 1 else n) ≡ (if b then 0 else m)
if_first b n m h k = ground arith

if_last :
    (b : Bool) (n m : ℕ)
    → n ≡ (if b then 0 else m)
    → n + (if b then 1 else 0) ≡ (if b then 1 else m)
if_last b n m h = ground arith

presence-some :
    (b : Bool) (v : Entries × ℕ) (o : Option (Entries × ℕ))
    → presence (if b then some v else o) ≡ (if b then 1 else presence o)
presence-some true v o = refl
presence-some false v o = refl

stored-Agrees :
    (c : DirCache) (p : PathBuf) (v : Entries × ℕ) (order : List PathBuf)
    (m : Assoc PathBuf (Entries × ℕ))
    → AgreesBut p order m
    → length order < c.capacity
    → Agrees (record c { order = order ++ (p ∷ []); map = insert p v m })
stored-Agrees c p v order m a h = record {
  same = λ q.
      count_where-append (λ k. k == q) order (p ∷ [])
      ∙ if_last (p == q) (times q order) (presence (lookup q m)) (a q)
      ∙ sym (ap presence (lookup-insert p q v m) ∙ presence-some (p == q) v (lookup q m));
  fits = omega (arith, length-append order (p ∷ []), h);
  room = omega (arith, h);
}

put-Agrees :
    (c : DirCache) (p : PathBuf) (es : Entries) (seen now : ℕ)
    → Agrees c
    → Agrees (put c p es seen now)
unfolding put
put-Agrees c p es seen now a =
    let moved = remove_first (λ k. k == p) c.order in
    let but : AgreesBut p moved c.map = λ q.
      times-remove_first p q c.order
      ∙ if_first (p == q) (times q c.order) (presence (lookup q c.map)) (a.same q)
          (presence-le (lookup q c.map)) in
    let r = evict c.capacity moved c.map in
    if_both Agrees (not (c.current == seen)) a (
      stored-Agrees c p (es, now) r.0 r.1 (AgreesBut-evict p c.capacity moved c.map but)
        (length-evict c.capacity moved c.map a.room))

get_found-Agrees :
    (c : DirCache) (p : PathBuf) (now : ℕ) (o : Option (Entries × ℕ))
    → Agrees c
    → Agrees (get_found c p now o).0
get_found-Agrees c p now none a = a
get_found-Agrees c p now (some (es, when)) a =
    if_both {A = DirCache × Option Entries} (λ r. Agrees r.0) (is_fresh c.ttl now when) a
      (remove_entry-Agrees c p a)

bumped-Agrees : (c : DirCache) → Agrees c → Agrees (bumped c)
bumped-Agrees c a = record { same = a.same; fits = a.fits; room = a.room }

if_either :
    (b c : Bool) (o : Option (Entries × ℕ))
    → (if b then none else (if c then none else o)) ≡ (if c || b then none else o)
if_either true true o = refl
if_either true false o = refl
if_either false true o = refl
if_either false false o = refl

pub lookup-remove_each :
    (ks : List PathBuf) (q : PathBuf) (m : Assoc PathBuf (Entries × ℕ))
    → lookup q (remove_each ks m) ≡ (if contains q ks then none else lookup q m)
lookup-remove_each [] q m = refl
lookup-remove_each (k ∷ ks) q m =
    lookup-remove_each ks q (remove k m)
    ∙ ap (λ o. if contains q ks then none else o) (lookup-remove k q m)
    ∙ if_either (contains q ks) (k == q) (lookup q m)

invalidate_prefix-Agrees : (c : DirCache) (p : PathBuf) → Agrees c → Agrees (invalidate_prefix c p)
unfolding invalidate_prefix
invalidate_prefix-Agrees c p a =
    let dropped = keys_under p c.map in
    record {
      same = λ q.
          times-keep (λ k. not (contains k dropped)) q c.order
          ∙ if_not (contains q dropped) (times q c.order) (presence (lookup q c.map)) (a.same q)
          ∙ sym (
              ap presence (lookup-remove_each dropped q c.map)
              ∙ presence-if (contains q dropped) (lookup q c.map));
      fits = omega (arith, a.fits, length-keep-le (λ k. not (contains k dropped)) c.order);
      room = a.room;
    }

step-Agrees : (c : DirCache) (k : Call) → Agrees c → Agrees (step c k)
unfolding step
step-Agrees c (gets p now) a = get_found-Agrees c p now (lookup p c.map) a
step-Agrees c (puts p es seen now) a = put-Agrees c p es seen now a
step-Agrees c (invalidates p) a = remove_entry-Agrees (bumped c) p (bumped-Agrees c a)
step-Agrees c (invalidates_prefix p) a = invalidate_prefix-Agrees c p a

run-Agrees : (c : DirCache) (ks : List Call) → Agrees c → Agrees (run c ks)
unfolding run
run-Agrees c [] a = a
run-Agrees c (k ∷ ks) a = run-Agrees (step c k) ks (step-Agrees c k a)

-- Whatever is called, the eviction order holds each path of the map once and no other, and is no longer
-- than the capacity, which is at least one.
pub run-new-Agrees : (ttl capacity : ℕ) (ks : List Call) → Agrees (run (new ttl capacity) ks)
unfolding lookup
run-new-Agrees ttl capacity ks =
    run-Agrees (new ttl capacity) ks
      (record { same = λ p. refl; fits = omega arith; room = omega arith })
