-- ===== src/Fs/DirCache/Hits.antt =====
-- What a `DirCache` is sure to answer.
use adbshare.Base.{
  ℕ, ◌<◌, ◌≡◌, ◌≢◌, refl, ap, ◌∙◌, true, Option, none, some, List, [], ◌∷◌, ◌++◌, length,
  remove_first, length-remove_first-le, ◌==◌, ℕ_eq, list_eq, if◌then◌else◌, eq_self, eq_of_ne,
  arith,
}
use adbshare.Base.Assoc.{Assoc, lookup, insert, lookup-insert}
use adbshare.Fs.{PathBuf, is_fresh}
use adbshare.Fs.DirCache.{DirCache, Entries, get, get_found, evict, put, epoch}

hit_of :
    (c d : DirCache) (p : PathBuf) (now : ℕ) (o : Option (Entries × ℕ))
    → c.ttl ≡ d.ttl
    → (get_found c p now o).1 ≡ (get_found d p now o).1
hit_of c d p now none e = refl
hit_of c d p now (some (s, when)) e = ground (arith, e)

evict-same :
    (capacity : ℕ) (ks : List PathBuf) (m : Assoc PathBuf (Entries × ℕ))
    → length ks < capacity
    → evict capacity ks m ≡ (ks, m)
unfolding evict
evict-same capacity [] m h = refl
evict-same capacity (k ∷ ks) m h = ground (arith, h)

hit_some :
    (c : DirCache) (p : PathBuf) (now : ℕ) (es : Entries) (t : ℕ)
    → (get_found c p now (some (es, t))).1 ≡ (if is_fresh c.ttl now t then some es else none)
hit_some c p now es t = ground arith

-- What a `put` leaves that evicts nothing.
abbrev stored : DirCache → PathBuf → Entries × ℕ → DirCache
stored c p v = record c {
  order = remove_first (λ k. k == p) c.order ++ (p ∷ []);
  map = insert p v c.map;
}

put_current :
    (c : DirCache) (p : PathBuf) (es : Entries) (t : ℕ)
    → length c.order < c.capacity
    → put c p es (epoch c) t ≡ stored c p (es, t)
unfolding put
put_current c p es t h =
    let moved = remove_first (λ k. k == p) c.order in
    let same : (c.current == c.current) ≡ true = eq_self c.current in
    let e =
      evict-same c.capacity moved c.map
        (omega (arith, h, length-remove_first-le (λ k. k == p) c.order)) in
    rw (same, e, put) refl

-- A listing that was just put with the current epoch is answered for its path until the time to live is
-- over; and while there is room for one more, every other path is answered as it was before.
pub get-put_listing :
    (c : DirCache) (p q : PathBuf) (es : Entries) (t now : ℕ)
    → p ≢ q
    → length c.order < c.capacity
    → ((get (put c p es (epoch c) t) p now).1 ≡ (if is_fresh c.ttl now t then some es else none))
      × ((get (put c p es (epoch c) t) q now).1 ≡ (get c q now).1)
unfolding get put
get-put_listing c p q es t now n h =
    let v : Entries × ℕ = (es, t) in
    let d = stored c p v in
    let e = put_current c p es t h in
    (
      ap (λ (c' : DirCache). (get c' p now).1) e
          ∙ ap (λ o. (get_found d p now o).1)
              (lookup-insert p p v c.map
                ∙ ap (λ b. if b then some v else lookup p c.map) (eq_self p))
          ∙ hit_some d p now es t,
      ap (λ (c' : DirCache). (get c' q now).1) e
          ∙ ap (λ o. (get_found d q now o).1)
              (lookup-insert p q v c.map
                ∙ ap (λ b. if b then some v else lookup q c.map) (eq_of_ne n))
          ∙ hit_of d c q now (lookup q c.map) refl,
    )
