-- ===== src/Fs/StatCache/Hits.antt =====
-- What a `StatCache` is sure to answer.
use adbshare.Base.{
  ℕ, ◌<◌, ◌≡◌, ◌≢◌, refl, ap, ◌∙◌, Option, none, some, length, ◌==◌, ℕ_eq, list_eq, if◌then◌else◌,
  eq_self, eq_of_ne, arith,
}
use adbshare.Base.Assoc.{lookup, lookup-insert}
use adbshare.Proxy.Ops.{Stat}
use adbshare.Fs.{PathBuf, is_fresh}
use adbshare.Fs.StatCache.{StatCache, max_entries, get, get_found, make_room, put}

hit_of :
    (c d : StatCache) (p : PathBuf) (now : ℕ) (o : Option (Stat × ℕ))
    → c.ttl ≡ d.ttl
    → (get_found c p now o).1 ≡ (get_found d p now o).1
hit_of c d p now none e = refl
hit_of c d p now (some (s, when)) e = ground (arith, e)

hit_some :
    (c : StatCache) (p : PathBuf) (now : ℕ) (s : Stat) (t : ℕ)
    → (get_found c p now (some (s, t))).1 ≡ (if is_fresh c.ttl now t then some s else none)
hit_some c p now s t = ground arith

make_room-same :
    (c : StatCache) (now : ℕ) → length c.inner < max_entries → make_room c now ≡ c.inner
unfolding make_room
make_room-same c now h = ground arith

-- A `stat` that was just put is answered for its path until the time to live is over; and while fewer than
-- 8192 paths are remembered, every other path is answered as it was before.
pub get-put :
    (c : StatCache) (p q : PathBuf) (s : Stat) (t now : ℕ)
    → p ≢ q
    → length c.inner < max_entries
    → ((get (put c p s t) p now).1 ≡ (if is_fresh c.ttl now t then some s else none))
      × ((get (put c p s t) q now).1 ≡ (get c q now).1)
unfolding get put
get-put c p q s t now n h =
    let d = put c p s t in
    let found : (r : PathBuf)
        → lookup r d.inner ≡ (if p == r then some (s, t) else lookup r c.inner) =
      λ r.
        lookup-insert p r (s, t) (make_room c t)
        ∙ ap (λ m. if p == r then some (s, t) else lookup r m) (make_room-same c t h) in
    (
      ap (λ o. (get_found d p now o).1)
            (found p ∙ ap (λ b. if b then some (s, t) else lookup p c.inner) (eq_self p))
          ∙ hit_some d p now s t,
      ap (λ o. (get_found d q now o).1)
            (found q ∙ ap (λ b. if b then some (s, t) else lookup q c.inner) (eq_of_ne n))
          ∙ hit_of d c q now (lookup q c.inner) refl,
    )
