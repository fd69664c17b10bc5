-- ===== src/Proxy/Listing/Rounds.antt =====
-- The rounds of the loop of `do_listdir`, one by one.
use adbshare.Base.{
  ℕ, ◌+◌, ◌≤◌, ◌<◌, ◌≡◌, refl, ap, ◌∙◌, true, false, Bool-cases, inl, inr, ◌⊎◌, List, [], ◌∷◌, ◌++◌,
  ltb, leb, if◌then◌else◌, arith,
}
use adbshare.Base.Bytes.{Bytes}
use adbshare.Proxy.Device.{Libc, done, CStat}
use adbshare.Proxy.Device.Listing.{Page, is_dot, full_path, dir_entry, list_entry, list_loop}

-- The entries of a directory, all but `.` and `..`.
abbrev pub visible : (Bytes → CStat) → List Bytes → List (Bytes × CStat)
visible stat_of [] = []
visible stat_of (name ∷ names) =
    let rest = visible stat_of names in if is_dot name then rest else (name, stat_of name) ∷ rest

ltb-true : (a b : ℕ) → a < b → ltb a b ≡ true
ltb-true a b h = ground arith

ltb-false : (a b : ℕ) → b ≤ a → ltb a b ≡ false
ltb-false a b h = ground arith

leb-true : (a b : ℕ) → a ≤ b → leb a b ≡ true
leb-true a b h = ground arith

pub lt_or_le : (a b : ℕ) → (a < b) ⊎ (b ≤ a)
lt_or_le a b = elim (Bool-cases (ltb a b)) [
  | inl t ↦ inl (ground (arith, t))
  | inr f ↦ inr (ground (arith, f))
]

leb-false : (a b : ℕ) → b < a → leb a b ≡ false
leb-false a b h = ground arith

module _ (libc : Libc) (path : Bytes) (stat_of : Bytes → CStat) where
  open libc use {World, lstat_call, names_in}

  -- Each name of the directory is one that `lstat` finds, and asking changes nothing.
  abbrev pub IsQuiet : Type 0
  IsQuiet =
      (name : Bytes) (w : World) → lstat_call (full_path path name) w ≡ (done (stat_of name), w)

  pub entry_dot :
      (offset : ℕ) (name : Bytes) (s : Page World)
      → is_dot name ≡ true
      → list_entry libc path offset name s ≡ s
  unfolding list_entry
  entry_dot offset name s d = rw d refl

  pub entry_skipped :
      (offset : ℕ) (name : Bytes) (s : Page World)
      → is_dot name ≡ false
      → s.seen + 1 ≤ offset
      → list_entry libc path offset name s ≡ record s { seen = s.seen + 1 }
  unfolding list_entry
  entry_skipped offset name s d h = ground arith

  pub entry_sent :
      (offset : ℕ) (name : Bytes) (s : Page World)
      → IsQuiet
      → is_dot name ≡ false
      → offset < s.seen + 1
      → list_entry libc path offset name s ≡ record {
        seen = s.seen + 1;
        emitted = s.emitted + 1;
        body = s.body ++ dir_entry name (stat_of name);
        world = s.world;
      }
  unfolding list_entry
  entry_sent offset name s q d h = rw (q name s.world) (ground arith)

  pub loop_on :
      (offset room : ℕ) (name : Bytes) (names : List Bytes) (s s' : Page World)
      → list_entry libc path offset name s ≡ s'
      → s'.emitted ≤ s.emitted
      → list_loop libc path offset room (name ∷ names) s ≡ list_loop libc path offset room names s'
  unfolding list_loop
  loop_on offset room name names s s' e h =
      let t : ltb s.emitted (list_entry libc path offset name s).emitted ≡ false =
        ap (λ p. ltb s.emitted p.emitted) e ∙ ltb-false s.emitted s'.emitted h in
      rw (t, list_loop) (ap (list_loop libc path offset room names) e)

  pub loop_more :
      (offset room : ℕ) (name : Bytes) (names : List Bytes) (s s' : Page World)
      → list_entry libc path offset name s ≡ s'
      → s.emitted < s'.emitted
      → s'.emitted < room
      → list_loop libc path offset room (name ∷ names) s ≡ list_loop libc path offset room names s'
  unfolding list_loop
  loop_more offset room name names s s' e h k =
      let t : ltb s.emitted (list_entry libc path offset name s).emitted ≡ true =
        ap (λ p. ltb s.emitted p.emitted) e ∙ ltb-true s.emitted s'.emitted h in
      let u : leb room (list_entry libc path offset name s).emitted ≡ false =
        ap (λ p. leb room p.emitted) e ∙ leb-false room s'.emitted k in
      rw (t, u, list_loop) (ap (list_loop libc path offset room names) e)

  pub loop_full :
      (offset room : ℕ) (name : Bytes) (names : List Bytes) (s s' : Page World)
      → list_entry libc path offset name s ≡ s'
      → s.emitted < s'.emitted
      → room ≤ s'.emitted
      → list_loop libc path offset room (name ∷ names) s ≡ s'
  unfolding list_loop
  loop_full offset room name names s s' e h k =
      let t : ltb s.emitted (list_entry libc path offset name s).emitted ≡ true =
        ap (λ p. ltb s.emitted p.emitted) e ∙ ltb-true s.emitted s'.emitted h in
      let u : leb room (list_entry libc path offset name s).emitted ≡ true =
        ap (λ p. leb room p.emitted) e ∙ leb-true room s'.emitted k in
      rw (t, u, list_loop) e
