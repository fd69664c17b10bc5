-- ===== src/Proxy/Listing/Window.antt =====
-- One page: which entries of a directory `do_listdir` sends.
use mathlib.Core.List.{append-nil, append_assoc}
use adbshare.Base.{
  ℕ, suc, ◌+◌, ◌-◌, ◌≤◌, ◌<◌, ◌≡◌, refl, sym, ap, ◌∙◌, true, false, Bool-cases, inl, inr, List, [],
  ◌∷◌, ◌++◌, length, drop, take, drop-nil, take-nil, arith,
}
use adbshare.Base.Bytes.{Bytes, le_bytes}
use adbshare.Proxy.Device.{Libc, done, CStat, c_str}
use adbshare.Proxy.Device.Listing.{
  Page, is_dot, dir_entry, list_loop, page_reply, do_listdir, listed,
}
use adbshare.Proxy.Listing.Entries.{body_of}
use adbshare.Proxy.Listing.Rounds.{
  visible, IsQuiet, lt_or_le, entry_dot, entry_skipped, entry_sent, loop_on, loop_more, loop_full,
}

module _ (libc : Libc) (path : Bytes) (stat_of : Bytes → CStat) where
  open libc use {World, lstat_call, names_in}

  -- What a page that is built up to `s` answers once it has these entries too.
  abbrev with_entries : Page World → List (Bytes × CStat) → Bytes × World
  with_entries s es = (0 ∷ le_bytes 4 (s.emitted + length es) ++ (s.body ++ body_of es), s.world)

  with_entries-nil : (s : Page World) → page_reply libc s ≡ with_entries s []
  with_entries-nil s =
      let none_more : s.emitted + 0 ≡ s.emitted = omega arith in
      rw (none_more, append-nil s.body) refl

  with_entries-cons :
      (s : Page World) (seen : ℕ) (name : Bytes) (es : List (Bytes × CStat))
      → with_entries
          (record {
            seen = seen;
            emitted = s.emitted + 1;
            body = s.body ++ dir_entry name (stat_of name);
            world = s.world;
          })
          es
        ≡ with_entries s ((name, stat_of name) ∷ es)
  with_entries-cons s seen name es =
      let one : s.emitted + 1 + length es ≡ s.emitted + suc (length es) = omega arith in
      ap (λ t. (0 ∷ t, s.world))
        (ap (λ n. le_bytes 4 n ++ ((s.body ++ dir_entry name (stat_of name)) ++ body_of es)) one
          ∙ ap (λ t. le_bytes 4 (s.emitted + suc (length es)) ++ t)
              (append_assoc s.body (dir_entry name (stat_of name)) (body_of es)))

  -- What is left to send: the window from the offset on, as far as the page has room.
  abbrev window : ℕ → ℕ → List Bytes → Page World → List (Bytes × CStat)
  window offset room names s =
      take (room - s.emitted) (drop (offset - s.seen) (visible stat_of names))

  window-sent :
      (offset room : ℕ) (e : Bytes × CStat) (es : List (Bytes × CStat)) (s : Page World)
      → s.emitted < room
      → offset < s.seen + 1
      → take (room - s.emitted) (drop (offset - s.seen) (e ∷ es))
        ≡ e ∷ take (room - (s.emitted + 1)) (drop (offset - (s.seen + 1)) es)
  window-sent offset room e es s h k =
      let r : room - s.emitted ≡ suc (room - (s.emitted + 1)) = omega arith in
      let o : offset - s.seen ≡ 0 = omega arith in
      let o' : offset - (s.seen + 1) ≡ 0 = omega arith in rw (r, o, o') refl

  window-skipped :
      (offset : ℕ) (e : Bytes × CStat) (es : List (Bytes × CStat)) (s : Page World)
      → s.seen + 1 ≤ offset
      → drop (offset - s.seen) (e ∷ es) ≡ drop (offset - (s.seen + 1)) es
  window-skipped offset e es s h =
      let o : offset - s.seen ≡ suc (offset - (s.seen + 1)) = omega arith in rw o refl

  visible-seen :
      (name : Bytes) (names : List Bytes)
      → is_dot name ≡ false
      → visible stat_of (name ∷ names) ≡ (name, stat_of name) ∷ visible stat_of names
  visible-seen name names d = rw d refl

  visible-dot :
      (name : Bytes) (names : List Bytes)
      → is_dot name ≡ true
      → visible stat_of (name ∷ names) ≡ visible stat_of names
  visible-dot name names d = rw d refl

  -- One entry is sent, and then the rest of the window.
  abbrev one_sent : Bytes → Page World → Page World
  one_sent name s = record {
    seen = s.seen + 1;
    emitted = s.emitted + 1;
    body = s.body ++ dir_entry name (stat_of name);
    world = s.world;
  }

  list_loop-sent :
      (offset room : ℕ) (name : Bytes) (names : List Bytes) (s : Page World)
      → IsQuiet libc path stat_of
      → s.emitted < room
      → is_dot name ≡ false
      → offset < s.seen + 1
      → (s.emitted + 1 < room
          → page_reply libc (list_loop libc path offset room names (one_sent name s))
            ≡ with_entries (one_sent name s) (window offset room names (one_sent name s)))
      → page_reply libc (list_loop libc path offset room (name ∷ names) s)
        ≡ with_entries s (window offset room (name ∷ names) s)
  list_loop-sent offset room name names s q h d k ih =
      let s' = one_sent name s in
      let e = entry_sent libc path stat_of offset name s q d k in
      let more = visible stat_of names in
      let whole : window offset room (name ∷ names) s
          ≡ (name, stat_of name) ∷ window offset room names s' =
        ap (λ v. take (room - s.emitted) (drop (offset - s.seen) v)) (visible-seen name names d)
        ∙ window-sent offset room (name, stat_of name) more s h k in
      let result =
        with_entries-cons s (s.seen + 1) name (window offset room names s')
        ∙ ap (with_entries s) (sym whole) in
      elim (lt_or_le (s.emitted + 1) room) [
        | inl l ↦
            ap (page_reply libc)
              (loop_more libc path stat_of offset room name names s s' e (omega arith) l)
            ∙ ih l
            ∙ result
        | inr l ↦
            let full : room - (s.emitted + 1) ≡ 0 = omega arith in
            let last : window offset room names s' ≡ [] =
              ap (λ n. take n (drop (offset - (s.seen + 1)) more)) full in
            ap (page_reply libc)
              (loop_full libc path stat_of offset room name names s s' e (omega arith) l)
            ∙ with_entries-nil s'
            ∙ ap (with_entries s') (sym last)
            ∙ result
      ]

  list_loop_lem :
      (offset room : ℕ) (names : List Bytes) (s : Page World)
      → IsQuiet libc path stat_of
      → s.emitted < room
      → page_reply libc (list_loop libc path offset room names s)
        ≡ with_entries s (window offset room names s)
  unfolding list_loop
  list_loop_lem offset room [] s q h =
      let nothing : window offset room [] s ≡ [] =
        ap (take (room - s.emitted)) (drop-nil (offset - s.seen)) ∙ take-nil (room - s.emitted) in
      with_entries-nil s ∙ ap (with_entries s) (sym nothing)
  list_loop_lem offset room (name ∷ names) s q h = elim (Bool-cases (is_dot name)) [
    | inl d ↦
        ap (page_reply libc) (
          loop_on libc path stat_of offset room name names s s
            (entry_dot libc path stat_of offset name s d) (omega arith))
        ∙ list_loop_lem offset room names s q h
        ∙ ap (λ v. with_entries s (take (room - s.emitted) (drop (offset - s.seen) v)))
            (sym (visible-dot name names d))
    | inr d ↦ elim (lt_or_le offset (s.seen + 1)) [
      | inl k ↦
          list_loop-sent offset room name names s q h d k
            (list_loop_lem offset room names (one_sent name s) q)
      | inr k ↦
          ap (page_reply libc) (
            loop_on libc path stat_of offset room name names s (record s { seen = s.seen + 1 })
              (entry_skipped libc path stat_of offset name s d k) (omega arith))
          ∙ list_loop_lem offset room names (record s { seen = s.seen + 1 }) q h
          ∙ ap (λ v. with_entries s (take (room - s.emitted) v))
              (sym (
                ap (drop (offset - s.seen)) (visible-seen name names d)
                ∙ window-skipped offset (name, stat_of name) (visible stat_of names) s k))
    ]
  ]

  -- A page of at most `room` entries from an offset, of a directory that holds these names.
  pub do_listdir_lem :
      (offset room : ℕ) (names : List Bytes) (w : World)
      → names_in (c_str (path ++ (0 ∷ []))) w ≡ (done names, w)
      → IsQuiet libc path stat_of
      → 1 ≤ room
      → do_listdir libc path offset room w ≡ (
        0
            ∷ (le_bytes 4 (length (take room (drop offset (visible stat_of names))))
                ++ body_of (take room (drop offset (visible stat_of names)))),
        w,
      )
  unfolding do_listdir
  do_listdir_lem offset room names w e q h =
      let s : Page World = record { seen = 0; emitted = 0; body = []; world = w } in
      let r : room - 0 ≡ room = omega arith in
      let o : offset - 0 ≡ offset = omega arith in
      let sent : window offset room names s ≡ take room (drop offset (visible stat_of names)) =
        ap (λ n. take n (drop (offset - 0) (visible stat_of names))) r
        ∙ ap (λ n. take room (drop n (visible stat_of names))) o in
      let entries = take room (drop offset (visible stat_of names)) in
      let counted : 0 + length entries ≡ length entries = omega arith in
      ap (λ r. listed libc path offset room r) e
      ∙ list_loop_lem offset room names s q h
      ∙ ap (with_entries s) sent
      ∙ ap (λ n. (0 ∷ (le_bytes 4 n ++ body_of entries), w)) counted
