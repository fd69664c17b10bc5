-- ===== src/Proxy/Device/Listing.antt =====
-- `do_listdir`, one page of a directory, and the arm 0x06 of `dispatch`.
use adbshare.Base.{
  ℕ, ◌+◌, ltb, leb, max, Bool, true, false, ◌||◌, none, some, List, [], ◌∷◌, ◌++◌, length, ◌==◌,
  ℕ_eq, list_eq, if◌then◌else◌,
}
use adbshare.Base.Bytes.{Bytes, le_bytes, from_le, slice}
use adbshare.Proxy.Device.{
  Libc, Ret, done, fails, CStat, read_path, c_str, stat_status, encode_stat, bad_path, listdir_page,
}

abbrev ends_with_slash : Bytes → Bool
ends_with_slash [] = false
ends_with_slash (b ∷ []) = b == b'/'
ends_with_slash (b ∷ c ∷ bs) = ends_with_slash (c ∷ bs)

abbrev pub is_dot : Bytes → Bool
is_dot name = name == (b'.' ∷ []) || name == (b'.' ∷ b'.' ∷ [])

-- The path that `lstat` is asked about: the directory, a slash if it lacks one, the name, a NUL.
abbrev pub full_path : Bytes → Bytes → Bytes
full_path path name =
    c_str ((if ends_with_slash path then path else path ++ (b'/' ∷ [])) ++ (name ++ (0 ∷ [])))

abbrev pub dir_entry : Bytes → CStat → Bytes
dir_entry name st = le_bytes 4 (length name) ++ (name ++ encode_stat st)

-- The variables of the loop.
pub record Page {ℓ} (W : Type ℓ) : Type ℓ where
  pub seen : ℕ
  pub emitted : ℕ
  pub body : Bytes
  pub world : W

module _ (libc : Libc) where
  open libc use {World, lstat_call, names_in, strerror}

  abbrev emit : Bytes → Page World → Ret CStat × World → Page World
  emit name s (fails e, w) = record s { world = w }
  emit name s (done st, w) = record s {
    emitted = s.emitted + 1;
    body = s.body ++ dir_entry name st;
    world = w;
  }

  -- One round of the loop, up to its last test.
  unfoldable pub list_entry : Bytes → ℕ → Bytes → Page World → Page World
  list_entry path offset name s =
      let past = record s { seen = s.seen + 1 } in
      if is_dot name
      then s
      else if leb (s.seen + 1) offset
      then past
      else emit name past (lstat_call (full_path path name) s.world)

  -- A round that sent nothing goes on; one that sent the last entry of the page ends the loop.
  unfoldable pub list_loop : Bytes → ℕ → ℕ → List Bytes → Page World → Page World
  unfolding list_entry
  list_loop path offset max_entries [] s = s
  list_loop path offset max_entries (name ∷ names) s =
      let s' = list_entry path offset name s in
      elim (ltb s.emitted s'.emitted) [
        | false ↦ list_loop path offset max_entries names s'
        | true ↦ elim (leb max_entries s'.emitted) [
          | true ↦ s'
          | false ↦ list_loop path offset max_entries names s'
        ]
      ]

  abbrev pub page_reply : Page World → Bytes × World
  page_reply s = (0 ∷ le_bytes 4 s.emitted ++ s.body, s.world)

  abbrev pub listed : Bytes → ℕ → ℕ → Ret (List Bytes) × World → Bytes × World
  listed path offset max_entries (fails e, w) = (stat_status e ∷ strerror e, w)
  listed path offset max_entries (done names, w) = page_reply (
      list_loop path offset max_entries names
        (record { seen = 0; emitted = 0; body = []; world = w }))

  unfoldable pub do_listdir : Bytes → ℕ → ℕ → World → Bytes × World
  unfolding list_loop
  do_listdir path offset max_entries w =
      listed path offset max_entries (names_in (c_str (path ++ (0 ∷ []))) w)

  unfoldable pub handle_listdir : Bytes → World → Bytes × World
  unfolding do_listdir
  handle_listdir args w = elim (read_path args) [
    | none ↦ (bad_path, w)
    | some (path, rest) ↦
        if leb 8 (length rest)
        then do_listdir path (from_le (slice rest 0 4)) (max (from_le (slice rest 4 8)) 1) w
        else do_listdir path 0 (max listdir_page 1) w
  ]
