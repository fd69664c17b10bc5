-- ===== src/Proxy/Listing/Entries.antt =====
-- A page of a directory, read by the host as the device wrote it.
use mathlib.Core.List.{append-nil, append_assoc}
use adbshare.Base.{
  ℕ, zero, suc, ◌+◌, ◌^◌, ◌≤◌, ◌<◌, ◌≡◌, refl, sym, ap, ◌∙◌, some, List, [], ◌∷◌, ◌++◌, map, length,
  length-append, drop, ◌==◌, ℕ_eq, true, eq_self, arith,
}
use adbshare.Base.Bytes.{
  Bytes, le_bytes, from_le, slice, length-le_bytes, from_le_u32, slice-append, drop-append_at,
}
use adbshare.Proxy.Ops.{Stat, encode, decode}
use adbshare.Proxy.Ops.Codec.{InRange, length-encode, decode-encode}
use adbshare.Proxy.Device.{CStat, encode_stat}
use adbshare.Proxy.Device.Listing.{dir_entry}
use adbshare.Proxy.Client.{ok}
use adbshare.Proxy.Listing.{DirEntry, parse_entry, parse_loop, parse_dir_entries, parse_dir_page}

-- What the host is to make of the device's `stat`.
abbrev pub to_stat : CStat → Stat
to_stat c = record {
  mode = c.st_mode;
  size = c.st_size;
  mtime = c.st_mtime;
  atime = c.st_atime;
  ctime = c.st_ctime;
  uid = c.st_uid;
  gid = c.st_gid;
  nlink = c.st_nlink;
  blksize = c.st_blksize;
  blocks = c.st_blocks;
}

abbrev pub to_entry : (Bytes → Bytes) → Bytes × CStat → DirEntry
to_entry lossy e = record { name = lossy e.0; stat = to_stat e.1 }

-- A name is at most `NAME_MAX` long, and the fields of the `stat` fit the wire.
pub record IsListable (e : Bytes × CStat) : Type 0 where
  pub short_name : length (e.0) ≤ 255
  pub in_range : InRange (to_stat e.1)

abbrev pub AreListable : List (Bytes × CStat) → Type 0
AreListable [] = Unit
AreListable (e ∷ es) = IsListable e × AreListable es

-- The entries of a page, as the device writes them.
abbrev pub body_of : List (Bytes × CStat) → Bytes
body_of [] = []
body_of (e ∷ es) = dir_entry e.0 e.1 ++ body_of es

pub encode_stat_lem : (c : CStat) → encode_stat c ≡ encode (to_stat c)
unfolding encode_stat encode
encode_stat_lem c = refl

dir_entry_append :
    (name : Bytes) (c : CStat) (rest : Bytes)
    → dir_entry name c ++ rest ≡ le_bytes 4 (length name) ++ (name ++ (encode (to_stat c) ++ rest))
dir_entry_append name c rest =
    ap (λ t. (le_bytes 4 (length name) ++ (name ++ t)) ++ rest) (encode_stat_lem c)
    ∙ append_assoc (le_bytes 4 (length name)) (name ++ encode (to_stat c)) rest
    ∙ ap (λ t. le_bytes 4 (length name) ++ t) (append_assoc name (encode (to_stat c)) rest)

dir_entry_long :
    (e : Bytes × CStat) (rest : Bytes) → 1 + length rest ≤ length (dir_entry e.0 e.1 ++ rest)
dir_entry_long e rest =
    let n = length e.0 in
    omega (
      arith,
      length-append (dir_entry e.0 e.1) rest,
      length-append (le_bytes 4 n) (e.0 ++ encode_stat e.1),
      length-le_bytes 4 n,
    )

module _ (lossy : Bytes → Bytes) where
  parse_entry-of_parts :
      (bytes name stat rest : Bytes) (n : ℕ) (s : Stat)
      → from_le (slice bytes 0 4) ≡ n
      → slice bytes 4 (4 + n) ≡ name
      → slice bytes (4 + n) (4 + n + 60) ≡ stat
      → drop (4 + n + 60) bytes ≡ rest
      → 4 + n + 60 ≤ length bytes
      → decode stat ≡ some s
      → parse_entry lossy bytes ≡ ok (record { name = lossy name; stat = s }, rest)
  unfolding parse_entry
  parse_entry-of_parts bytes name stat rest n s a b c d h k = ground arith

  parse_entry-raw :
      (name stat rest : Bytes) (s : Stat)
      → length name < 2 ^ 32
      → length stat ≡ 60
      → decode stat ≡ some s
      → parse_entry lossy (le_bytes 4 (length name) ++ (name ++ (stat ++ rest)))
        ≡ ok (record { name = lossy name; stat = s }, rest)
  parse_entry-raw name stat rest s h k d =
      let n = length name in
      let count = le_bytes 4 n in
      let four = length-le_bytes 4 n in
      let bytes = count ++ (name ++ (stat ++ rest)) in
      let head : length (count ++ name) ≡ 4 + n = omega (arith, length-append count name) in
      let split : bytes ≡ (count ++ name) ++ (stat ++ rest) =
        sym (append_assoc count name (stat ++ rest)) in
      parse_entry-of_parts bytes name stat rest n s
        (ap from_le (slice-append [] count (name ++ (stat ++ rest)) 0 4 refl four)
          ∙ from_le_u32 n h)
        (slice-append count name (stat ++ rest) 4 n four refl)
        (ap (λ t. slice t (4 + n) (4 + n + 60)) split
          ∙ slice-append (count ++ name) stat rest (4 + n) 60 head k)
        (ap (drop (4 + n + 60)) (split ∙ sym (append_assoc (count ++ name) stat rest))
          ∙ drop-append_at ((count ++ name) ++ stat) rest (4 + n + 60)
              (omega (arith, length-append (count ++ name) stat)))
        (omega (
          arith,
          length-append count (name ++ (stat ++ rest)),
          length-append name (stat ++ rest),
          length-append stat rest,
        ))
        d

  parse_entry-dir_entry :
      (e : Bytes × CStat) (rest : Bytes)
      → IsListable e
      → parse_entry lossy (dir_entry e.0 e.1 ++ rest) ≡ ok (to_entry lossy e, rest)
  parse_entry-dir_entry e rest l =
      let s = to_stat e.1 in
      ap (parse_entry lossy) (dir_entry_append e.0 e.1 rest)
      ∙ parse_entry-raw e.0 (encode s) rest s (omega (arith, l.short_name)) (length-encode s)
          (ap decode (sym (append-nil (encode s))) ∙ (decode-encode s [] l.in_range).1)

  parse_loop-step :
      (fuel : ℕ) (bytes rest : Bytes) (e : DirEntry) (es : List DirEntry)
      → 1 ≤ length bytes
      → parse_entry lossy bytes ≡ ok (e, rest)
      → parse_loop lossy fuel rest ≡ ok es
      → parse_loop lossy (suc fuel) bytes ≡ ok (e ∷ es)
  unfolding parse_loop
  parse_loop-step fuel [] rest e es h a b = absurd (omega (arith, h))
  parse_loop-step fuel (c ∷ cs) rest e es h a b = ground arith

  parse_loop-body_of :
      (fuel : ℕ) (es : List (Bytes × CStat))
      → AreListable es
      → length (body_of es) ≤ fuel
      → parse_loop lossy fuel (body_of es) ≡ ok (map (to_entry lossy) es)
  unfolding parse_loop
  parse_loop-body_of fuel [] l h = refl
  parse_loop-body_of zero (e ∷ es) l h = absurd (omega (arith, h, dir_entry_long e (body_of es)))
  parse_loop-body_of (suc fuel) (e ∷ es) l h =
      let long = dir_entry_long e (body_of es) in
      parse_loop-step fuel (dir_entry e.0 e.1 ++ body_of es) (body_of es) (to_entry lossy e)
        (map (to_entry lossy) es) (omega (arith, long)) (parse_entry-dir_entry e (body_of es) l.0)
        (parse_loop-body_of fuel es l.1 (omega (arith, h, long)))

  pub length-map_entry : (es : List (Bytes × CStat)) → length (map (to_entry lossy) es) ≡ length es
  length-map_entry [] = refl
  length-map_entry (e ∷ es) = ap suc (length-map_entry es)

  parse_dir_entries-of_loop :
      (bytes : Bytes) (es : List DirEntry) (n : ℕ)
      → parse_loop lossy (length bytes) bytes ≡ ok es
      → length es ≡ n
      → parse_dir_entries lossy bytes n ≡ ok es
  unfolding parse_dir_entries
  parse_dir_entries-of_loop bytes es n l k =
      let same : (length es == n) ≡ true = ap (λ m. m == n) k ∙ eq_self n in
      rw (l, parse_dir_entries, same) refl

  parse_dir_page-of_parts :
      (bytes body : Bytes) (es : List DirEntry) (n : ℕ)
      → from_le (slice bytes 0 4) ≡ n
      → drop 4 bytes ≡ body
      → 4 ≤ length bytes
      → parse_dir_entries lossy body n ≡ ok es
      → parse_dir_page lossy bytes ≡ ok es
  unfolding parse_dir_page
  parse_dir_page-of_parts bytes body es n a b h l = rw (a, b, parse_dir_page) (ground arith)

  -- A page of fewer than 2³² entries, whose names and numbers fit their fields, is read by the host as those
  -- entries: each name and each `stat`, in the order in which the device wrote them.
  pub parse_dir_page-body_of :
      (es : List (Bytes × CStat))
      → AreListable es
      → length es < 2 ^ 32
      → parse_dir_page lossy (le_bytes 4 (length es) ++ body_of es) ≡ ok (map (to_entry lossy) es)
  parse_dir_page-body_of es l h =
      let count = le_bytes 4 (length es) in
      let four = length-le_bytes 4 (length es) in
      parse_dir_page-of_parts (count ++ body_of es) (body_of es) (map (to_entry lossy) es)
        (length es)
        (ap from_le (slice-append [] count (body_of es) 0 4 refl four) ∙ from_le_u32 (length es) h)
        (drop-append_at count (body_of es) 4 four)
        (omega (arith, length-append count (body_of es), four))
        (parse_dir_entries-of_loop (body_of es) (map (to_entry lossy) es) (length es)
          (parse_loop-body_of (length (body_of es)) es l (omega arith)) (length-map_entry es))
