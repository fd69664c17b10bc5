-- ===== src/Proxy/Listing.antt =====
-- Whole directories over pages: `listdir`, `parse_dir_page` and `parse_dir_entries` of
-- crates/adb-proxy/src/client.rs, against `do_listdir` of crates/adbshare-proxy-device/src/main.rs.
--
-- A `String` is its bytes, and `lossy` is `String::from_utf8_lossy`.
pub mod Entries
pub mod Rounds
pub mod Window
pub mod Pages
pub mod Request
use adbshare.Base.{
  ℕ, zero, suc, ◌+◌, ◌%◌, ◌^◌, String, ltb, not, true, false, Option, none, some, List, [], ◌∷◌,
  ◌++◌, length, drop, ◌==◌, ℕ_eq, if◌then◌else◌,
}
use adbshare.Base.Bytes.{Bytes, from_le, slice}
use adbshare.Proxy.Ops.{Stat, decode}
use adbshare.Proxy.Client.{Result, ok, err, invalid, ◌>>=◌, ProxyError}

pub record DirEntry : Type 0 where
  pub name : Bytes
  pub stat : Stat

abbrev with_stat : Bytes → Option Stat → Result DirEntry
with_stat name none = err (invalid "dir entry stat")
with_stat name (some st) = ok (record { name = name; stat = st })

module _ (lossy : Bytes → Bytes) where
  -- One round of the loop of `parse_dir_entries`, at the rest of the buffer.
  unfoldable pub parse_entry : Bytes → Result (DirEntry × Bytes)
  parse_entry rest =
      let name_len = from_le (slice rest 0 4) in
      if ltb (length rest) 4
      then err (invalid "dir entry name len")
      else if ltb (length rest) (4 + name_len + 60)
      then err (invalid "dir entry payload")
      else do
        entry ←
            with_stat (lossy (slice rest 4 (4 + name_len)))
              (decode (slice rest (4 + name_len) (4 + name_len + 60)))
        ok (entry, drop (4 + name_len + 60) rest)

  -- The loop. Each round consumes bytes, so their number is fuel enough.
  unfoldable pub parse_loop : ℕ → Bytes → Result (List DirEntry)
  unfolding parse_entry
  parse_loop fuel [] = ok []
  parse_loop zero (b ∷ bs) = err (invalid "out of fuel")
  parse_loop (suc fuel) (b ∷ bs) = do
    (entry, rest) ← parse_entry (b ∷ bs)
    entries ← parse_loop fuel rest
    ok (entry ∷ entries)

  unfoldable pub parse_dir_entries : Bytes → ℕ → Result (List DirEntry)
  unfolding parse_loop
  parse_dir_entries bytes expect = do
    entries ← parse_loop (length bytes) bytes
    if not (length entries == expect) then err (invalid "listdir page") else ok entries

  unfoldable pub parse_dir_page : Bytes → Result (List DirEntry)
  unfolding parse_dir_entries
  parse_dir_page bytes =
      if ltb (length bytes) 4
      then err (invalid "listdir count")
      else parse_dir_entries (drop 4 bytes) (from_le (slice bytes 0 4))

-- `LISTDIR_PAGE` of the host.
abbrev pub page_entries : ℕ
page_entries = 16384

module _ {ℓ} {S : Type ℓ} where
  -- `all.extend(page)`, once the later pages are there.
  abbrev pub extend :
      List DirEntry → Option (Result (List DirEntry) × S) → Option (Result (List DirEntry) × S)
  extend got none = none
  extend got (some (err e, s)) = some (err e, s)
  extend got (some (ok later, s)) = some (ok (got ++ later), s)

  -- The loop of `listdir`, over a function that fetches the page at an offset. `none` is the fuel that
  -- ran out. The offset and the number of entries are `u32`s.
  unfoldable pub list_pages :
      ℕ → ℕ → (ℕ → S → Result (List DirEntry) × S) → ℕ → S → Option (Result (List DirEntry) × S)
  list_pages zero page fetch offset s = none
  list_pages (suc fuel) page fetch offset s =
      let s' = (fetch offset s).1 in
      elim (fetch offset s).0 [
        | err e ↦ some (err e, s')
        | ok got ↦ elim (ltb (length got % 2 ^ 32) page) [
          | true ↦ some (ok got, s')
          | false ↦
              extend got (list_pages fuel page fetch ((offset + length got % 2 ^ 32) % 2 ^ 32) s')
        ]
      ]
