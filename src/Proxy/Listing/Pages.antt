-- ===== src/Proxy/Listing/Pages.antt =====
-- All pages: `listdir` of the host against `do_listdir` of the device.
use adbshare.Base.{ℕ, ◌^◌, ◌<◌, ◌≡◌, List, ◌∷◌, ◌++◌, map, length, drop, take}
use adbshare.Base.Bytes.{Bytes, le_bytes}
use adbshare.Proxy.Device.{CStat}
use adbshare.Proxy.Client.{Result, ok}
use adbshare.Proxy.Listing.{DirEntry}
use adbshare.Proxy.Listing.Entries.{to_entry, body_of}

module _ (lossy : Bytes → Bytes) where
  module _ {S : Type 0} where
    -- What a fetch of pages does, at whichever offset that fits its field.
    abbrev Serves : ℕ → List (Bytes × CStat) → (ℕ → S → Result (List DirEntry) × S) → S → Type 0
    Serves page es fetch s =
        (k : ℕ) → k < 2 ^ 32 → fetch k s ≡ (ok (map (to_entry lossy) (take page (drop k es))), s)

-- The reply to a request for a page.
abbrev page_of : List (Bytes × CStat) → Bytes
page_of es = 0 ∷ (le_bytes 4 (length es) ++ body_of es)
