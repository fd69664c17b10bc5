-- ===== src/Proxy/Device/Dispatch/Truncated.antt =====
-- What `stat` and `lstat` make of a path with a NUL in it.
use adbshare.Base.{◌≡◌, refl, false, [], ◌∷◌, ◌++◌, arith, ℕ_eq}
use mathlib.Core.List.{append_assoc}
use adbshare.Base.Bytes.{Bytes}
use adbshare.Proxy.Device.{Libc, has_nul, c_str}
use adbshare.Proxy.Device.Paths.{do_stat, do_lstat}

c_str-append_nul : (p q : Bytes) → has_nul p ≡ false → c_str (p ++ (0 ∷ q)) ≡ p
c_str-append_nul [] q h = refl
c_str-append_nul (b ∷ p) q h = ground (arith, c_str-append_nul p q)

module _ (libc : Libc) where
  open libc use {World}

  -- `stat` and `lstat` terminate the declared bytes by hand, so a path with a NUL in it is answered for its
  -- part before the NUL, with that file's metadata and the same effect on the kernel.
  pub stat_nul :
      (p q : Bytes) (w : World)
      → has_nul p ≡ false
      → (do_stat libc (p ++ (0 ∷ q)) w ≡ do_stat libc p w)
        × (do_lstat libc (p ++ (0 ∷ q)) w ≡ do_lstat libc p w)
  unfolding do_stat do_lstat
  stat_nul p q w h =
      rw
        (
          append_assoc p (0 ∷ q) (0 ∷ []),
          c_str-append_nul p (q ++ (0 ∷ [])) h,
          c_str-append_nul p [] h,
        )
        (refl, refl)
