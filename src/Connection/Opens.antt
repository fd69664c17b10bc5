-- ===== src/Connection/Opens.antt =====
-- The reader ends, and no `open_stream` waits for it any longer.
use adbshare.Base.{ℕ, ◌+◌, ◌≡◌, ◌⊎◌, Option, some, [], length, ℕ_eq}
use adbshare.Base.Bytes.{Bytes}
use adbshare.Base.Assoc.{Assoc, lookup}
use adbshare.Connection.{Reply, AdbConnection}
use adbshare.Connection.Reader.{Read, ended, skipped, message}

module _ (h : ℕ) where
  abbrev pub IsAnswered : AdbConnection → Type 0
  IsAnswered c = (r : Reply) × ((c.ends h).reply ≡ some r)

  abbrev pub Awaits : AdbConnection → Type 0
  Awaits c = ((l : ℕ) × (lookup l c.pending_opens ≡ some h)) ⊎ IsAnswered c

-- What is left of the input after a round.
abbrev left : Read → ℕ
left ended = 0
left (skipped rest) = length rest + 1
left (message m rest) = length rest + 1

abbrev pub Ends : AdbConnection → Option AdbConnection → Type 0
Ends c o =
    (c' : AdbConnection) × (o ≡ some c')
    × (c'.pending_opens ≡ [])
    × ((h : ℕ) → Awaits h c → IsAnswered h c')
