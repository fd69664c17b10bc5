-- ===== src/Connection/Examples.antt =====
-- A connection with one open stream, and the properties at it.
use adbshare.Base.{ℕ, ◌≡◌, inr, refl, true, some, List, [], ◌∷◌, ◌++◌, ℕ_eq, arith}
use adbshare.Base.Bytes.{Bytes}
use adbshare.Base.Assoc.{lookup, insert, remove, retain}
use adbshare.Packet.{okay, write, Message}
use adbshare.Connection.{send_req, WriteReq, frame, AdbConnection, from_parts, no_end, control}
use adbshare.Connection.Reader.{handle_message, reader, resolve, frame_of}
use adbshare.Connection.Streams.{
  register, has_sender, shutdown, close_task, poll_end, filled, poll_read, finish_open, start_open,
}
use adbshare.Connection.Events.{
  Event, receives, opens, wakes, reads, shuts, closes, step, run, taken, unread, addressed,
}
use adbshare.Connection.Numbered.{IsNumbered}
use adbshare.Connection.Numbered.Steps.{run-from_parts-IsNumbered}
use adbshare.Connection.Isolation.{IsOpen, taken-addressed}
use adbshare.Connection.Wire.{
  AllSendable, written, handle_each, reader-written, AreCuts, write_all, write_all-AreCuts,
}

abbrev wrte : ℕ → Bytes → Message
wrte local payload = record (control write 9 local) { payload = payload }

-- Two streams are opened, the second gets data before its reply, and the first is read.
abbrev opening : List Event
opening = opens (115 ∷ []) ∷ opens (116 ∷ []) ∷ receives (control okay 7 2) ∷ wakes 0 ∷ []

abbrev two_open : AdbConnection
two_open = run from_parts opening

abbrev traffic : List Event
traffic =
    receives (wrte 3 (1 ∷ 2 ∷ 3 ∷ []))
    ∷ receives (wrte 2 (8 ∷ []))
    ∷ receives (control okay 9 3)
    ∷ wakes 1
    ∷ reads 1 2
    ∷ shuts 0
    ∷ closes 0
    ∷ receives (wrte 3 (4 ∷ []))
    ∷ reads 1 9
    ∷ []

gets_its_own : taken 1 two_open traffic ≡ 1 ∷ 2 ∷ 3 ∷ []
unfolding taken run step start_open register send_req handle_message resolve lookup insert remove
    retain finish_open poll_read poll_end has_sender shutdown close_task
gets_its_own = refl

run-from_parts-IsNumbered_example : IsNumbered two_open
run-from_parts-IsNumbered_example = run-from_parts-IsNumbered opening (
    unfold run step start_open register send_req handle_message resolve lookup insert remove retain
      finish_open poll_read poll_end has_sender shutdown close_task in
    (omega arith, (omega arith, (tt, (tt, tt)))))

two_open-IsOpen : IsOpen 1 two_open
unfolding run step start_open register send_req handle_message resolve lookup insert remove retain
    finish_open poll_read poll_end has_sender shutdown close_task
two_open-IsOpen = record { entered = refl; receiving = refl }

taken-addressed_example :
    taken 1 two_open traffic ++ unread ((run two_open traffic).ends 1)
    ≡ unread (two_open.ends 1) ++ addressed 3 traffic
taken-addressed_example =
    taken-addressed 1 two_open traffic run-from_parts-IsNumbered_example two_open-IsOpen (
      unfold run step start_open register send_req handle_message resolve lookup insert remove
        retain finish_open poll_read poll_end has_sender shutdown close_task in
      (
        tt,
        (
          tt,
          (
            tt,
            (
              inr (refl, (record { local = 3; remote = 9 }, refl)),
              (tt, (tt, (λ p. ground arith, (tt, (tt, tt))))),
            ),
          ),
        ),
      ))

abbrev two_writes : List WriteReq
two_writes = frame (wrte 3 (5 ∷ [])) ∷ frame (wrte 2 (6 ∷ [])) ∷ []

two_writes-AllSendable : AllSendable two_writes
unfolding frame_of
two_writes-AllSendable = (
  record { fits0 = omega arith; fits1 = omega arith; short = omega arith },
  (record { fits0 = omega arith; fits1 = omega arith; short = omega arith }, tt),
)

reader-written_example :
    reader 3 (written two_writes) two_open ≡ some (handle_each two_writes two_open)
reader-written_example = reader-written two_writes 3 two_open two_writes-AllSendable (omega arith)

write_all-AreCuts_example :
    (c' : AdbConnection) × (write_all 0 2 (5 ∷ 6 ∷ []) two_open ≡ some c')
    × (rs : List WriteReq) × (c'.write_queue ≡ two_open.write_queue ++ rs)
    × AreCuts (two_open.ends 0).id (5 ∷ 6 ∷ []) rs
write_all-AreCuts_example =
    write_all-AreCuts 0 2 (5 ∷ 6 ∷ []) two_open
      (unfold run step start_open register send_req handle_message resolve lookup insert remove
          retain finish_open poll_read poll_end has_sender shutdown close_task in
        refl)
      (unfold run step start_open register send_req handle_message resolve lookup insert remove
          retain finish_open poll_read poll_end has_sender shutdown close_task in
        omega arith)
      (unfold run step start_open register send_req handle_message resolve lookup insert remove
          retain finish_open poll_read poll_end has_sender shutdown close_task in
        omega arith)
      (omega arith)

-- An empty chunk fills nothing while the channel still has its sender: the caller of `poll_read`
-- takes that for the end of the stream.
empty_chunk_reads_as_end :
    poll_end 9 true (record no_end { rx = [] ∷ (1 ∷ []) ∷ [] })
    ≡ (record no_end { rx = (1 ∷ []) ∷ [] }, filled [])
unfolding poll_end
empty_chunk_reads_as_end = refl
