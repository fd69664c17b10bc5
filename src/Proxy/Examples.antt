-- ===== src/Proxy/Examples.antt =====
-- Runs of the proxy on concrete requests.
use mathlib.Core.List.{append-nil}
use adbshare.Base.{
  ℕ, ◌+◌, ◌-◌, ◌*◌, ◌^◌, ◌≡◌, min, refl, inr, list_eq, ℕ_eq, ◌==◌, if◌then◌else◌, none, some, List,
  [], ◌∷◌, ◌++◌, map, get_or, take, drop, arith,
}
use adbshare.Base.Bytes.{Bytes, le_bytes, from_le, slice}
use adbshare.Proxy.Ops.{unlink, rename, read, write, op_code, from_u8, Stat, decode}
use adbshare.Proxy.Ops.Codec.{InRange}
use adbshare.Proxy.Device.{CStat, read_path, cstring, codes, max_request, max_response, encode_stat}
use adbshare.Proxy.Device.Files.{read_reply, write_reply}
use adbshare.Proxy.Device.Paths.{do_stat, do_lstat, handle_stat, handle_mkdir}
use adbshare.Proxy.Device.Listing.{do_listdir, handle_listdir}
use adbshare.Proxy.Device.Dispatch.{answer, dispatch}
use adbshare.Proxy.Device.Dispatch.Framed.{IsFrame, dispatch-IsFrame}
use adbshare.Proxy.Device.Dispatch.Owned.{TableStep, dispatch-TableStep}
use adbshare.Proxy.Device.Dispatch.Malformed.{answer_nul}
use adbshare.Proxy.Device.Dispatch.Misframed.{Misframed, second, args_in, answer_misframed}
use adbshare.Proxy.Device.Dispatch.Truncated.{stat_nul}
use adbshare.Proxy.Device.Mock.{quiet, partial, stat_7}
use adbshare.Proxy.Framing.{Frame, start, read_chunks, on_chunk, take_frames, cut_frame}
use adbshare.Proxy.Framing.Chunks.{read_chunks-joined}
use adbshare.Proxy.Framing.Sent.{wire_of, AreSendable, read_chunks-wire_of}
use adbshare.Proxy.Client.{
  ok, request_bytes, listdir_args, read_args, write_args, disk_usage, read_response,
}
use adbshare.Proxy.Client.Reaches.{
  makes, op_of, args_of, IsPath, asked, answer-args_of, answer-read_write,
}
use adbshare.Proxy.Client.Payloads.{usage_bytes, disk_usage-usage_bytes}
use adbshare.Proxy.Serve.{handle_connection}
use adbshare.Proxy.Serve.RoundTrip.{replies, handle_connection-replies}
use adbshare.Proxy.Listing.{parse_dir_page, parse_dir_entries, list_pages}
use adbshare.Proxy.Listing.Entries.{to_stat, to_entry, IsListable, AreListable}
use adbshare.Proxy.Listing.Request.{fetch_page}

seven : Stat
seven = to_stat stat_7

seven-InRange : InRange (to_stat stat_7)
seven-InRange = record {
  mode = omega arith;
  size = omega arith;
  mtime = omega arith;
  atime = omega arith;
  ctime = omega arith;
  uid = omega arith;
  gid = omega arith;
  nlink = omega arith;
  blksize = omega arith;
  blocks = omega arith;
}

-- `/d`, as a path and as arguments.
abbrev dir : Bytes
dir = codes "/d"

abbrev file : Bytes
file = codes "/d/a"

abbrev dir_args : Bytes
dir_args = le_bytes 4 2 ++ codes "/d"

dispatch-IsFrame_example : IsFrame quiet (dispatch quiet 0x0F dir_args 1 [] 0).0
unfolding answer handle_stat do_lstat read_path encode_stat le_bytes from_le slice
dispatch-IsFrame_example = dispatch-IsFrame quiet 0x0F dir_args 1 [] 0 (omega arith)

dispatch-TableStep_example :
    TableStep 0x02 1
      (le_bytes 4 10)
      (answer quiet 0x02 (le_bytes 4 10) 1 ((10, 1) ∷ []) 0).0
      ((10, 1) ∷ [])
      (dispatch quiet 0x02 (le_bytes 4 10) 1 ((10, 1) ∷ []) 0).2
dispatch-TableStep_example = dispatch-TableStep quiet 0x02 (le_bytes 4 10) 1 ((10, 1) ∷ []) 0

-- A `rename` whose second path is declared as five bytes, of which two are there.
abbrev cut_rename : Misframed
cut_rename = second rename (codes "/d") 5 (codes "/e")

answer_misframed_example :
    (get_or (answer quiet (op_code rename) (args_in cut_rename) 1 [] 0).0 0 0 ≡ 0x08)
    × ((answer quiet (op_code rename) (args_in cut_rename) 1 [] 0).1 ≡ 0)
    × ((answer quiet (op_code rename) (args_in cut_rename) 1 [] 0).2 ≡ [])
answer_misframed_example =
    answer_misframed quiet 1 [] cut_rename 0 (tt, omega arith, omega arith, inr (omega arith))

answer_nul_example :
    (get_or (answer quiet (op_code unlink) (le_bytes 4 3 ++ (97 ∷ 0 ∷ 98 ∷ [])) 1 [] 0).0 0 0
      ≡ 0x08)
    × ((answer quiet (op_code unlink) (le_bytes 4 3 ++ (97 ∷ 0 ∷ 98 ∷ [])) 1 [] 0).1 ≡ 0)
    × ((answer quiet (op_code unlink) (le_bytes 4 3 ++ (97 ∷ 0 ∷ 98 ∷ [])) 1 [] 0).2 ≡ [])
unfolding read_path le_bytes from_le slice
answer_nul_example =
    answer_nul quiet (le_bytes 4 3 ++ (97 ∷ 0 ∷ 98 ∷ [])) 1 [] unlink (97 ∷ 0 ∷ 98 ∷ []) [] 0 tt
      refl refl

stat_nul_example :
    (do_stat quiet (codes "/d/a" ++ (0 ∷ codes "x")) 0 ≡ do_stat quiet (codes "/d/a") 0)
    × (do_lstat quiet (codes "/d/a" ++ (0 ∷ codes "x")) 0 ≡ do_lstat quiet (codes "/d/a") 0)
stat_nul_example = stat_nul quiet (codes "/d/a") (codes "x") 0 refl

disk_usage-usage_bytes_example :
    disk_usage (usage_bytes 5 (2 ^ 63) 4096)
    ≡ ok (record {
      avail_bytes = min (5 * 4096) (2 ^ 64 - 1);
      total_bytes = min (2 ^ 63 * 4096) (2 ^ 64 - 1);
    })
disk_usage-usage_bytes_example =
    disk_usage-usage_bytes 5 (2 ^ 63) 4096 (omega arith) (omega arith) (omega arith)

dir-IsPath : IsPath (codes "/d")
dir-IsPath = record { fits = omega arith; clean = refl }

answer-args_of_example :
    answer quiet
      (op_code (op_of (makes (codes "/d") 0o755)))
      (args_of (makes (codes "/d") 0o755))
      1
      []
      0
    ≡ (
      (asked quiet (makes (codes "/d") 0o755) 0).0,
      (asked quiet (makes (codes "/d") 0o755) 0).1,
      [],
    )
answer-args_of_example =
    answer-args_of quiet (makes (codes "/d") 0o755) 1 [] 0 (dir-IsPath, omega arith)

answer-read_write_example :
    (answer quiet (op_code read) (read_args 10 4 2) 1 [] 0 ≡ (
      (read_reply quiet (quiet.pread 10 2 4 0)).0,
      (read_reply quiet (quiet.pread 10 2 4 0)).1,
      [],
    ))
    × (answer quiet (op_code write) (write_args 10 4 (7 ∷ 8 ∷ [])) 1 [] 0 ≡ (
      (write_reply quiet 2 (quiet.pwrite 10 (7 ∷ 8 ∷ []) 4 0)).0,
      (write_reply quiet 2 (quiet.pwrite 10 (7 ∷ 8 ∷ []) 4 0)).1,
      [],
    ))
answer-read_write_example =
    answer-read_write quiet 10 4 2 (7 ∷ 8 ∷ []) 1 [] 0 (omega arith) (omega arith) (omega arith)
      (omega arith)

-- Two requests: make `/d`, and `stat` a path that is cut short.
abbrev requests : List Frame
requests =
    record { head = 0x07 ∷ []; body = le_bytes 4 2 ++ (codes "/d" ++ le_bytes 4 493) }
    ∷ record { head = 0x05 ∷ []; body = 9 ∷ [] }
    ∷ []

requests-AreSendable : AreSendable 1 max_request requests
unfolding le_bytes
requests-AreSendable = ((refl, omega arith), ((refl, omega arith), tt))

read_chunks-joined_example :
    read_chunks 1 max_request start ((7 ∷ 1 ∷ []) ∷ (0 ∷ 0 ∷ 0 ∷ 5 ∷ 9 ∷ []) ∷ [])
    ≡ on_chunk 1 max_request start (7 ∷ 1 ∷ 0 ∷ 0 ∷ 0 ∷ 5 ∷ 9 ∷ [])
read_chunks-joined_example =
    read_chunks-joined 1 max_request ((7 ∷ 1 ∷ []) ∷ (0 ∷ 0 ∷ 0 ∷ 5 ∷ 9 ∷ []) ∷ [])

read_chunks-wire_of_example :
    read_chunks 1 max_request start (take 3 (wire_of requests) ∷ drop 3 (wire_of requests) ∷ [])
    ≡ record { frames = requests; buf = []; refused = none }
unfolding le_bytes
read_chunks-wire_of_example =
    read_chunks-wire_of 1 max_request (omega arith) requests
      (take 3 (wire_of requests) ∷ drop 3 (wire_of requests) ∷ []) requests-AreSendable refl

handle_connection-replies_example :
    read_chunks 0
      (max_response + 1)
      start
      ((handle_connection quiet (λ n. []) 1 (wire_of requests ∷ []) [] 0).0 ∷ [])
    ≡ record { frames = replies quiet (λ n. []) 1 requests [] 0; buf = []; refused = none }
unfolding le_bytes from_le slice answer handle_mkdir handle_stat read_path cstring
handle_connection-replies_example =
    handle_connection-replies quiet (λ n. []) 1 requests (wire_of requests ∷ [])
      ((handle_connection quiet (λ n. []) 1 (wire_of requests ∷ []) [] 0).0 ∷ []) [] 0
      requests-AreSendable refl ((refl, omega arith), ((refl, omega arith), tt))
      (append-nil (handle_connection quiet (λ n. []) 1 (wire_of requests ∷ []) [] 0).0)

abbrev two : List (Bytes × CStat)
two = (codes "a", stat_7) ∷ (codes "b", stat_7) ∷ []

short-IsListable : (b : ℕ) → IsListable (b ∷ [], stat_7)
short-IsListable b = record { short_name = omega arith; in_range = seven-InRange }

two-AreListable : AreListable two
two-AreListable = (short-IsListable 97, (short-IsListable 98, tt))

abbrev names : List Bytes
names = codes "." ∷ codes "a" ∷ codes "b" ∷ codes "c" ∷ []

-- A decoding that can be told from none.
abbrev upper : Bytes → Bytes
upper bs = if bs == codes "a" then codes "A" else if bs == codes "b" then codes "B" else codes "C"

-- With an entry that `lstat` does not find before it, an entry at the end of a page is listed twice. The
-- pages have one entry here.
repeated :
    list_pages 5 1 (fetch_page partial (λ n. []) 1 upper (codes "/d") 1) 0 ([], 0)
    ≡ some (
      ok (
          map
            (to_entry upper)
            ((codes "b", stat_7) ∷ (codes "b", stat_7) ∷ (codes "c", stat_7) ∷ [])),
      ([], 0),
    )
unfolding list_pages fetch_page request_bytes listdir_args op_code handle_connection read_chunks
    answer handle_listdir read_path do_listdir parse_dir_page parse_dir_entries read_response
    le_bytes from_le slice decode encode_stat from_u8 on_chunk take_frames cut_frame dispatch
repeated = refl
