-- ===== src/Connection.antt =====
-- The multiplexed ADB connection: crates/adb-device/src/connection.rs.
--
-- `open_stream` makes two channels, one for data and one for the reply. Both are an Endpoint here,
-- and its number stands for the senders in the two maps. A step is what a task does between two
-- waits: a send that has to wait for a slot is taken when there is one.
pub mod Reader
pub mod Streams
pub mod Events
pub mod Reads
pub mod Numbered
pub mod Keeps
pub mod Isolation
pub mod Opens
pub mod Wire
mod Examples
use adbshare.Base.{
  ℕ, suc, ◌+◌, ◌%◌, ◌^◌, Bool, true, false, Option, none, some, List, [], ◌∷◌, ◌++◌, ◌==◌, ℕ_eq,
  if◌then◌else◌,
}
use adbshare.Base.Bytes.{Bytes}
use adbshare.Base.Assoc.{Assoc, lookup, remove, insert}
use adbshare.Packet.{Command, open_cmd, okay, close, write, Message}

pub record StreamId : Type 0 where
  pub local : ℕ
  pub remote : ℕ

-- The errors of `error.rs` that opening a stream returns.
pub data OpenError : Type 0 where
  disconnected timeout clse_on_open : OpenError
  refused_stream : ℕ → ℕ → OpenError
  refused_because : Bytes → OpenError

pub data Reply : Type 0 where
  opened_as : StreamId → Reply
  failed_with : OpenError → Reply

pub data WriteReq : Type 0 where
  frame : Message → WriteReq
  data_of : StreamId → Bytes → WriteReq

-- The receiving ends of one call of `open_stream`, and the `Stream` that it returns: `rx` is the
-- queue of the data channel, `rx_open` whether its receiver lives, `reply` what was sent over the
-- reply channel; `close_tx` is the sender still to be taken, `close_rx` what it sent.
pub record Endpoint : Type 0 where
  pub id : StreamId
  pub rx : List Bytes
  pub rx_open : Bool
  pub reply : Option Reply
  pub incoming : Option Bytes
  pub close_tx : Bool
  pub close_rx : Option StreamId

-- `opened` counts the endpoints made; `write_open` says whether the writer task lives.
pub record AdbConnection : Type 0 where
  pub next_local : ℕ
  pub streams : Assoc ℕ ℕ
  pub pending_opens : Assoc ℕ ℕ
  pub ends : ℕ → Endpoint
  pub opened : ℕ
  pub write_queue : List WriteReq
  pub write_open : Bool

abbrev pub no_end : Endpoint
no_end = record {
  id = record { local = 0; remote = 0 };
  rx = [];
  rx_open = false;
  reply = none;
  incoming = none;
  close_tx = false;
  close_rx = none;
}

-- `from_parts`
abbrev pub from_parts : AdbConnection
from_parts = record {
  next_local = 1;
  streams = [];
  pending_opens = [];
  ends = λ h. no_end;
  opened = 0;
  write_queue = [];
  write_open = true;
}

abbrev pub modify : ℕ → (Endpoint → Endpoint) → AdbConnection → AdbConnection
modify h f c = record c { ends = λ k. if h == k then f (c.ends k) else c.ends k }

-- `write_tx.send(req)`, and whether it succeeds.
unfoldable pub send_req : WriteReq → AdbConnection → AdbConnection × Bool
send_req req c =
    if c.write_open
    then (record c { write_queue = c.write_queue ++ (req ∷ []) }, true)
    else (c, false)

abbrev pub control : Command → ℕ → ℕ → Message
control command arg0 arg1 = record { command = command; arg0 = arg0; arg1 = arg1; payload = [] }
