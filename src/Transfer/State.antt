-- ===== src/Transfer/State.antt =====
-- The types of src/file_transfer.rs. The borrowed session is a field.
use Prim.Native.String.{String}
use marlin_binary_transfer.Common.{ℕ, ◌++◌, Option, none, List, [], ◌∷◌}
use marlin_binary_transfer.Text.{Str}
use marlin_binary_transfer.Session.State.{Session}

pub data Compression : Type 0 where
  uncompressed : Compression  -- `Compression::None`
  heatshrink : (window lookahead : ℕ) → Compression
  auto : Compression

pub data FileError : Type 0 where
  open_busy open_fail io_error no_open_file session_timeout session_fatal_error : FileError
  session_out_of_sync : (expected got : ℕ) → FileError
  compression_unsupported : FileError
  protocol_violation : (state expected : String) → FileError

pub data FileEvent : Type 0 where
  negotiated : (version : Str) (compression : Compression) → FileEvent
  opened write_acked closed abort_acked : FileEvent
  failed : FileError → FileEvent

pub data State : Type 0 where
  idle awaiting_query_reply negotiated awaiting_open_reply opened awaiting_write_ack : State
  awaiting_close_reply closed awaiting_abort_reply aborted failed : State

pub data PendingAscii : Type 0 where
  query_version : (version : Str) (compression : Compression) → PendingAscii
  query_failed : FileError → PendingAscii
  open_success open_busy open_fail close_success close_io_error close_invalid : PendingAscii
  abort_success : PendingAscii

pub record FileTransfer : Type 0 where
  pub session : Session
  pub state : State
  pub requested_compression : Compression
  pub negotiated_compression : Option Compression  -- `negotiated`
  pub advertised_version : Option Str
  pub pending_ascii : Option PendingAscii
  pub out_events : List FileEvent
  pub protocol_id : ℕ

abbrev pub protocol_file_transfer : ℕ
protocol_file_transfer = 1

abbrev pub pt_query : ℕ
pt_query = 0

abbrev pub pt_open : ℕ
pt_open = 1

abbrev pub pt_close : ℕ
pt_close = 2

abbrev pub pt_write : ℕ
pt_write = 3

abbrev pub pt_abort : ℕ
pt_abort = 4

-- `FileTransfer::new`.
abbrev pub new : Session → FileTransfer
new session = record {
  session = session;
  state = State.idle;
  requested_compression = uncompressed;
  negotiated_compression = none;
  advertised_version = none;
  pending_ascii = none;
  out_events = [];
  protocol_id = protocol_file_transfer;
}

-- `self.out_events.push_back(event)`.
abbrev pub emit : FileTransfer → FileEvent → FileTransfer
emit ft event = record ft { out_events = ft.out_events ++ event ∷ [] }

unfoldable pub fail : FileTransfer → FileError → FileTransfer
fail ft error = emit (record ft { state = State.failed }) (FileEvent.failed error)
