-- ===== src/Transfer/Operations.antt =====
-- The methods of `FileTransfer` in src/file_transfer.rs.
use marlin_binary_transfer.Common.{
  ℕ, Bool, true, false, Option, none, some, List, [], ◌∷◌, ◌++◌, Bytes, equal, if◌then◌else◌,
  Result, ok, err, Checked, done, assert, ◌>>=◌, ◌>>◌,
}
use marlin_binary_transfer.Text.{Str, codes, as_bytes, split_once, strip_prefix}
use marlin_binary_transfer.Session.State.{
  Event, synced, ack, resend_requested, ascii_line, fatal_error, out_of_sync, timeout, Session,
}
use marlin_binary_transfer.Session.State as SessionState
use marlin_binary_transfer.Session.Operations as SessionOps
use marlin_binary_transfer.Transfer.State.{
  Compression, uncompressed, heatshrink, auto, FileError, io_error, no_open_file, session_timeout,
  session_fatal_error, session_out_of_sync, protocol_violation, FileEvent, State, PendingAscii,
  query_version, query_failed, open_success, close_success, close_io_error, close_invalid,
  abort_success, FileTransfer, pt_query, pt_open, pt_close, pt_write, pt_abort, emit, fail,
}
use marlin_binary_transfer.Transfer.Compression.{choose_compression, parse_compression_spec}

-- `matches!(self.state, ..)`.
abbrev pub is_idle : State → Bool
is_idle State.idle = true
is_idle _ = false

abbrev pub is_negotiated : State → Bool
is_negotiated State.negotiated = true
is_negotiated _ = false

abbrev pub is_opened : State → Bool
is_opened State.opened = true
is_opened _ = false

-- `self.session.send(self.protocol_id, packet_type, payload, now)`.
unfoldable pub send : FileTransfer → (packet_type : ℕ) → Bytes → ℕ → Checked FileTransfer
send ft packet_type payload now = do
  session ← SessionOps.send ft.session ft.protocol_id packet_type payload now
  done (record ft { session = session })

unfoldable pub query : FileTransfer → Compression → ℕ → Checked FileTransfer
query ft compression now = do
  assert (is_idle ft.state)
  send (record ft { requested_compression = compression; state = State.awaiting_query_reply })
      pt_query [] now

abbrev pub comp_byte : Option Compression → ℕ
comp_byte (some (heatshrink window lookahead)) = 1
comp_byte (some uncompressed) = 0
comp_byte (some auto) = 0
comp_byte none = 0

-- The payload of OPEN.
unfoldable pub open_payload : Option Compression → Str → Bool → Bytes
open_payload compression name dummy =
    (if dummy then 1 else 0) ∷ (comp_byte compression ∷ (as_bytes name ++ 0 ∷ []))

unfoldable pub open_file : FileTransfer → Str → Bool → ℕ → Checked FileTransfer
open_file ft name dummy now = do
  assert (is_negotiated ft.state)
  send (record ft { state = State.awaiting_open_reply }) pt_open
      (open_payload ft.negotiated_compression name dummy) now

unfoldable pub write : FileTransfer → Bytes → ℕ → Checked FileTransfer
write ft chunk now = do
  assert (is_opened ft.state)
  send (record ft { state = State.awaiting_write_ack }) pt_write chunk now

unfoldable pub close : FileTransfer → ℕ → Checked FileTransfer
close ft now = do
  assert (is_opened ft.state)
  send (record ft { state = State.awaiting_close_reply }) pt_close [] now

unfoldable pub abort : FileTransfer → ℕ → Checked FileTransfer
abort ft now = do
  assert (is_opened ft.state)
  send (record ft { state = State.awaiting_abort_reply }) pt_abort [] now

unfoldable pub poll_outbound : FileTransfer → FileTransfer × Option Bytes
poll_outbound ft =
    let (session, bytes) = SessionState.poll_outbound ft.session in
    (record ft { session = session }, bytes)

unfoldable pub feed : FileTransfer → Bytes → ℕ → Checked FileTransfer
feed ft bytes now = do
  session ← SessionOps.feed ft.session bytes now
  done (record ft { session = session })

unfoldable pub tick : FileTransfer → ℕ → Checked FileTransfer
tick ft now = do session ← SessionOps.tick ft.session now; done (record ft { session = session })

-- What a `PFT:version:` line leaves pending.
abbrev pub pending_query : Str → Result Compression FileError → PendingAscii
pending_query version (ok chosen) = query_version version chosen
pending_query version (err error) = query_failed error

unfoldable pub version_fields : Option (Str × Str) → FileTransfer → FileTransfer
version_fields none ft = ft
version_fields (some (version, comp)) ft = record ft {
  advertised_version = some version;
  pending_ascii = some (
      pending_query version
        (choose_compression ft.requested_compression (parse_compression_spec comp)));
}

unfoldable pub version_line : State → Str → FileTransfer → FileTransfer
unfolding version_fields
version_line State.awaiting_query_reply rest ft = version_fields (split_once b':' rest) ft
version_line _ rest ft = ft

-- The arms of `match line.as_str()`, each with its gate on the state.
abbrev pub on_success : State → Option PendingAscii → Option PendingAscii
on_success State.awaiting_open_reply pending = some open_success
on_success State.awaiting_close_reply pending = some close_success
on_success State.awaiting_abort_reply pending = some abort_success
on_success _ pending = pending

abbrev pub on_open_reply : PendingAscii → State → Option PendingAscii → Option PendingAscii
on_open_reply reply State.awaiting_open_reply pending = some reply
on_open_reply reply _ pending = pending

abbrev pub on_close_reply : PendingAscii → State → Option PendingAscii → Option PendingAscii
on_close_reply reply State.awaiting_close_reply pending = some reply
on_close_reply reply _ pending = pending

unfoldable pub reply_line : Str → State → Option PendingAscii → Option PendingAscii
reply_line line state pending =
    if equal line (codes "PFT:success")
    then on_success state pending
    else if equal line (codes "PFT:busy")
    then on_open_reply PendingAscii.open_busy state pending
    else if equal line (codes "PFT:fail")
    then on_open_reply PendingAscii.open_fail state pending
    else if equal line (codes "PFT:ioerror")
    then on_close_reply close_io_error state pending
    else if equal line (codes "PFT:invalid")
    then on_close_reply close_invalid state pending
    else pending

unfoldable pub ascii_tail : Option Str → Str → FileTransfer → FileTransfer
unfolding reply_line version_line
ascii_tail (some rest) line ft = version_line ft.state rest ft
ascii_tail none line ft = record ft { pending_ascii = reply_line line ft.state ft.pending_ascii }

unfoldable pub handle_ascii_line : FileTransfer → Str → FileTransfer
unfolding ascii_tail
handle_ascii_line ft line = ascii_tail (strip_prefix line (codes "PFT:version:")) line ft

-- The arms of `handle_ack` on the state and the pending line, which is taken already.
unfoldable pub on_ack : State → Option PendingAscii → FileTransfer → FileTransfer
unfolding fail
on_ack State.awaiting_query_reply (some (query_version version compression)) ft =
    emit (record ft { negotiated_compression = some compression; state = State.negotiated })
      (FileEvent.negotiated version compression)
on_ack State.awaiting_query_reply (some (query_failed error)) ft = fail ft error
on_ack State.awaiting_query_reply none ft =
    fail ft (protocol_violation "AwaitingQueryReply" "PFT:version:<v>:<compression-spec>")
on_ack State.awaiting_open_reply (some open_success) ft =
    emit (record ft { state = State.opened }) FileEvent.opened
on_ack State.awaiting_open_reply (some PendingAscii.open_busy) ft = fail ft FileError.open_busy
on_ack State.awaiting_open_reply (some PendingAscii.open_fail) ft = fail ft FileError.open_fail
on_ack State.awaiting_open_reply none ft =
    fail ft (protocol_violation "AwaitingOpenReply" "PFT:success | PFT:busy | PFT:fail")
on_ack State.awaiting_write_ack none ft =
    emit (record ft { state = State.opened }) FileEvent.write_acked
on_ack State.awaiting_write_ack (some pending) ft =
    fail ft (protocol_violation "AwaitingWriteAck" "bare ok<n> (no PFT preamble)")
on_ack State.awaiting_close_reply (some close_success) ft =
    emit (record ft { state = State.closed }) FileEvent.closed
on_ack State.awaiting_close_reply (some close_io_error) ft = fail ft io_error
on_ack State.awaiting_close_reply (some close_invalid) ft = fail ft no_open_file
on_ack State.awaiting_close_reply none ft =
    fail ft (protocol_violation "AwaitingCloseReply" "PFT:success | PFT:ioerror | PFT:invalid")
on_ack State.awaiting_abort_reply (some abort_success) ft =
    emit (record ft { state = State.aborted }) FileEvent.abort_acked
on_ack State.awaiting_abort_reply none ft =
    fail ft (protocol_violation "AwaitingAbortReply" "PFT:success")
on_ack _ _ ft = ft

unfoldable pub handle_ack : FileTransfer → FileTransfer
unfolding on_ack
handle_ack ft = on_ack ft.state ft.pending_ascii (record ft { pending_ascii = none })

unfoldable pub handle_session_event : FileTransfer → Event → FileTransfer
unfolding handle_ascii_line handle_ack fail
handle_session_event ft (ascii_line line) = handle_ascii_line ft line
handle_session_event ft (ack n) = handle_ack ft
handle_session_event ft (synced max_block_size protocol_version) = ft
handle_session_event ft (resend_requested n) = ft
handle_session_event ft fatal_error = fail ft session_fatal_error
handle_session_event ft (out_of_sync expected got) = fail ft (session_out_of_sync expected got)
handle_session_event ft (timeout sync) = fail ft session_timeout

-- The loop of `poll`: `events` are those that the session holds. No handler adds one to them.
unfoldable pub drain_events : List Event → FileTransfer → FileTransfer
drain_events [] ft = ft
drain_events (event ∷ rest) ft =
    drain_events rest
      (handle_session_event (record ft { session = record (ft.session) { events = rest } }) event)

unfoldable pub pop_event : List FileEvent → FileTransfer → FileTransfer × Option FileEvent
pop_event [] ft = (ft, none)
pop_event (event ∷ rest) ft = (record ft { out_events = rest }, some event)

unfoldable pub poll : FileTransfer → FileTransfer × Option FileEvent
unfolding pop_event
poll ft = let drained = drain_events ft.session.events ft in pop_event drained.out_events drained
