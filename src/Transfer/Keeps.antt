-- ===== src/Transfer/Keeps.antt =====
-- The handlers of src/file_transfer.rs against the invariant of a transfer.
use marlin_binary_transfer.Common.{◌≡◌, refl, Option, none, some, List, [], ◌∷◌}
use marlin_binary_transfer.Text.{Str, split_once}
use marlin_binary_transfer.Session.State.{
  Event, synced, ack, resend_requested, ascii_line, fatal_error, out_of_sync, timeout, Session,
}
use marlin_binary_transfer.Transfer.State.{
  FileError, FileEvent, State, PendingAscii, query_version, query_failed, open_success,
  close_success, close_io_error, close_invalid, abort_success, FileTransfer, fail,
}
use marlin_binary_transfer.Transfer.Compression.{parse_compression_spec}
use marlin_binary_transfer.Transfer.Operations.{
  version_fields, version_line, ascii_tail, handle_ascii_line, on_ack, handle_ack,
  handle_session_event, drain_events,
}
use marlin_binary_transfer.Transfer.Invariant.{
  PendingFits, Negotiated, IsConsistent, choose_compression-IsResolved, pending_query-fits,
  fail-IsConsistent, failed-fits, emit-IsConsistent,
}
use marlin_binary_transfer.Transfer.Fits.{reply_line-fits}

cleared : (ft : FileTransfer) → IsConsistent ft → IsConsistent (record ft { pending_ascii = none })
cleared ft v = record { pending_fits = tt; negotiated = v.negotiated; events_fit = v.events_fit }

failing :
    (ft : FileTransfer) (error : FileError)
    → IsConsistent ft
    → IsConsistent (fail (record ft { pending_ascii = none }) error)
failing ft error v = fail-IsConsistent (record ft { pending_ascii = none }) error tt v.events_fit

on_ack-IsConsistent :
    (state : State) (pending : Option PendingAscii) (ft : FileTransfer)
    → PendingFits state pending
    → Negotiated state ft.negotiated_compression
    → IsConsistent ft
    → IsConsistent (on_ack state pending (record ft { pending_ascii = none }))
unfolding on_ack
on_ack-IsConsistent State.idle pending ft h n v = cleared ft v
on_ack-IsConsistent State.awaiting_query_reply none ft h n v = failing ft _ v
on_ack-IsConsistent State.awaiting_query_reply (some (query_version version compression)) ft h n v =
    emit-IsConsistent ft State.negotiated (FileEvent.negotiated version compression)
      (some compression) h v.events_fit h
on_ack-IsConsistent State.awaiting_query_reply (some (query_failed error)) ft h n v = failing ft _ v
on_ack-IsConsistent State.awaiting_query_reply (some open_success) ft h n v = absurd h
on_ack-IsConsistent State.awaiting_query_reply (some PendingAscii.open_busy) ft h n v = absurd h
on_ack-IsConsistent State.awaiting_query_reply (some PendingAscii.open_fail) ft h n v = absurd h
on_ack-IsConsistent State.awaiting_query_reply (some close_success) ft h n v = absurd h
on_ack-IsConsistent State.awaiting_query_reply (some close_io_error) ft h n v = absurd h
on_ack-IsConsistent State.awaiting_query_reply (some close_invalid) ft h n v = absurd h
on_ack-IsConsistent State.awaiting_query_reply (some abort_success) ft h n v = absurd h
on_ack-IsConsistent State.negotiated pending ft h n v = cleared ft v
on_ack-IsConsistent State.awaiting_open_reply none ft h n v = failing ft _ v
on_ack-IsConsistent State.awaiting_open_reply (some (query_version version compression)) ft h n v =
    absurd h
on_ack-IsConsistent State.awaiting_open_reply (some (query_failed error)) ft h n v = absurd h
on_ack-IsConsistent State.awaiting_open_reply (some open_success) ft h n v =
    emit-IsConsistent ft State.opened FileEvent.opened _ n v.events_fit tt
on_ack-IsConsistent State.awaiting_open_reply (some PendingAscii.open_busy) ft h n v =
    failing ft _ v
on_ack-IsConsistent State.awaiting_open_reply (some PendingAscii.open_fail) ft h n v =
    failing ft _ v
on_ack-IsConsistent State.awaiting_open_reply (some close_success) ft h n v = absurd h
on_ack-IsConsistent State.awaiting_open_reply (some close_io_error) ft h n v = absurd h
on_ack-IsConsistent State.awaiting_open_reply (some close_invalid) ft h n v = absurd h
on_ack-IsConsistent State.awaiting_open_reply (some abort_success) ft h n v = absurd h
on_ack-IsConsistent State.opened pending ft h n v = cleared ft v
on_ack-IsConsistent State.awaiting_write_ack none ft h n v =
    emit-IsConsistent ft State.opened FileEvent.write_acked _ n v.events_fit tt
on_ack-IsConsistent State.awaiting_write_ack (some pending) ft h n v = failing ft _ v
on_ack-IsConsistent State.awaiting_close_reply none ft h n v = failing ft _ v
on_ack-IsConsistent State.awaiting_close_reply (some (query_version version compression)) ft h n v =
    absurd h
on_ack-IsConsistent State.awaiting_close_reply (some (query_failed error)) ft h n v = absurd h
on_ack-IsConsistent State.awaiting_close_reply (some open_success) ft h n v = absurd h
on_ack-IsConsistent State.awaiting_close_reply (some PendingAscii.open_busy) ft h n v = absurd h
on_ack-IsConsistent State.awaiting_close_reply (some PendingAscii.open_fail) ft h n v = absurd h
on_ack-IsConsistent State.awaiting_close_reply (some close_success) ft h n v =
    emit-IsConsistent ft State.closed FileEvent.closed _ n v.events_fit tt
on_ack-IsConsistent State.awaiting_close_reply (some close_io_error) ft h n v = failing ft _ v
on_ack-IsConsistent State.awaiting_close_reply (some close_invalid) ft h n v = failing ft _ v
on_ack-IsConsistent State.awaiting_close_reply (some abort_success) ft h n v = absurd h
on_ack-IsConsistent State.closed pending ft h n v = cleared ft v
on_ack-IsConsistent State.awaiting_abort_reply none ft h n v = failing ft _ v
on_ack-IsConsistent State.awaiting_abort_reply (some (query_version version compression)) ft h n v =
    absurd h
on_ack-IsConsistent State.awaiting_abort_reply (some (query_failed error)) ft h n v = absurd h
on_ack-IsConsistent State.awaiting_abort_reply (some open_success) ft h n v = absurd h
on_ack-IsConsistent State.awaiting_abort_reply (some PendingAscii.open_busy) ft h n v = absurd h
on_ack-IsConsistent State.awaiting_abort_reply (some PendingAscii.open_fail) ft h n v = absurd h
on_ack-IsConsistent State.awaiting_abort_reply (some close_success) ft h n v = absurd h
on_ack-IsConsistent State.awaiting_abort_reply (some close_io_error) ft h n v = absurd h
on_ack-IsConsistent State.awaiting_abort_reply (some close_invalid) ft h n v = absurd h
on_ack-IsConsistent State.awaiting_abort_reply (some abort_success) ft h n v =
    emit-IsConsistent ft State.aborted FileEvent.abort_acked _ n v.events_fit tt
on_ack-IsConsistent State.aborted pending ft h n v = cleared ft v
on_ack-IsConsistent State.failed pending ft h n v = cleared ft v

version_fields-IsConsistent :
    (fields : Option (Str × Str)) (ft : FileTransfer)
    → ft.state ≡ State.awaiting_query_reply
    → IsConsistent ft
    → IsConsistent (version_fields fields ft)
unfolding version_fields
version_fields-IsConsistent none ft e v = v
version_fields-IsConsistent (some (version, comp)) ft e v = record {
  pending_fits = rw e (
      pending_query-fits version _
        (choose_compression-IsResolved ft.requested_compression (parse_compression_spec comp)));
  negotiated = v.negotiated;
  events_fit = v.events_fit;
}

version_line-IsConsistent :
    (state : State) (rest : Str) (ft : FileTransfer)
    → ft.state ≡ state
    → IsConsistent ft
    → IsConsistent (version_line state rest ft)
unfolding version_line
version_line-IsConsistent State.awaiting_query_reply rest ft e v =
    version_fields-IsConsistent (split_once b':' rest) ft e v
version_line-IsConsistent State.idle rest ft e v = v
version_line-IsConsistent State.negotiated rest ft e v = v
version_line-IsConsistent State.awaiting_open_reply rest ft e v = v
version_line-IsConsistent State.opened rest ft e v = v
version_line-IsConsistent State.awaiting_write_ack rest ft e v = v
version_line-IsConsistent State.awaiting_close_reply rest ft e v = v
version_line-IsConsistent State.closed rest ft e v = v
version_line-IsConsistent State.awaiting_abort_reply rest ft e v = v
version_line-IsConsistent State.aborted rest ft e v = v
version_line-IsConsistent State.failed rest ft e v = v

ascii_tail-IsConsistent :
    (tail : Option Str) (line : Str) (ft : FileTransfer)
    → IsConsistent ft
    → IsConsistent (ascii_tail tail line ft)
unfolding ascii_tail
ascii_tail-IsConsistent (some rest) line ft v = version_line-IsConsistent ft.state rest ft refl v
ascii_tail-IsConsistent none line ft v = record {
  pending_fits = reply_line-fits line ft.state ft.pending_ascii v.pending_fits;
  negotiated = v.negotiated;
  events_fit = v.events_fit;
}

pub handle_session_event-IsConsistent :
    (event : Event) (ft : FileTransfer)
    → IsConsistent ft
    → IsConsistent (handle_session_event ft event)
unfolding handle_session_event handle_ascii_line handle_ack
handle_session_event-IsConsistent (ascii_line line) ft v = ascii_tail-IsConsistent _ line ft v
handle_session_event-IsConsistent (ack n) ft v =
    on_ack-IsConsistent ft.state ft.pending_ascii ft v.pending_fits v.negotiated v
handle_session_event-IsConsistent (synced max_block_size protocol_version) ft v = v
handle_session_event-IsConsistent (resend_requested n) ft v = v
handle_session_event-IsConsistent fatal_error ft v =
    fail-IsConsistent ft _ (failed-fits ft.pending_ascii) v.events_fit
handle_session_event-IsConsistent (out_of_sync expected got) ft v =
    fail-IsConsistent ft _ (failed-fits ft.pending_ascii) v.events_fit
handle_session_event-IsConsistent (timeout sync) ft v =
    fail-IsConsistent ft _ (failed-fits ft.pending_ascii) v.events_fit

pub with_session-IsConsistent :
    (session : Session) (ft : FileTransfer)
    → IsConsistent ft
    → IsConsistent (record ft { session = session })
with_session-IsConsistent session ft v = record {
  pending_fits = v.pending_fits;
  negotiated = v.negotiated;
  events_fit = v.events_fit;
}

pub drain_events-IsConsistent :
    (events : List Event) (ft : FileTransfer)
    → IsConsistent ft
    → IsConsistent (drain_events events ft)
unfolding drain_events
drain_events-IsConsistent [] ft v = v
drain_events-IsConsistent (event ∷ rest) ft v =
    drain_events-IsConsistent rest _
      (handle_session_event-IsConsistent event _ (with_session-IsConsistent _ ft v))
