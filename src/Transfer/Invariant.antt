-- ===== src/Transfer/Invariant.antt =====
-- The invariant of the state machine of src/file_transfer.rs between two session events.
use marlin_binary_transfer.Common.{Option, none, some, All, All-append, Result, ok, err}
use marlin_binary_transfer.Text.{Str}
use marlin_binary_transfer.Session.State.{Session}
use marlin_binary_transfer.Transfer.State.{
  Compression, uncompressed, heatshrink, auto, FileError, FileEvent, State, PendingAscii,
  query_version, query_failed, open_success, close_success, close_io_error, close_invalid,
  abort_success, FileTransfer, new, emit, fail,
}
use marlin_binary_transfer.Transfer.Compression.{choose_compression}
use marlin_binary_transfer.Transfer.Operations.{pending_query}

-- A compression that a transfer can use.
abbrev pub IsResolved : Compression → Type 0
IsResolved auto = ⊥
IsResolved uncompressed = Unit
IsResolved (heatshrink window lookahead) = Unit

-- The pending lines that each state can hold. Only a state that awaits a reply holds one, and only
-- a reply that it awaits; what a failure leaves behind is never read.
abbrev pub PendingFits : State → Option PendingAscii → Type 0
PendingFits state none = Unit
PendingFits State.awaiting_query_reply (some (query_version version compression)) =
    IsResolved compression
PendingFits State.awaiting_query_reply (some (query_failed error)) = Unit
PendingFits State.awaiting_open_reply (some open_success) = Unit
PendingFits State.awaiting_open_reply (some PendingAscii.open_busy) = Unit
PendingFits State.awaiting_open_reply (some PendingAscii.open_fail) = Unit
PendingFits State.awaiting_close_reply (some close_success) = Unit
PendingFits State.awaiting_close_reply (some close_io_error) = Unit
PendingFits State.awaiting_close_reply (some close_invalid) = Unit
PendingFits State.awaiting_abort_reply (some abort_success) = Unit
PendingFits State.failed (some pending) = Unit
PendingFits _ _ = ⊥

abbrev pub IsChosen : Option Compression → Type 0
IsChosen (some compression) = IsResolved compression
IsChosen none = ⊥

-- From the end of the negotiation on, the compression is known and is not `Auto`.
abbrev pub Negotiated : State → Option Compression → Type 0
Negotiated State.idle compression = Unit
Negotiated State.awaiting_query_reply compression = Unit
Negotiated State.failed compression = Unit
Negotiated _ compression = IsChosen compression

abbrev pub EventFits : FileEvent → Type 0
EventFits (FileEvent.negotiated version compression) = IsResolved compression
EventFits _ = Unit

pub record IsConsistent (ft : FileTransfer) : Type 0 where
  pub pending_fits : PendingFits ft.state ft.pending_ascii
  pub negotiated : Negotiated ft.state ft.negotiated_compression
  pub events_fit : All EventFits ft.out_events

pub new-IsConsistent : (session : Session) → IsConsistent (new session)
new-IsConsistent session = record { pending_fits = tt; negotiated = tt; events_fit = tt }

abbrev pub ResolvedResult : Result Compression FileError → Type 0
ResolvedResult (ok compression) = IsResolved compression
ResolvedResult (err error) = Unit

-- Whatever is requested and advertised, what is chosen is never `Auto`.
pub choose_compression-IsResolved :
    (requested device : Compression) → ResolvedResult (choose_compression requested device)
unfolding choose_compression
choose_compression-IsResolved uncompressed device = tt
choose_compression-IsResolved (heatshrink w l) (heatshrink _ _) = tt
choose_compression-IsResolved (heatshrink w l) uncompressed = tt
choose_compression-IsResolved (heatshrink w l) auto = tt
choose_compression-IsResolved auto (heatshrink w l) = tt
choose_compression-IsResolved auto uncompressed = tt
choose_compression-IsResolved auto auto = tt

pub pending_query-fits :
    (version : Str) (r : Result Compression FileError)
    → ResolvedResult r
    → PendingFits State.awaiting_query_reply (some (pending_query version r))
pending_query-fits version (ok c) h = h
pending_query-fits version (err e) h = tt

pub fail-IsConsistent :
    (ft : FileTransfer) (error : FileError)
    → PendingFits State.failed ft.pending_ascii
    → All EventFits ft.out_events
    → IsConsistent (fail ft error)
unfolding fail
fail-IsConsistent ft error p h = record {
  pending_fits = p;
  negotiated = tt;
  events_fit = All-append EventFits ft.out_events _ h (tt, tt);
}

pub failed-fits : (pending : Option PendingAscii) → PendingFits State.failed pending
failed-fits none = tt
failed-fits (some pending) = tt

pub emit-IsConsistent :
    (ft : FileTransfer) (state : State) (event : FileEvent) (compression : Option Compression)
    → Negotiated state compression
    → All EventFits ft.out_events
    → EventFits event
    → IsConsistent (
        emit
          (record ft { state = state; negotiated_compression = compression; pending_ascii = none })
          event)
emit-IsConsistent ft state event compression n h e = record {
  pending_fits = tt;
  negotiated = n;
  events_fit = All-append EventFits ft.out_events _ h (e, tt);
}
