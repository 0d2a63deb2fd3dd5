-- ===== src/Transfer/Query.antt =====
-- The reply to QUERY as `poll` of src/file_transfer.rs reads it.
use marlin_binary_transfer.Common.{
  ◌≡◌, ◌≢◌, refl, Option, none, some, List, [], ◌∷◌, ◌++◌, All, Result, ok, err, equal, ℕ,
}
use marlin_binary_transfer.Text.{Str, codes, strip_prefix}
use marlin_binary_transfer.Text.Plain.{split_once-append}
use marlin_binary_transfer.Session.State.{Event, ack, ascii_line}
use marlin_binary_transfer.Transfer.State.{
  Compression, FileError, FileEvent, State, FileTransfer, fail,
}
use marlin_binary_transfer.Transfer.Compression.{choose_compression, parse_compression_spec}
use marlin_binary_transfer.Transfer.Operations.{
  version_line, version_fields, ascii_tail, on_ack, handle_ascii_line, handle_ack,
  handle_session_event, drain_events, pop_event, poll,
}

-- A transfer that has sent QUERY, and whose session has the given events.
abbrev pub asked : List Event → FileTransfer → FileTransfer
asked events ft = record ft {
  state = State.awaiting_query_reply;
  pending_ascii = none;
  out_events = [];
  session = record (ft.session) { events = events };
}

abbrev pub version_reply : Str → Str → Str
version_reply version spec = codes "PFT:version:" ++ (version ++ (b':' ∷ spec))

-- The event, the state and the compression that the outcome of the negotiation leads to.
abbrev pub event_of : Str → Result Compression FileError → FileEvent
event_of version (ok chosen) = FileEvent.negotiated version chosen
event_of version (err error) = FileEvent.failed error

abbrev pub state_of : Result Compression FileError → State
state_of (ok chosen) = State.negotiated
state_of (err error) = State.failed

abbrev pub compression_of : FileTransfer → Result Compression FileError → Option Compression
compression_of ft (ok chosen) = some chosen
compression_of ft (err error) = ft.negotiated_compression

by_outcome :
    (r : Result Compression FileError) (version spec : Str) (n : ℕ) (ft : FileTransfer)
    → choose_compression ft.requested_compression (parse_compression_spec spec) ≡ r
    → All (λ c. c ≢ b':') version
    → poll (asked (ascii_line (version_reply version spec) ∷ (ack n ∷ [])) ft) ≡ (
      record (asked [] ft) {
        state = state_of r;
        negotiated_compression = compression_of ft r;
        advertised_version = some version;
      },
      some (event_of version r),
    )
unfolding poll drain_events handle_session_event handle_ascii_line ascii_tail version_line
    version_fields handle_ack on_ack pop_event strip_prefix equal fail
by_outcome (ok chosen) version spec n ft e h = rw (split_once-append b':' version spec h, e)
by_outcome (err error) version spec n ft e h = rw (split_once-append b':' version spec h, e)

-- The line `PFT:version:<version>:<spec>` and the acknowledgement, for a version without a colon:
-- `poll` hands out the negotiated compression, or the failure, that the request and the spec lead to;
-- the transfer keeps the version and the compression, has nothing pending, and goes to `Negotiated`
-- or `Failed`.
pub poll_version :
    (ft : FileTransfer) (version spec : Str) (n : ℕ)
    → All (λ c. c ≢ b':') version
    → poll (asked (ascii_line (version_reply version spec) ∷ (ack n ∷ [])) ft) ≡ (
      record (asked [] ft) {
        state =
            state_of (choose_compression ft.requested_compression (parse_compression_spec spec));
        negotiated_compression =
            compression_of ft
              (choose_compression ft.requested_compression (parse_compression_spec spec));
        advertised_version = some version;
      },
      some (
          event_of version
            (choose_compression ft.requested_compression (parse_compression_spec spec))),
    )
poll_version ft version spec n h = by_outcome _ version spec n ft refl h
