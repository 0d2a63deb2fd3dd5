-- ===== src/Transfer/Sessions.antt =====
-- The session under the handlers of src/file_transfer.rs.
use marlin_binary_transfer.Common.{ap, ◌≡◌, refl, arith, Option, none, some, List, [], ◌∷◌}
use marlin_binary_transfer.Text.{Str}
use marlin_binary_transfer.Session.State.{
  Event, synced, ack, resend_requested, ascii_line, fatal_error, out_of_sync, timeout, Session,
}
use marlin_binary_transfer.Transfer.State.{State, PendingAscii, FileTransfer, fail}
use marlin_binary_transfer.Transfer.Operations.{
  version_fields, version_line, ascii_tail, handle_ascii_line, on_ack, handle_ack,
  handle_session_event, drain_events,
}
use marlin_binary_transfer.Session.State as SessionState
use marlin_binary_transfer.Session.Reach as SessionReach

on_ack-session :
    (state : State) (pending : Option PendingAscii) (ft : FileTransfer)
    → (on_ack state pending ft).session ≡ ft.session
unfolding on_ack fail
on_ack-session state pending ft = ground arith

version_line-session :
    (state : State) (rest : Str) (ft : FileTransfer)
    → (version_line state rest ft).session ≡ ft.session
unfolding version_line version_fields
version_line-session state rest ft = ground arith

ascii_tail-session :
    (tail : Option Str) (line : Str) (ft : FileTransfer)
    → (ascii_tail tail line ft).session ≡ ft.session
unfolding ascii_tail
ascii_tail-session (some rest) line ft = version_line-session ft.state rest ft
ascii_tail-session none line ft = refl

pub handle_session_event-session :
    (event : Event) (ft : FileTransfer) → (handle_session_event ft event).session ≡ ft.session
unfolding handle_session_event handle_ascii_line handle_ack fail
handle_session_event-session (ascii_line line) ft = ascii_tail-session _ line ft
handle_session_event-session (ack n) ft =
    on_ack-session ft.state ft.pending_ascii (record ft { pending_ascii = none })
handle_session_event-session (synced max_block_size protocol_version) ft = refl
handle_session_event-session (resend_requested n) ft = refl
handle_session_event-session fatal_error ft = refl
handle_session_event-session (out_of_sync expected got) ft = refl
handle_session_event-session (timeout sync) ft = refl

popped :
    (s : Session) (event : Event) (rest : List Event)
    → s.events ≡ event ∷ rest
    → (SessionState.poll_event s).0 ≡ record s { events = rest }
unfolding SessionState.poll_event SessionState.pop_event
popped s event rest e = ap (λ events. (SessionState.pop_event events s).0) e

-- Taking an event off the session's queue is a step of the session.
pub drain_events-session :
    (events : List Event) (ft : FileTransfer)
    → ft.session.events ≡ events
    → SessionReach.IsReachable ft.session
    → SessionReach.IsReachable (drain_events events ft).session
unfolding drain_events
drain_events-session [] ft e r = r
drain_events-session (event ∷ rest) ft e r =
    drain_events-session rest _ (ap (λ s. s.events) kept) (
      rw kept
        (rw (← popped ft.session event rest e) (SessionReach.next r SessionReach.polls_event)))
  where
    kept :
        (handle_session_event
          (record ft { session = record (ft.session) { events = rest } })
          event).session
        ≡ record (ft.session) { events = rest }
    kept = handle_session_event-session event _
