-- ===== src/Transfer/Drain.antt =====
-- The events of a session as `poll` of src/file_transfer.rs handles them while a request is under way.
use marlin_binary_transfer.Common.{ℕ, ◌≡◌, refl, sym, Option, none, some, List, [], ◌∷◌, ◌++◌, All}
use marlin_binary_transfer.Text.{Str, codes, strip_prefix}
use marlin_binary_transfer.Session.State.{
  Event, synced, ack, resend_requested, ascii_line, fatal_error, out_of_sync, timeout,
}
use marlin_binary_transfer.Transfer.State.{
  FileEvent, State, PendingAscii, query_version, query_failed, open_success, close_success,
  close_io_error, close_invalid, abort_success, FileTransfer, fail,
}
use marlin_binary_transfer.Transfer.Operations.{
  version_line, ascii_tail, handle_ascii_line, on_ack, handle_ack, handle_session_event,
  drain_events,
}
use marlin_binary_transfer.Transfer.Invariant.{PendingFits, IsConsistent}
use marlin_binary_transfer.Transfer.Keeps.{
  handle_session_event-IsConsistent, with_session-IsConsistent,
}
use marlin_binary_transfer.Transfer.Answers.{
  answer, or_else, last_answer, reached, IsAwaiting, IsQuiet, meaning, reply_line-meaning,
  version_line-answer,
}

-- A quiet event changes neither the state nor the events, and the pending line as the table says.
pub record Waits (ft after : FileTransfer) (event : FileEvent) : Type 0 where
  state : after.state ≡ ft.state
  out_events : after.out_events ≡ ft.out_events
  means : meaning ft.state after.pending_ascii ≡ event

pub version_line-waits :
    (state : State) (rest : Str) (ft : FileTransfer)
    → IsAwaiting state
    → version_line state rest ft ≡ ft
unfolding version_line
version_line-waits State.idle rest ft h = absurd h
version_line-waits State.awaiting_query_reply rest ft h = absurd h
version_line-waits State.negotiated rest ft h = absurd h
version_line-waits State.awaiting_open_reply rest ft h = refl
version_line-waits State.opened rest ft h = absurd h
version_line-waits State.awaiting_write_ack rest ft h = refl
version_line-waits State.awaiting_close_reply rest ft h = refl
version_line-waits State.closed rest ft h = absurd h
version_line-waits State.awaiting_abort_reply rest ft h = refl
version_line-waits State.aborted rest ft h = absurd h
version_line-waits State.failed rest ft h = absurd h

pub ascii_tail-Waits :
    (ft : FileTransfer) (line : Str) (tail : Option Str)
    → tail ≡ strip_prefix line (codes "PFT:version:")
    → IsAwaiting ft.state
    → Waits ft
        (ascii_tail tail line ft)
        (or_else (answer ft.state line) (meaning ft.state ft.pending_ascii))
unfolding ascii_tail
ascii_tail-Waits ft line (some rest) e h =
    rw (version_line-waits ft.state rest ft h, version_line-answer ft.state line rest (sym e))
      (record { state = refl; out_events = refl; means = refl })
ascii_tail-Waits ft line none e h = record {
  state = refl;
  out_events = refl;
  means = reply_line-meaning ft.state line ft.pending_ascii h;
}

-- An acknowledgement answers the request.
pub record Answered (before : List FileEvent) (after : FileTransfer) (event : FileEvent)
    : Type 0 where
  pub state : after.state ≡ reached event
  pub out_events : after.out_events ≡ before ++ event ∷ []
  pub pending_ascii : after.pending_ascii ≡ none

pub handle_ack-Answered :
    (ft : FileTransfer) (state : State) (pending : Option PendingAscii)
    → IsAwaiting state
    → PendingFits state pending
    → Answered ft.out_events
        (on_ack state pending (record ft { pending_ascii = none }))
        (meaning state pending)
unfolding on_ack fail
handle_ack-Answered ft State.idle pending h p = absurd h
handle_ack-Answered ft State.awaiting_query_reply pending h p = absurd h
handle_ack-Answered ft State.negotiated pending h p = absurd h
handle_ack-Answered ft State.awaiting_open_reply none h p = record {
  state = refl;
  out_events = refl;
  pending_ascii = refl;
}
handle_ack-Answered ft State.awaiting_open_reply (some (query_version version compression)) h p =
    absurd p
handle_ack-Answered ft State.awaiting_open_reply (some (query_failed error)) h p = absurd p
handle_ack-Answered ft State.awaiting_open_reply (some open_success) h p = record {
  state = refl;
  out_events = refl;
  pending_ascii = refl;
}
handle_ack-Answered ft State.awaiting_open_reply (some PendingAscii.open_busy) h p = record {
  state = refl;
  out_events = refl;
  pending_ascii = refl;
}
handle_ack-Answered ft State.awaiting_open_reply (some PendingAscii.open_fail) h p = record {
  state = refl;
  out_events = refl;
  pending_ascii = refl;
}
handle_ack-Answered ft State.awaiting_open_reply (some close_success) h p = absurd p
handle_ack-Answered ft State.awaiting_open_reply (some close_io_error) h p = absurd p
handle_ack-Answered ft State.awaiting_open_reply (some close_invalid) h p = absurd p
handle_ack-Answered ft State.awaiting_open_reply (some abort_success) h p = absurd p
handle_ack-Answered ft State.opened pending h p = absurd h
handle_ack-Answered ft State.awaiting_write_ack none h p = record {
  state = refl;
  out_events = refl;
  pending_ascii = refl;
}
handle_ack-Answered ft State.awaiting_write_ack (some pending) h p = absurd p
handle_ack-Answered ft State.awaiting_close_reply none h p = record {
  state = refl;
  out_events = refl;
  pending_ascii = refl;
}
handle_ack-Answered ft State.awaiting_close_reply (some (query_version version compression)) h p =
    absurd p
handle_ack-Answered ft State.awaiting_close_reply (some (query_failed error)) h p = absurd p
handle_ack-Answered ft State.awaiting_close_reply (some open_success) h p = absurd p
handle_ack-Answered ft State.awaiting_close_reply (some PendingAscii.open_busy) h p = absurd p
handle_ack-Answered ft State.awaiting_close_reply (some PendingAscii.open_fail) h p = absurd p
handle_ack-Answered ft State.awaiting_close_reply (some close_success) h p = record {
  state = refl;
  out_events = refl;
  pending_ascii = refl;
}
handle_ack-Answered ft State.awaiting_close_reply (some close_io_error) h p = record {
  state = refl;
  out_events = refl;
  pending_ascii = refl;
}
handle_ack-Answered ft State.awaiting_close_reply (some close_invalid) h p = record {
  state = refl;
  out_events = refl;
  pending_ascii = refl;
}
handle_ack-Answered ft State.awaiting_close_reply (some abort_success) h p = absurd p
handle_ack-Answered ft State.closed pending h p = absurd h
handle_ack-Answered ft State.awaiting_abort_reply none h p = record {
  state = refl;
  out_events = refl;
  pending_ascii = refl;
}
handle_ack-Answered ft State.awaiting_abort_reply (some (query_version version compression)) h p =
    absurd p
handle_ack-Answered ft State.awaiting_abort_reply (some (query_failed error)) h p = absurd p
handle_ack-Answered ft State.awaiting_abort_reply (some open_success) h p = absurd p
handle_ack-Answered ft State.awaiting_abort_reply (some PendingAscii.open_busy) h p = absurd p
handle_ack-Answered ft State.awaiting_abort_reply (some PendingAscii.open_fail) h p = absurd p
handle_ack-Answered ft State.awaiting_abort_reply (some close_success) h p = absurd p
handle_ack-Answered ft State.awaiting_abort_reply (some close_io_error) h p = absurd p
handle_ack-Answered ft State.awaiting_abort_reply (some close_invalid) h p = absurd p
handle_ack-Answered ft State.awaiting_abort_reply (some abort_success) h p = record {
  state = refl;
  out_events = refl;
  pending_ascii = refl;
}
handle_ack-Answered ft State.aborted pending h p = absurd h
handle_ack-Answered ft State.failed pending h p = absurd h

pub handle_quiet-Waits :
    (event : Event) (ft : FileTransfer)
    → IsQuiet event
    → IsAwaiting ft.state
    → Waits ft
        (handle_session_event ft event)
        (last_answer ft.state (meaning ft.state ft.pending_ascii) (event ∷ []))
unfolding handle_session_event handle_ascii_line last_answer
handle_quiet-Waits (ascii_line line) ft q h = ascii_tail-Waits ft line _ refl h
handle_quiet-Waits (synced max_block_size protocol_version) ft q h = record {
  state = refl;
  out_events = refl;
  means = refl;
}
handle_quiet-Waits (resend_requested n) ft q h = record {
  state = refl;
  out_events = refl;
  means = refl;
}
handle_quiet-Waits (ack n) ft q h = absurd q
handle_quiet-Waits fatal_error ft q h = absurd q
handle_quiet-Waits (out_of_sync expected got) ft q h = absurd q
handle_quiet-Waits (timeout sync) ft q h = absurd q

pub last_answer-cons :
    (state : State) (before : FileEvent) (event : Event) (events : List Event)
    → last_answer state before (event ∷ events)
      ≡ last_answer state (last_answer state before (event ∷ [])) events
unfolding last_answer
last_answer-cons state before (ascii_line line) events = refl
last_answer-cons state before (synced m v) events = refl
last_answer-cons state before (ack n) events = refl
last_answer-cons state before (resend_requested n) events = refl
last_answer-cons state before fatal_error events = refl
last_answer-cons state before (out_of_sync expected got) events = refl
last_answer-cons state before (timeout sync) events = refl

-- The events up to the acknowledgement answer the request, and the others come after that.
pub record AnsweredFirst (before : List FileEvent) (more : List Event) (result : FileTransfer)
    (event : FileEvent) : Type 0 where
  pub between : FileTransfer
  pub answered : Answered before between event
  pub goes_on : result ≡ drain_events more between

pub after_quiet :
    (ft next after : FileTransfer) (more : List Event) (event : FileEvent) (events : List Event)
    → Waits ft next event
    → AnsweredFirst next.out_events more after
        (last_answer next.state (meaning next.state next.pending_ascii) events)
    → AnsweredFirst ft.out_events more after (last_answer ft.state event events)
after_quiet ft next after more event events w a = rw (w.state, w.out_events, w.means) at a

pub drain_events-AnsweredFirst :
    (events more : List Event) (n : ℕ) (ft : FileTransfer)
    → IsConsistent ft
    → IsAwaiting ft.state
    → All IsQuiet events
    → AnsweredFirst ft.out_events more
        (drain_events (events ++ ack n ∷ more) ft)
        (last_answer ft.state (meaning ft.state ft.pending_ascii) events)
unfolding drain_events last_answer
drain_events-AnsweredFirst [] more n ft v h q = record {
  between = handle_ack (record ft { session = record (ft.session) { events = more } });
  answered =
      unfold handle_ack in
      handle_ack-Answered (record ft { session = record (ft.session) { events = more } }) ft.state
        ft.pending_ascii h v.pending_fits;
  goes_on = unfold handle_session_event in refl;
}
drain_events-AnsweredFirst (event ∷ events) more n ft v h (q, qs) =
    let taken : FileTransfer = record ft {
      session = record (ft.session) { events = events ++ ack n ∷ more };
    } in
    let w = handle_quiet-Waits event taken q h in
    rw (last_answer-cons ft.state (meaning ft.state ft.pending_ascii) event events) (
      after_quiet taken (handle_session_event taken event) _ more _ events w (
        drain_events-AnsweredFirst events more n (handle_session_event taken event)
          (handle_session_event-IsConsistent event taken (with_session-IsConsistent _ ft v))
          (rw w.state h) qs))
