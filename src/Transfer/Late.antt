-- ===== src/Transfer/Late.antt =====
-- A failure of the session that `poll` of src/file_transfer.rs reads together with the reply before it.
use marlin_binary_transfer.Common.{
  ℕ, ◌≡◌, refl, none, some, List, [], ◌∷◌, ◌++◌, All, Bytes, ap, Bool, true, false, Checked, panic,
  assert, ◌>>◌,
}
use marlin_binary_transfer.Session.State.{Event, ack, fatal_error}
use marlin_binary_transfer.Transfer.State.{
  FileEvent, State, FileTransfer, fail, session_fatal_error,
}
use marlin_binary_transfer.Transfer.Operations.{
  handle_session_event, drain_events, pop_event, poll, is_opened, write, close,
}
use marlin_binary_transfer.Transfer.Invariant.{IsConsistent}
use marlin_binary_transfer.Transfer.Answers.{unanswered, last_answer, IsAwaiting, IsQuiet, meaning}
use marlin_binary_transfer.Transfer.Drain.{AnsweredFirst, drain_events-AnsweredFirst}

-- The outcome of `poll` on the drained transfer.
record FailedBehind (after : FileTransfer) (event : FileEvent) : Type 0 where
  pub state : after.state ≡ State.failed
  pub out_events : after.out_events ≡ event ∷ (FileEvent.failed session_fatal_error ∷ [])

failed_next :
    (ft : FileTransfer) (event : FileEvent)
    → ft.out_events ≡ event ∷ []
    → FailedBehind (drain_events (fatal_error ∷ []) ft) event
unfolding drain_events handle_session_event fail
failed_next ft event e = record { state = refl; out_events = rw e }

failed_behind :
    (ft result : FileTransfer) (events : List Event)
    → ft.pending_ascii ≡ none
    → ft.out_events ≡ []
    → AnsweredFirst ft.out_events
        (fatal_error ∷ [])
        result
        (last_answer ft.state (meaning ft.state ft.pending_ascii) events)
    → FailedBehind result (last_answer ft.state (unanswered ft.state) events)
failed_behind ft result events e f a =
    let b : AnsweredFirst [] (fatal_error ∷ []) result
        (last_answer ft.state (unanswered ft.state) events) =
      rw (e, f) at a in
    rw b.goes_on (failed_next b.between _ b.answered.out_events)

queued :
    (ft : FileTransfer) (queue events : List Event) (event : FileEvent)
    → queue ≡ events
    → FailedBehind (drain_events events ft) event
    → FailedBehind (drain_events queue ft) event
queued ft queue events event e a = rw e a

popped :
    (after : FileTransfer) (event : FileEvent)
    → FailedBehind after event
    → ((pop_event after.out_events after).1 ≡ some event)
      × ((pop_event after.out_events after).0.state ≡ State.failed)
unfolding pop_event
popped after event a = rw a.out_events (refl, a.state)

refused : (test : Bool) (m : Checked FileTransfer) → test ≡ false → (assert test >> m) ≡ panic
refused false m e = refl
refused true m e = cc

write_refused :
    (ft : FileTransfer) (chunk : Bytes) (now : ℕ)
    → ft.state ≡ State.failed
    → write ft chunk now ≡ panic
unfolding write
write_refused ft chunk now e = refused _ _ (ap is_opened e)

close_refused : (ft : FileTransfer) (now : ℕ) → ft.state ≡ State.failed → close ft now ≡ panic
unfolding close
close_refused ft now e = refused _ _ (ap is_opened e)

-- A consistent transfer (as every one is that a program can reach) with an OPEN, WRITE, CLOSE or ABORT
-- under way, no line pending and no event waiting, whose session holds any number of lines, resend
-- requests and handshakes, then an acknowledgement, and behind it the device's fatal error. `poll`
-- returns the event of the request as if nothing had failed, but the transfer has failed already, and
-- `write` and `close` on it panic.
pub poll_failed_behind :
    (ft : FileTransfer) (events : List Event) (n : ℕ) (chunk : Bytes) (now : ℕ)
    → IsConsistent ft
    → IsAwaiting ft.state
    → All IsQuiet events
    → ft.pending_ascii ≡ none
    → ft.out_events ≡ []
    → ft.session.events ≡ events ++ ack n ∷ (fatal_error ∷ [])
    → ((poll ft).1 ≡ some (last_answer ft.state (unanswered ft.state) events))
      × ((poll ft).0.state ≡ State.failed)
      × (write (poll ft).0 chunk now ≡ panic)
      × (close (poll ft).0 now ≡ panic)
unfolding poll
poll_failed_behind ft events n chunk now v h q none_pending no_event e =
    let (returned, state) = popped _ _ (
      queued ft ft.session.events (events ++ ack n ∷ (fatal_error ∷ [])) _ e (
        failed_behind ft _ events none_pending no_event
          (drain_events-AnsweredFirst events (fatal_error ∷ []) n ft v h q))) in
    (returned, state, write_refused _ chunk now state, close_refused _ now state)
