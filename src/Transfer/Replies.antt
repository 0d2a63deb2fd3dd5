-- ===== src/Transfer/Replies.antt =====
-- The replies to OPEN, WRITE, CLOSE and ABORT as `poll` of src/file_transfer.rs reads them: reply
-- lines, among any others, and then the acknowledgement.
use marlin_binary_transfer.Common.{ℕ, ◌≡◌, refl, none, some, List, [], ◌∷◌, ◌++◌, All}
use marlin_binary_transfer.Session.State.{Event, ack}
use marlin_binary_transfer.Transfer.State.{FileEvent, FileTransfer}
use marlin_binary_transfer.Transfer.Operations.{drain_events, pop_event, poll}
use marlin_binary_transfer.Transfer.Invariant.{IsConsistent}
use marlin_binary_transfer.Transfer.Answers.{
  unanswered, last_answer, reached, IsAwaiting, IsQuiet, meaning,
}
use marlin_binary_transfer.Transfer.Drain.{Answered, AnsweredFirst, drain_events-AnsweredFirst}

at_last :
    (before : List FileEvent) (result : FileTransfer) (event : FileEvent)
    → AnsweredFirst before [] result event
    → Answered before result event
unfolding drain_events
at_last before result event a = rw a.goes_on a.answered

drain_events-Answered :
    (events : List Event) (n : ℕ) (ft : FileTransfer)
    → IsConsistent ft
    → IsAwaiting ft.state
    → All IsQuiet events
    → Answered ft.out_events
        (drain_events (events ++ ack n ∷ []) ft)
        (last_answer ft.state (meaning ft.state ft.pending_ascii) events)
drain_events-Answered events n ft v h q =
    at_last _ _ _ (drain_events-AnsweredFirst events [] n ft v h q)

-- `poll` hands out the only event.
popped :
    (after : FileTransfer) (event : FileEvent)
    → Answered [] after event
    → ((pop_event after.out_events after).1 ≡ some event)
      × ((pop_event after.out_events after).0.state ≡ reached event)
      × ((pop_event after.out_events after).0.pending_ascii ≡ none)
unfolding pop_event
popped after event a = rw a.out_events (refl, a.state, a.pending_ascii)

unheard :
    (ft after : FileTransfer) (events : List Event)
    → ft.pending_ascii ≡ none
    → ft.out_events ≡ []
    → Answered ft.out_events after (last_answer ft.state (meaning ft.state ft.pending_ascii) events)
    → Answered [] after (last_answer ft.state (unanswered ft.state) events)
unheard ft after events e f a = rw (e, f) at a

queued :
    (ft : FileTransfer) (queue events : List Event) (event : FileEvent)
    → queue ≡ events
    → Answered [] (drain_events events ft) event
    → Answered [] (drain_events queue ft) event
queued ft queue events event e a = rw e a

-- A consistent transfer (as every one is that a program can reach) has an OPEN, WRITE, CLOSE or ABORT
-- under way, no line pending and no event waiting, and its session holds any number of reply lines,
-- other lines, resend requests and handshakes, then an acknowledgement. Then `poll` returns what the
-- table says: the meaning of the last reply line to the request, or, if none is among them, a write
-- acknowledgement for WRITE and a protocol violation for the others. It goes to the state of that
-- event, with no line pending.
pub poll_reply :
    (ft : FileTransfer) (events : List Event) (n : ℕ)
    → IsConsistent ft
    → IsAwaiting ft.state
    → All IsQuiet events
    → ft.pending_ascii ≡ none
    → ft.out_events ≡ []
    → ft.session.events ≡ events ++ ack n ∷ []
    → ((poll ft).1 ≡ some (last_answer ft.state (unanswered ft.state) events))
      × ((poll ft).0.state ≡ reached (last_answer ft.state (unanswered ft.state) events))
      × ((poll ft).0.pending_ascii ≡ none)
unfolding poll
poll_reply ft events n v h q none_pending no_event e = popped _ _ (
    queued ft ft.session.events (events ++ ack n ∷ []) _ e
      (unheard ft _ events none_pending no_event (drain_events-Answered events n ft v h q)))
