-- ===== src/Transfer/Diagram.antt =====
-- The lifecycle at the head of src/file_transfer.rs as a specification, and the runs of a program
-- that uses a transfer.
use marlin_binary_transfer.Common.{
  ℕ, ◌≡◌, Bool, Option, none, some, List, [], ◌∷◌, ◌++◌, Bytes, done,
}
use marlin_binary_transfer.Text.{Str}
use marlin_binary_transfer.Session.State.{Session}
use marlin_binary_transfer.Transfer.State.{
  Compression, FileError, FileEvent, State, FileTransfer, new,
}
use marlin_binary_transfer.Transfer.Operations.{
  query, open_file, write, close, abort, feed, tick, poll_outbound, poll,
}

-- The arrows that a request takes.
pub data Requests : State → State → Type 0 where
  queries : Requests State.idle State.awaiting_query_reply
  opens : Requests State.negotiated State.awaiting_open_reply
  writes : Requests State.opened State.awaiting_write_ack
  closes : Requests State.opened State.awaiting_close_reply
  aborts : Requests State.opened State.awaiting_abort_reply

-- The arrows that an event takes. A failure can come in every state.
pub data Answers : State → FileEvent → State → Type 0 where
  negotiates :
      {version : Str} {compression : Compression}
      → Answers State.awaiting_query_reply
          (FileEvent.negotiated version compression)
          State.negotiated
  opened : Answers State.awaiting_open_reply FileEvent.opened State.opened
  written : Answers State.awaiting_write_ack FileEvent.write_acked State.opened
  closed : Answers State.awaiting_close_reply FileEvent.closed State.closed
  aborted : Answers State.awaiting_abort_reply FileEvent.abort_acked State.aborted
  fails : {state : State} {error : FileError} → Answers state (FileEvent.failed error) State.failed

-- A path from `Idle`, with the events on it.
pub data Journey : State → List FileEvent → Type 0 where
  begins : Journey State.idle []
  requests :
      {state next : State} {events : List FileEvent}
      → Journey state events
      → Requests state next
      → Journey next events
  answers :
      {state next : State} {events : List FileEvent} {event : FileEvent}
      → Journey state events
      → Answers state event next
      → Journey next (events ++ event ∷ [])

-- The event that `poll` hands out, if any.
abbrev pub handed : Option FileEvent → List FileEvent
handed none = []
handed (some event) = event ∷ []

-- One call of a method other than `poll`, if it returns.
pub data Call : FileTransfer → FileTransfer → Type 0 where
  queries :
      {ft after : FileTransfer} (compression : Compression) (now : ℕ)
      → query ft compression now ≡ done after
      → Call ft after
  opens :
      {ft after : FileTransfer} (name : Str) (dummy : Bool) (now : ℕ)
      → open_file ft name dummy now ≡ done after
      → Call ft after
  writes :
      {ft after : FileTransfer} (chunk : Bytes) (now : ℕ)
      → write ft chunk now ≡ done after
      → Call ft after
  closes : {ft after : FileTransfer} (now : ℕ) → close ft now ≡ done after → Call ft after
  aborts : {ft after : FileTransfer} (now : ℕ) → abort ft now ≡ done after → Call ft after
  polls_outbound : {ft : FileTransfer} → Call ft (poll_outbound ft).0
  feeds :
      {ft after : FileTransfer} (bytes : Bytes) (now : ℕ)
      → feed ft bytes now ≡ done after
      → Call ft after
  ticks : {ft after : FileTransfer} (now : ℕ) → tick ft now ≡ done after → Call ft after

-- A run of a program that uses a transfer: what it calls, and the events that `poll` has handed out.
pub data Run : FileTransfer → List FileEvent → Type 0 where
  start : {session : Session} → Run (new session) []
  called :
      {ft after : FileTransfer} {given : List FileEvent}
      → Run ft given
      → Call ft after
      → Run after given
  polled :
      {ft : FileTransfer} {given : List FileEvent}
      → Run ft given
      → Run (poll ft).0 (given ++ handed (poll ft).1)
