-- ===== src/Transfer/Answers.antt =====
-- The table of replies in the documentation of src/file_transfer.rs: what each line `PFT:...` means to
-- OPEN, WRITE, CLOSE and ABORT.
use marlin_binary_transfer.Common.{
  ◌≡◌, refl, arith, Option, none, some, List, [], ◌∷◌, equal, Bool-cases, equal→eq, inl, inr, true,
  false, if◌then◌else◌,
}
use marlin_binary_transfer.Text.{Str, codes, starts_with, strip_prefix}
use marlin_binary_transfer.Session.State.{Event, synced, resend_requested, ascii_line}
use marlin_binary_transfer.Transfer.State.{
  io_error, no_open_file, protocol_violation, FileError, FileEvent, State, PendingAscii,
  open_success, close_success, close_io_error, close_invalid, abort_success,
}
use marlin_binary_transfer.Transfer.Operations.{reply_line}

-- The reply lines of each request that has them, and what each means.
abbrev pub open_answer : Str → Option FileEvent
open_answer line =
    if equal line (codes "PFT:success")
    then some FileEvent.opened
    else if equal line (codes "PFT:busy")
    then some (FileEvent.failed FileError.open_busy)
    else if equal line (codes "PFT:fail")
    then some (FileEvent.failed FileError.open_fail)
    else none

abbrev pub close_answer : Str → Option FileEvent
close_answer line =
    if equal line (codes "PFT:success")
    then some FileEvent.closed
    else if equal line (codes "PFT:ioerror")
    then some (FileEvent.failed io_error)
    else if equal line (codes "PFT:invalid")
    then some (FileEvent.failed no_open_file)
    else none

abbrev pub abort_answer : Str → Option FileEvent
abort_answer line = if equal line (codes "PFT:success") then some FileEvent.abort_acked else none

abbrev pub answer : State → Str → Option FileEvent
answer State.awaiting_open_reply line = open_answer line
answer State.awaiting_close_reply line = close_answer line
answer State.awaiting_abort_reply line = abort_answer line
answer _ line = none

-- What an acknowledgement without a reply line means: WRITE has no reply line.
abbrev pub unanswered : State → FileEvent
unanswered State.awaiting_open_reply =
    FileEvent.failed (protocol_violation "AwaitingOpenReply" "PFT:success | PFT:busy | PFT:fail")
unanswered State.awaiting_close_reply =
    FileEvent.failed
      (protocol_violation "AwaitingCloseReply" "PFT:success | PFT:ioerror | PFT:invalid")
unanswered State.awaiting_abort_reply =
    FileEvent.failed (protocol_violation "AwaitingAbortReply" "PFT:success")
unanswered _ = FileEvent.write_acked

-- The meaning of the last reply line.
abbrev pub or_else : Option FileEvent → FileEvent → FileEvent
or_else (some event) before = event
or_else none before = before

unfoldable pub last_answer : State → FileEvent → List Event → FileEvent
last_answer state before [] = before
last_answer state before (ascii_line line ∷ events) =
    last_answer state (or_else (answer state line) before) events
last_answer state before (event ∷ events) = last_answer state before events

-- The state that an event of a request leads to.
abbrev pub reached : FileEvent → State
reached (FileEvent.negotiated version compression) = State.negotiated
reached FileEvent.opened = State.opened
reached FileEvent.write_acked = State.opened
reached FileEvent.closed = State.closed
reached FileEvent.abort_acked = State.aborted
reached (FileEvent.failed error) = State.failed

-- The states of the four requests.
abbrev pub IsAwaiting : State → Type 0
IsAwaiting State.awaiting_open_reply = Unit
IsAwaiting State.awaiting_write_ack = Unit
IsAwaiting State.awaiting_close_reply = Unit
IsAwaiting State.awaiting_abort_reply = Unit
IsAwaiting _ = ⊥

-- The events that leave a request waiting.
abbrev pub IsQuiet : Event → Type 0
IsQuiet (ascii_line line) = Unit
IsQuiet (synced max_block_size protocol_version) = Unit
IsQuiet (resend_requested n) = Unit
IsQuiet _ = ⊥

-- What an acknowledgement makes of the pending line.
abbrev pub meaning : State → Option PendingAscii → FileEvent
meaning state (some open_success) = FileEvent.opened
meaning state (some PendingAscii.open_busy) = FileEvent.failed FileError.open_busy
meaning state (some PendingAscii.open_fail) = FileEvent.failed FileError.open_fail
meaning state (some close_success) = FileEvent.closed
meaning state (some close_io_error) = FileEvent.failed io_error
meaning state (some close_invalid) = FileEvent.failed no_open_file
meaning state (some abort_success) = FileEvent.abort_acked
meaning state _ = unanswered state

-- A line that is one word is not another.
distinct : (line a b : Str) → equal a b ≡ false → equal line a ≡ true → equal line b ≡ false
distinct line a b e t = rw (equal→eq line a t) e

pub reply_line-meaning :
    (state : State) (line : Str) (pending : Option PendingAscii)
    → IsAwaiting state
    → meaning state (reply_line line state pending)
      ≡ or_else (answer state line) (meaning state pending)
unfolding reply_line equal
reply_line-meaning State.awaiting_open_reply line pending h = ground arith
reply_line-meaning State.awaiting_close_reply line pending h = ground (
  arith,
  distinct line (codes "PFT:busy") (codes "PFT:ioerror") refl,
  distinct line (codes "PFT:busy") (codes "PFT:invalid") refl,
  distinct line (codes "PFT:fail") (codes "PFT:ioerror") refl,
  distinct line (codes "PFT:fail") (codes "PFT:invalid") refl,
)
reply_line-meaning State.awaiting_abort_reply line pending h = ground arith
reply_line-meaning State.awaiting_write_ack line pending h = ground arith
reply_line-meaning State.idle line pending h = absurd h
reply_line-meaning State.awaiting_query_reply line pending h = absurd h
reply_line-meaning State.negotiated line pending h = absurd h
reply_line-meaning State.opened line pending h = absurd h
reply_line-meaning State.closed line pending h = absurd h
reply_line-meaning State.aborted line pending h = absurd h
reply_line-meaning State.failed line pending h = absurd h

-- A version line is none of the reply lines.
version_line-equal :
    (line word : Str) (rest : Str)
    → strip_prefix line (codes "PFT:version:") ≡ some rest
    → strip_prefix word (codes "PFT:version:") ≡ none
    → equal line word ≡ false
version_line-equal line word rest e f = elim (Bool-cases (equal line word)) [
  | inl t ↦ cc (e, f, equal→eq line word t)
  | inr t ↦ t
]

pub version_line-answer :
    (state : State) (line rest : Str)
    → strip_prefix line (codes "PFT:version:") ≡ some rest
    → answer state line ≡ none
unfolding strip_prefix starts_with equal
version_line-answer state line rest e = by_state state
  where
    success : equal line (codes "PFT:success") ≡ false
    success = version_line-equal line _ rest e refl

    busy : equal line (codes "PFT:busy") ≡ false
    busy = version_line-equal line _ rest e refl

    fails : equal line (codes "PFT:fail") ≡ false
    fails = version_line-equal line _ rest e refl

    io : equal line (codes "PFT:ioerror") ≡ false
    io = version_line-equal line _ rest e refl

    invalid : equal line (codes "PFT:invalid") ≡ false
    invalid = version_line-equal line _ rest e refl

    by_state : (state : State) → answer state line ≡ none
    by_state State.awaiting_open_reply = rw (success, busy, fails) refl
    by_state State.awaiting_close_reply = rw (success, io, invalid) refl
    by_state State.awaiting_abort_reply = rw success refl
    by_state State.idle = refl
    by_state State.awaiting_query_reply = refl
    by_state State.negotiated = refl
    by_state State.opened = refl
    by_state State.awaiting_write_ack = refl
    by_state State.closed = refl
    by_state State.aborted = refl
    by_state State.failed = refl
