-- ===== src/Transfer/Fits.antt =====
-- The lines `PFT:...` of src/file_transfer.rs against the pending lines of each state.
use marlin_binary_transfer.Common.{Option, equal, Bool-cases, inl, inr}
use marlin_binary_transfer.Text.{Str, codes}
use marlin_binary_transfer.Transfer.State.{State, PendingAscii, close_io_error, close_invalid}
use marlin_binary_transfer.Transfer.Operations.{
  on_success, on_open_reply, on_close_reply, reply_line,
}
use marlin_binary_transfer.Transfer.Invariant.{PendingFits}

on_success-fits :
    (state : State) (pending : Option PendingAscii)
    → PendingFits state pending
    → PendingFits state (on_success state pending)
on_success-fits State.idle pending h = h
on_success-fits State.awaiting_query_reply pending h = h
on_success-fits State.negotiated pending h = h
on_success-fits State.awaiting_open_reply pending h = tt
on_success-fits State.opened pending h = h
on_success-fits State.awaiting_write_ack pending h = h
on_success-fits State.awaiting_close_reply pending h = tt
on_success-fits State.closed pending h = h
on_success-fits State.awaiting_abort_reply pending h = tt
on_success-fits State.aborted pending h = h
on_success-fits State.failed pending h = h

open_busy-fits :
    (state : State) (pending : Option PendingAscii)
    → PendingFits state pending
    → PendingFits state (on_open_reply PendingAscii.open_busy state pending)
open_busy-fits State.idle pending h = h
open_busy-fits State.awaiting_query_reply pending h = h
open_busy-fits State.negotiated pending h = h
open_busy-fits State.awaiting_open_reply pending h = tt
open_busy-fits State.opened pending h = h
open_busy-fits State.awaiting_write_ack pending h = h
open_busy-fits State.awaiting_close_reply pending h = h
open_busy-fits State.closed pending h = h
open_busy-fits State.awaiting_abort_reply pending h = h
open_busy-fits State.aborted pending h = h
open_busy-fits State.failed pending h = h

open_fail-fits :
    (state : State) (pending : Option PendingAscii)
    → PendingFits state pending
    → PendingFits state (on_open_reply PendingAscii.open_fail state pending)
open_fail-fits State.idle pending h = h
open_fail-fits State.awaiting_query_reply pending h = h
open_fail-fits State.negotiated pending h = h
open_fail-fits State.awaiting_open_reply pending h = tt
open_fail-fits State.opened pending h = h
open_fail-fits State.awaiting_write_ack pending h = h
open_fail-fits State.awaiting_close_reply pending h = h
open_fail-fits State.closed pending h = h
open_fail-fits State.awaiting_abort_reply pending h = h
open_fail-fits State.aborted pending h = h
open_fail-fits State.failed pending h = h

io_error-fits :
    (state : State) (pending : Option PendingAscii)
    → PendingFits state pending
    → PendingFits state (on_close_reply close_io_error state pending)
io_error-fits State.idle pending h = h
io_error-fits State.awaiting_query_reply pending h = h
io_error-fits State.negotiated pending h = h
io_error-fits State.awaiting_open_reply pending h = h
io_error-fits State.opened pending h = h
io_error-fits State.awaiting_write_ack pending h = h
io_error-fits State.awaiting_close_reply pending h = tt
io_error-fits State.closed pending h = h
io_error-fits State.awaiting_abort_reply pending h = h
io_error-fits State.aborted pending h = h
io_error-fits State.failed pending h = h

invalid-fits :
    (state : State) (pending : Option PendingAscii)
    → PendingFits state pending
    → PendingFits state (on_close_reply close_invalid state pending)
invalid-fits State.idle pending h = h
invalid-fits State.awaiting_query_reply pending h = h
invalid-fits State.negotiated pending h = h
invalid-fits State.awaiting_open_reply pending h = h
invalid-fits State.opened pending h = h
invalid-fits State.awaiting_write_ack pending h = h
invalid-fits State.awaiting_close_reply pending h = tt
invalid-fits State.closed pending h = h
invalid-fits State.awaiting_abort_reply pending h = h
invalid-fits State.aborted pending h = h
invalid-fits State.failed pending h = h

pub reply_line-fits :
    (line : Str) (state : State) (pending : Option PendingAscii)
    → PendingFits state pending
    → PendingFits state (reply_line line state pending)
unfolding reply_line
reply_line-fits line state pending h = elim (Bool-cases (equal line (codes "PFT:success"))) [
  | inl e ↦ rw e (on_success-fits state pending h)
  | inr e ↦ elim (Bool-cases (equal line (codes "PFT:busy"))) [
    | inl f ↦ rw (e, f) (open_busy-fits state pending h)
    | inr f ↦ elim (Bool-cases (equal line (codes "PFT:fail"))) [
      | inl g ↦ rw (e, f, g) (open_fail-fits state pending h)
      | inr g ↦ elim (Bool-cases (equal line (codes "PFT:ioerror"))) [
        | inl k ↦ rw (e, f, g, k) (io_error-fits state pending h)
        | inr k ↦ elim (Bool-cases (equal line (codes "PFT:invalid"))) [
          | inl m ↦ rw (e, f, g, k, m) (invalid-fits state pending h)
          | inr m ↦ rw (e, f, g, k, m) h
        ]
      ]
    ]
  ]
]
